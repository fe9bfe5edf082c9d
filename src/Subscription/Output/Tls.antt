-- ===== src/Subscription/Output/Tls.antt =====
-- Which configurations of the TCP driver are accepted.
use openwec.Prelude.{
  ℕ, String, Bool, true, false, not, ◌&&◌, ◌||◌, Option, none, some, List, ◌≡◌, ◌↔◌, arith, ok,
  is_empty,
}
use openwec.Subscription.Output.{TcpConfiguration, tcp_configuration}

-- A certificate and its key, or neither.
abbrev pub paired : Option String → Option String → Bool
paired (some _) (some _) = true
paired none none = true
paired _ _ = false

-- A configuration of the TCP driver is accepted exactly when it does without TLS, or its host is a
-- name and no address, it has a certificate authority, and it has both of the client's certificate
-- and key or neither; it is then what was given.
pub tcp_configuration_iff :
    (is_ip_addr : String → Bool) (host : String) (port : ℕ) (tls_enabled : Bool)
    (authorities : List String) (certificate key : Option String) (config : TcpConfiguration)
    → (tcp_configuration is_ip_addr host port tls_enabled authorities certificate key ≡ ok config)
      ↔ (((not tls_enabled
              || not (is_ip_addr host) && not (is_empty authorities) && paired certificate key)
            ≡ true)
          × (record {
            host = host;
            port = port;
            tls_enabled = tls_enabled;
            tls_certificate_authorities = authorities;
            tls_certificate = certificate;
            tls_key = key;
          }
              ≡ config))
unfolding tcp_configuration
tcp_configuration_iff is_ip_addr host port tls_enabled authorities none none config =
    (λ h. (ground (arith, h), ground (arith, h)), λ h. ground (arith, h))
tcp_configuration_iff is_ip_addr host port tls_enabled authorities none (some k) config =
    (λ h. (ground (arith, h), ground (arith, h)), λ h. ground (arith, h))
tcp_configuration_iff is_ip_addr host port tls_enabled authorities (some c) none config =
    (λ h. (ground (arith, h), ground (arith, h)), λ h. ground (arith, h))
tcp_configuration_iff is_ip_addr host port tls_enabled authorities (some c) (some k) config =
    (λ h. (ground (arith, h), ground (arith, h)), λ h. ground (arith, h))
