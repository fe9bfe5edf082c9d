-- ===== src/Subscription/Output.antt =====
-- Outputs of a subscription: the drivers' configurations and the formats of
-- common/src/subscription.rs.
pub mod Tls
use openwec.Prelude.{
  ℕ, String, Bool, true, false, Option, none, some, List, Result, ok, bail, Eq, is_empty,
  if◌then◌else◌,
}
use openwec.Prelude.Dict.{Dict}

pub record KafkaConfiguration : Type 0 where
  pub topic : String
  pub options : Dict String String

pub record RedisConfiguration : Type 0 where
  pub addr : String
  pub list : String

pub record TcpConfiguration : Type 0 where
  pub host : String
  pub port : ℕ
  pub tls_enabled : Bool
  pub tls_certificate_authorities : List String
  pub tls_certificate : Option String
  pub tls_key : Option String

-- The test on the pair of the client's certificate and its key.
abbrev pub cert_and_key : {A : Type 0} → Option String → Option String → Result A → Result A
cert_and_key (some _) (some _) next = next
cert_and_key none none next = next
cert_and_key _ _ next =
    bail
      "tls_certificate and tls_key must both be defined, found tls_certificate={:?} and tls_key={:?}"

-- `TcpConfiguration::new`. `is_ip_addr` is the success of `IpAddr::from_str`.
unfoldable pub tcp_configuration :
    (is_ip_addr : String → Bool)
    → String
    → ℕ
    → Bool
    → List String
    → Option String
    → Option String
    → Result TcpConfiguration
tcp_configuration is_ip_addr host port tls_enabled authorities certificate key =
    let config : TcpConfiguration = record {
      host = host;
      port = port;
      tls_enabled = tls_enabled;
      tls_certificate_authorities = authorities;
      tls_certificate = certificate;
      tls_key = key;
    } in
    if tls_enabled
    then if is_ip_addr host
      then bail "host must be a hostname if tls is enabled, found {}"
      else if is_empty authorities
      then bail "tls_certificate_authorities must be not empty if tls is enabled"
      else cert_and_key certificate key (ok config)
    else ok config

pub record FilesConfiguration : Type 0 where
  pub path : String

pub record UnixDatagramConfiguration : Type 0 where
  pub path : String

pub data SubscriptionOutputDriver : Type 0 where
  files : FilesConfiguration → SubscriptionOutputDriver
  kafka : KafkaConfiguration → SubscriptionOutputDriver
  tcp : TcpConfiguration → SubscriptionOutputDriver
  redis : RedisConfiguration → SubscriptionOutputDriver
  unix_datagram : UnixDatagramConfiguration → SubscriptionOutputDriver

pub data SubscriptionOutputFormat : Type 0 where
  json raw raw_json nxlog : SubscriptionOutputFormat

unfoldable pub SubscriptionOutputFormat-discrete : Discrete SubscriptionOutputFormat
SubscriptionOutputFormat-discrete = hlevel

instance abbrev pub format_eq : Eq SubscriptionOutputFormat
format_eq = record { dec = SubscriptionOutputFormat-discrete }

unfoldable pub needs_parsed_event : SubscriptionOutputFormat → Bool
needs_parsed_event raw = false
needs_parsed_event raw_json = false
needs_parsed_event json = true
needs_parsed_event nxlog = true

pub record SubscriptionOutput : Type 0 where
  pub format : SubscriptionOutputFormat
  pub driver : SubscriptionOutputDriver
  pub enabled : Bool
