-- ===== src/Tests/Filters.antt =====
-- Client filters, changes and outputs of a subscription, on concrete texts.
use openwec.Prelude.{
  ℕ, String, Option, true, false, none, some, [], ◌∷◌, ◌≡◌, ◌≢◌, ◌↔◌, refl, ok, arith, ◌==◌,
  get_elem?, ltb, eqb, suc, if◌then◌else◌, string_dec, string_eq, ap,
}
use openwec.Prelude.HashSet
use openwec.Prelude.Text.{split, join}
use openwec.Subscription.Output.{SubscriptionOutput, TcpConfiguration, tcp_configuration}
use openwec.Subscription.Output.Tls.{tcp_configuration_iff}
use openwec.Subscription.Data.{SubscriptionData, is_active_for, delete_output, set_output_enabled}
use openwec.Subscription.Data.Activity.{HasEnabled, is_active_for_iff}
use openwec.Subscription.Data.Outputs.{get_elem?-delete_output, get_elem?-set_output_enabled}
use openwec.Subscription.Filter.Flags
use openwec.Subscription.Filter.Operation
use openwec.Subscription.Filter.Kind
use openwec.Subscription.Filter.Operation.{only}
use openwec.Subscription.Filter.Kind.{kerberos_princ}
use openwec.Subscription.Filter.{
  ClientFilter, target_texts, targets_to_string, eval, try_new, add_target, collect_targets,
  targets_to_opt_string,
}
use openwec.Subscription.Filter.Decision.{eval-try_new}
use openwec.Subscription.Filter.Storage.{reload, reload_lem}
use openwec.Subscription.Filter.Collected.{SameFilter}
use openwec.Tests.{swapped, swapped-IsOrder}
use openwec.Subscription.Filter.Loss.{only_filter, eval-add_target_case, eval-reload_comma}
use openwec.Tests.{crate, to_lowercase, logons}

try_new_example :
    eval crate to_lowercase (only_filter crate to_lowercase true ("win10" ∷ [])) "WIN10" none ≡ true
unfolding try_new collect_targets string_dec
try_new_example =
    eval-try_new crate to_lowercase only kerberos_princ
      (record { case_insensitive = true; glob_pattern = false }) ("WIN10" ∷ [])
      (only_filter crate to_lowercase true ("win10" ∷ [])) "WIN10" none refl

abbrev two_machines : ClientFilter String
two_machines = only_filter crate to_lowercase true ("win10" ∷ "win11" ∷ [])

reload_lem_example :
    (g : ClientFilter String) × (reload crate to_lowercase swapped two_machines ≡ ok g)
    × SameFilter two_machines g
    × ((client : String) (machine : Option String)
        → eval crate to_lowercase g client machine
          ≡ eval crate to_lowercase two_machines client machine)
unfolding HashSet.contains string_dec
reload_lem_example =
    reload_lem crate to_lowercase swapped two_machines swapped-IsOrder
      (refl, (refl, (refl, tt)), (refl, (refl, tt)), (refl, (refl, tt)))

true-false : false ≢ true
true-false e = ground (arith, e)

lower_differs : to_lowercase "WIN10" ≢ "WIN10"
unfolding string_dec
lower_differs e = true-false (ap (λ t. t == "WIN10") e)

add_target_example :
    eval crate to_lowercase
      (only_filter crate to_lowercase true ("win11" ∷ "WIN10" ∷ []))
      "WIN10"
      none
    ≡ false
unfolding add_target string_dec HashSet.contains
add_target_example =
    eval-add_target_case crate to_lowercase ("win11" ∷ []) "WIN10" none
      (only_filter crate to_lowercase true ("win11" ∷ "WIN10" ∷ [])) lower_differs refl refl

comma_example :
    (eval crate to_lowercase (only_filter crate to_lowercase false ("a,b" ∷ [])) "a,b" none ≡ true)
    × (eval crate to_lowercase (only_filter crate to_lowercase false ("a" ∷ "b" ∷ [])) "a,b" none
        ≡ false)
unfolding reload HashSet.contains string_dec Flags.from_bits Flags.bits targets_to_opt_string
    targets_to_string target_texts Operation.parse Operation.to_string Kind.parse Kind.to_string
    split join
comma_example =
    eval-reload_comma crate to_lowercase swapped ("a,b" ∷ []) "a,b" none
      (only_filter crate to_lowercase false ("a" ∷ "b" ∷ [])) refl refl refl

active_example :
    (is_active_for crate to_lowercase logons "win10" none ≡ true)
    ↔ ((true ≡ true) × HasEnabled logons.outputs × (true ≡ true))
active_example = is_active_for_iff crate to_lowercase logons "win10" none

delete_example :
    (t : SubscriptionData String) × (delete_output 0 5 logons ≡ ok t)
    × (t.internal_version.uuid ≡ 5)
    × ((j : ℕ)
        → get_elem? t.outputs j
          ≡ (if ltb j 0 then get_elem? logons.outputs j else get_elem? logons.outputs (suc j)))
delete_example = get_elem?-delete_output logons 0 5 (ground arith)

enable_example :
    (t : SubscriptionData String) × (output : SubscriptionOutput) × (set_output_enabled 0 false 5
        logons
      ≡ ok t)
    × (t.internal_version.uuid ≡ 5)
    × (get_elem? logons.outputs 0 ≡ some output)
    × ((j : ℕ)
        → get_elem? t.outputs j ≡ (
            if eqb 0 j
            then some (record output { enabled = false })
            else get_elem? logons.outputs j))
enable_example = get_elem?-set_output_enabled logons 0 5 false (ground arith)

abbrev tls_siem : TcpConfiguration
tls_siem = record {
  host = "siem.local";
  port = 6514;
  tls_enabled = true;
  tls_certificate_authorities = "ca.pem" ∷ [];
  tls_certificate = none;
  tls_key = none;
}

tcp_example :
    (tcp_configuration (λ s. s == "10.0.0.1") "siem.local" 6514 true ("ca.pem" ∷ []) none none
      ≡ ok tls_siem)
    ↔ ((true ≡ true) × (tls_siem ≡ tls_siem))
unfolding string_dec
tcp_example =
    tcp_configuration_iff (λ s. s == "10.0.0.1") "siem.local" 6514 true ("ca.pem" ∷ []) none none
      tls_siem
