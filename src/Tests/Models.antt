-- ===== src/Tests/Models.antt =====
-- Concrete configuration files and exports of subscriptions.
use openwec.Prelude.{
  ℕ, String, Bool, true, false, Option, none, some, List, [], ◌∷◌, Result, err, ok, bail, anyhow,
  ◌==◌, string_eq, ◌≡◌, refl, ap, ◌∙◌, Bool-cases, inl, inr, if◌then◌else◌, sym, ok-injective,
}
use openwec.Prelude.Run.{done, panics, ◌>>=◌, done_injective}
use openwec.Prelude.HashSet.{contains}
use openwec.Subscription.Output
use openwec.Subscription.Data
use openwec.Subscription.Data.{SubscriptionData, Uuid, filter_allows}
use openwec.Subscription.Filter
use openwec.Subscription.Filter.{Glob, exact}
use openwec.Subscription.Filter.Flags
use openwec.Subscription.Filter.Operation
use openwec.Subscription.Filter.Kind
use openwec.Models.FilesPath.{transform_files_config_to_path}
use openwec.Models.Config
use openwec.Models.Config.Outputs
use openwec.Models.Config.Filters
use openwec.Models.Config.Parts.{TextLaws}
use openwec.Models.Config.Exportable.{parse-IsExportable}
use openwec.Models.Export.{ImportExport, SerdeJson, serialize, parse}
use openwec.Models.Export.RoundTrip.{AllSame, AllReimported, parse-serialize}
use openwec.Tests.{swapped, swapped-IsOrder}
use mathlib.Core.List.{Permᴰ}
use openwec.Models.Export.V1
use openwec.Models.Export.V2
use openwec.Models.Export.V3
use openwec.Models.Export.V3.Filters.{into_flags}
use openwec.Models.Export.V3.RoundTrip.{IsExportable}
use openwec.Models.Export.Legacy.{filter_allows-into_client_filter}

-- Patterns are their texts.
abbrev patterns : Glob String
patterns = record {
  new = λ text. ok text;
  as_str = λ p. p;
  matches_with = λ p text sensitive. p == text;
}

abbrev lower : String → String
lower text = if text == "WIN10" then "win10" else text

abbrev is_ip_addr : String → Bool
is_ip_addr host = host == "127.0.0.1"

abbrev draws : Config.Draws
draws = record { options = λ n. 1; outputs = λ n. 2; others = λ n. 3 }

abbrev configured : Config.Subscription
configured = record {
  uuid = 7;
  version = 0;
  name = "logons";
  query = "<QueryList/>";
  filter = some (record {
    operation = Config.Filters.only;
    kind = Config.Filters.machine_id;
    flags = record { bits = 1 };
    targets = "WIN10" ∷ "win11" ∷ [];
  });
  outputs =
      record {
        format = Config.Outputs.json;
        driver = Config.Outputs.tcp (record {
          host = "siem.local";
          port = 6514;
          tls_enabled = some true;
          tls_certificate_authorities = some (Config.Outputs.string "/ca.pem");
          tls_certificate = none;
          tls_key = none;
        });
        enabled = none;
      }
      ∷ [];
  options = some (record {
    uri = some "/logons";
    heartbeat_interval = some 60;
    connection_retry_count = none;
    connection_retry_interval = none;
    max_time = none;
    max_elements = some 10;
    max_envelope_size = none;
    enabled = none;
    read_existing_events = some true;
    content_format = none;
    ignore_channel_error = none;
    locale = none;
    data_locale = none;
  });
}

abbrev logons : SubscriptionData String
logons = record {
  uuid = record { uuid = 7 };
  internal_version = record { uuid = 3 };
  revision = some "1";
  uri = some "/logons";
  enabled = true;
  client_filter = some (record {
    operation = Operation.only;
    kind = Kind.machine_id;
    flags = record { case_insensitive = true; glob_pattern = false };
    targets = exact ("win10" ∷ "win11" ∷ []);
  });
  outputs =
      record {
        format = Output.json;
        driver = Output.tcp (record {
          host = "siem.local";
          port = 6514;
          tls_enabled = true;
          tls_certificate_authorities = "/ca.pem" ∷ [];
          tls_certificate = none;
          tls_key = none;
        });
        enabled = true;
      }
      ∷ [];
  parameters = record {
    name = "logons";
    query = "<QueryList/>";
    heartbeat_interval = 60;
    connection_retry_count = 5;
    connection_retry_interval = 60;
    max_time = 30;
    max_elements = some 10;
    max_envelope_size = 512000;
    read_existing_events = true;
    content_format = Data.raw;
    ignore_channel_error = true;
    locale = none;
    data_locale = none;
  };
}

abbrev toml : String → Result Config.Subscription
toml text = ok configured

parse_configured :
    Config.parse patterns lower is_ip_addr draws toml "logons.toml" (some "1") ≡ done logons
unfolding Config.parse Config.into_data Config.set_filter Filters.into_filter Filters.into_flags
    Flags.from_bits Filter.try_new Filter.collect_targets Config.add_outputs Outputs.into_output
    Outputs.into_driver Outputs.into_tcp Output.tcp_configuration openwec.Prelude.string_dec
    Data.set_revision Config.set_options Config.feed_subscription_data Filters.into_kind
    Filters.into_operation Outputs.into_format Config.named contains openwec.Prelude.HashSet.extend
    openwec.Prelude.HashSet.insert Data.add_output Data.new Data.set_client_filter
    Data.set_data_locale Data.set_heartbeat_interval Data.set_locale Data.set_max_elements
    Data.set_name Data.set_query Data.set_read_existing_events Data.set_uri Data.set_uuid
    Data.update_internal_version
parse_configured = refl

lower_twice : (text : String) → lower (lower text) ≡ lower text
unfolding openwec.Prelude.string_dec
lower_twice text = elim (Bool-cases (text == "WIN10")) [
  | inl same ↦ rw same refl
  | inr other ↦ rw (other, other) refl
]

abbrev text_laws : TextLaws patterns lower
text_laws = record { as_str-new = λ text p h. cc; lowercase_idempotent = lower_twice }

distinct_targets :
    (c : Config.Subscription)
    → toml "logons.toml" ≡ ok c
    → Config.Exportable.HasDistinct patterns lower text_laws is_ip_addr draws c.filter
unfolding contains openwec.Prelude.string_dec
distinct_targets c h = rw (sym (ok-injective configured c h)) (refl, (refl, tt))

IsExportable_example : IsExportable patterns lower is_ip_addr logons
IsExportable_example =
    parse-IsExportable patterns lower text_laws is_ip_addr draws toml "logons.toml" (some "1")
      logons distinct_targets parse_configured

abbrev file_with : List String → V3.Subscriptions
file_with targets = record {
  subscriptions =
      V3.export_with
        (some (record {
          operation = V3.Filters.only;
          kind = V3.Filters.machine_id;
          flags = record { bits = 1 };
          targets = targets;
        }))
        logons
      ∷ [];
}

-- The export, and the same file with its set of targets in another order.
abbrev stored : V3.Subscriptions
stored = file_with ("win11" ∷ "win10" ∷ [])

abbrev reread : V3.Subscriptions
reread = file_with ("win10" ∷ "win11" ∷ [])

logons_stored : V3.from_subscriptions patterns lower swapped (logons ∷ []) ≡ done stored
unfolding V3.from_subscriptions V3.from_data V3.from_filter_option
    openwec.Models.Export.V3.Filters.from_filter openwec.Models.Export.V3.Filters.from_flags
    openwec.Models.Export.V3.Filters.from_bits Flags.bits
    openwec.Models.Export.V3.Filters.from_operation openwec.Models.Export.V3.Filters.from_kind
    Filter.target_texts openwec.Prelude.HashSet.extend openwec.Prelude.HashSet.insert contains
    openwec.Prelude.string_dec
logons_stored = refl

-- A JSON package that knows one file.
abbrev serde_json : SerdeJson
serde_json = record { to_string = λ e. ok "{..}"; from_str = λ text. ok (ImportExport.v3 reread) }

reads_back :
    (e : V3.Subscriptions)
    → V3.from_subscriptions patterns lower swapped (logons ∷ []) ≡ done e
    → (text : String) × (read : V3.Subscriptions) × (serde_json.to_string (ImportExport.v3 e)
        ≡ ok text)
      × (serde_json.from_str text ≡ ok (ImportExport.v3 read))
      × AllSame e.subscriptions read.subscriptions
reads_back e h = (
  "{..}",
  reread,
  refl,
  refl,
  rw (← done_injective stored e (sym logons_stored ∙ h))
      ((_, refl, (refl, refl, refl, Permᴰ.swap refl refl)), tt),
)

abbrev drawn : ℕ → ℕ → Uuid
drawn n m = m

export_example :
    (after : List (SubscriptionData String)) × ((serialize patterns lower serde_json swapped
          (logons ∷ [])
        >>= λ text. parse patterns lower serde_json is_ip_addr drawn text)
      ≡ done after)
    × AllReimported patterns lower is_ip_addr drawn 0 (logons ∷ []) after
unfolding Output.tcp_configuration openwec.Prelude.string_dec contains
export_example =
    parse-serialize patterns lower is_ip_addr swapped serde_json drawn (logons ∷ []) swapped-IsOrder
      reads_back (((refl, tt), (refl, (refl, (refl, tt)), (refl, (refl, tt)))), tt)

paths_of_tests :
    (transform_files_config_to_path (some "/base/openwec") (some 2) none none
      ≡ ok "/base/openwec/{ip:2}/{ip:3}/{ip}/{principal}/messages")
    × (transform_files_config_to_path (some "/base/openwec") (some 4) none none
        ≡ ok "/base/openwec/{ip}/{principal}/messages")
    × (transform_files_config_to_path (some "/base/openwec") none (some true) (some "test")
        ≡ ok "/base/openwec/{ip}/{principal}/{node}/test")
unfolding transform_files_config_to_path openwec.Prelude.string_dec
paths_of_tests = (refl, refl, refl)

-- Bits of no flag, as a file may have them.
unknown_flags : into_flags (record { bits = 4 }) ≡ panics
unfolding into_flags Flags.from_bits
unknown_flags = refl

legacy_example :
    (filter_allows patterns lower
        (V1.into_client_filter (record { operation = some V1.except; princs = "a" ∷ [] }))
        "b"
        none
      ≡ true)
    × (filter_allows patterns lower
          (V2.into_client_filter (record { operation = none; princs = "a" ∷ [] }))
          "b"
          none
        ≡ true)
unfolding contains openwec.Prelude.string_dec
legacy_example =
    filter_allows-into_client_filter patterns lower
      (record { operation = some V1.except; princs = "a" ∷ [] })
      (record { operation = none; princs = "a" ∷ [] }) "b" none
