-- ===== src/Tests.antt =====
-- Concrete subscriptions and libraries for the tests, and runs of the program on them.
pub mod Reload
pub mod Filters
pub mod Handlers
pub mod Tables
pub mod Sldc
pub mod Files
pub mod Models
pub mod Multipart
use openwec.Prelude.{
  ℕ, String, Bool, true, false, Option, none, some, List, [], ◌∷◌, ◌≡◌, refl, Result, ok, bail,
  string_eq, ◌==◌, if◌then◌else◌,
}
use openwec.Prelude.Dict
use openwec.Subscription.Output.{
  TcpConfiguration, SubscriptionOutput, SubscriptionOutputFormat, raw, json,
  SubscriptionOutputDriver, tcp,
}
use mathlib.Core.List.{Permᴰ}
use openwec.Subscription.Filter.{Glob}
use openwec.Subscription.Filter.Collected.{IsOrder}
use openwec.Subscription.Data
use openwec.Subscription.Data.{
  SubscriptionData, SubscriptionParameters, SubscriptionUuid, subscription_uuid_eq, is_active,
}
use openwec.Server.Drivers
use openwec.Server.Drivers.{Clients}
use openwec.Server.Output.{OutputDriversContext, new_context}
use openwec.Server.Subscriptions.{Subscription, Subscriptions, Memory, reload_subscriptions}

abbrev pub clients : Clients ℕ ℕ
clients = record { create = λ config. ok 1; open_redis = λ addr. ok 2 }

abbrev pub hash : SubscriptionParameters → Result ℕ
hash p = ok p.heartbeat_interval

-- Patterns that match their own text.
abbrev pub crate : Glob String
crate = record {
  new = λ text. if text == "[" then bail "Pattern syntax error" else ok text;
  as_str = λ p. p;
  matches_with = λ p text sensitive. p == text;
}

-- A set that iterates in another order than its items were added in.
abbrev pub swapped : List String → List String
swapped [] = []
swapped (a ∷ []) = a ∷ []
swapped (a ∷ b ∷ texts) = b ∷ a ∷ texts

pub swapped-IsOrder : IsOrder swapped
swapped-IsOrder [] = Permᴰ.nil
swapped-IsOrder (a ∷ []) = Permᴰ.cons refl Permᴰ.nil
swapped-IsOrder (a ∷ b ∷ texts) = Permᴰ.swap refl refl

abbrev pub to_lowercase : String → String
to_lowercase text = if text == "WIN10" then "win10" else text

abbrev pub siem : TcpConfiguration
siem = record {
  host = "siem.local";
  port = 514;
  tls_enabled = false;
  tls_certificate_authorities = [];
  tls_certificate = none;
  tls_key = none;
}

abbrev pub output : SubscriptionOutputFormat → Bool → SubscriptionOutput
output format enabled = record { format = format; driver = tcp siem; enabled = enabled }

abbrev pub id : ℕ → SubscriptionUuid
id n = record { uuid = n }

abbrev pub subscription : ℕ → ℕ → List SubscriptionOutput → SubscriptionData String
subscription n version outputs = record {
  uuid = id n;
  internal_version = record { uuid = version };
  revision = none;
  uri = none;
  enabled = true;
  client_filter = none;
  outputs = outputs;
  parameters = record {
    name = "logons";
    query = "<QueryList/>";
    heartbeat_interval = 3600;
    connection_retry_count = 5;
    connection_retry_interval = 60;
    max_time = 30;
    max_elements = none;
    max_envelope_size = 512000;
    read_existing_events = true;
    content_format = Data.raw;
    ignore_channel_error = true;
    locale = none;
    data_locale = none;
  };
}

-- Two outputs, one of which is enabled.
abbrev pub logons : SubscriptionData String
logons = subscription 1 2 (output raw true ∷ output json false ∷ [])

-- A subscription in memory that the database no longer has.
abbrev pub stale : Subscription String ℕ ℕ
stale = record {
  subscription_data = subscription 9 8 [];
  public_version = record { uuid = 7 };
  outputs = [];
  formats = [];
}

abbrev pub context : OutputDriversContext ℕ
context = new_context (record { kafka_options = []; files_descriptor_close_timeout = 600 })

abbrev pub memory : Memory String ℕ ℕ
memory = record { subscriptions = (id 9, stale) ∷ []; context = context }

-- The memory when the server starts, and after its first reload.
abbrev pub first : Memory String ℕ ℕ
first = record { subscriptions = []; context = context }

abbrev pub loaded : Subscriptions String ℕ ℕ
loaded = (reload_subscriptions clients hash (ok (logons ∷ [])) true first).0.subscriptions

abbrev pub logons_built : Subscription String ℕ ℕ
logons_built = record {
  subscription_data = logons;
  public_version = record { uuid = Data.from_u64_pair 3600 3600 };
  outputs =
      record { format = raw; driver = Drivers.tcp siem; subscription_output_driver = tcp siem }
      ∷ [];
  formats = raw ∷ json ∷ [];
}
