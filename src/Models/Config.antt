-- ===== src/Models/Config.antt =====
-- The configuration files of subscriptions: common/src/models/config.rs. The package toml is a
-- function on texts.
pub mod Outputs
pub mod Filters
pub mod Parts
pub mod Exportable
use openwec.Prelude.{
  ℕ, suc, String, Bool, Option, none, some, List, [], ◌∷◌, Result, is_empty, with_context, anyhow,
  if◌then◌else◌,
}
use openwec.Prelude.Run.{Run, done, failed, ◌>>=◌, lift, run_context}
use openwec.Subscription.Data
use openwec.Subscription.Data.{Uuid, SubscriptionData}
use openwec.Subscription.Filter.{Glob}
use Outputs.{SubscriptionOutput, into_output}
use Filters.{ClientFilter, into_filter}

pub data ContentFormat : Type 0 where
  raw rendered_text : ContentFormat

unfoldable pub into_content_format : ContentFormat → Data.ContentFormat
into_content_format raw = Data.raw
into_content_format rendered_text = Data.rendered_text

pub record SubscriptionOptions : Type 0 where
  pub uri : Option String
  pub heartbeat_interval : Option ℕ
  pub connection_retry_count : Option ℕ
  pub connection_retry_interval : Option ℕ
  pub max_time : Option ℕ
  pub max_elements : Option ℕ
  pub max_envelope_size : Option ℕ
  pub enabled : Option Bool
  pub read_existing_events : Option Bool
  pub content_format : Option ContentFormat
  pub ignore_channel_error : Option Bool
  pub locale : Option String
  pub data_locale : Option String

pub record Subscription : Type 0 where
  pub uuid : Uuid
  pub version : Uuid
  pub name : String
  pub query : String
  pub filter : Option ClientFilter
  pub outputs : List SubscriptionOutput
  pub options : Option SubscriptionOptions

-- `if let Some(a) = option { data.set(a) }`
abbrev pub when {ℓ} :
    {P : Type 0} {A : Type ℓ}
    → Option A
    → (A → SubscriptionData P → SubscriptionData P)
    → SubscriptionData P
    → SubscriptionData P
when none setter s = s
when (some a) setter s = setter a s

-- `draws` has the identifier that each setter draws, by its place in the source.
unfoldable pub feed_subscription_data :
    {P : Type 0}
    → (draws : ℕ → Uuid) → SubscriptionOptions
    → SubscriptionData P
    → SubscriptionData P
feed_subscription_data draws o s =
    let s = Data.set_uri o.uri (draws 0) s in
    let s = when o.heartbeat_interval (λ a. Data.set_heartbeat_interval a (draws 1)) s in
    let s = when o.connection_retry_count (λ a. Data.set_connection_retry_count a (draws 2)) s in
    let s =
      when o.connection_retry_interval (λ a. Data.set_connection_retry_interval a (draws 3)) s in
    let s = when o.max_time (λ a. Data.set_max_time a (draws 4)) s in
    let s = Data.set_max_elements o.max_elements (draws 5) s in
    let s = when o.max_envelope_size (λ a. Data.set_max_envelope_size a (draws 6)) s in
    let s = when o.enabled (λ a. Data.set_enabled a (draws 7)) s in
    let s = when o.read_existing_events (λ a. Data.set_read_existing_events a (draws 8)) s in
    let s =
      when o.content_format (λ a. Data.set_content_format (into_content_format a) (draws 9)) s in
    let s = when o.ignore_channel_error (λ a. Data.set_ignore_channel_error a (draws 10)) s in
    let s = Data.set_locale o.locale (draws 11) s in Data.set_data_locale o.data_locale (draws 12) s

-- The identifiers that are drawn for a subscription: those of the setters of its options, those of
-- its outputs, and the others.
pub record Draws : Type 0 where
  pub options : ℕ → Uuid
  pub outputs : ℕ → Uuid
  pub others : ℕ → Uuid

module _ {P : Type 0} (crate : Glob P) (to_lowercase : String → String) (is_ip_addr : String → Bool)
    (draws : Draws) where
  unfoldable pub set_filter : Option ClientFilter → SubscriptionData P → Run (SubscriptionData P)
  set_filter none s = done s
  set_filter (some filter) s = do
    filter ← into_filter crate to_lowercase filter
    done (Data.set_client_filter (some filter) (draws.others 4) s)

  unfoldable pub add_outputs :
      ℕ → List SubscriptionOutput → SubscriptionData P → Run (SubscriptionData P)
  add_outputs n [] s = done s
  add_outputs n (output ∷ outputs) s = do
    output ←
        lift (with_context "Loading subscription {} output {:?}" (into_output is_ip_addr output))
    add_outputs (suc n) outputs (Data.add_output output (draws.outputs n) s)

  unfoldable pub set_options : Option SubscriptionOptions → SubscriptionData P → SubscriptionData P
  set_options none s = s
  set_options (some options) s = feed_subscription_data draws.options options s

  unfoldable pub named : Subscription → SubscriptionData P
  named subscription =
      let s = Data.new (draws.others 0) (draws.others 1) subscription.name subscription.query in
      let s = Data.set_uuid (record { uuid = subscription.uuid }) s in
      let s = Data.set_name subscription.name (draws.others 2) s in
      Data.set_query subscription.query (draws.others 3) s

  unfoldable pub into_data : Subscription → Run (SubscriptionData P)
  into_data subscription = do
    s ← set_filter subscription.filter (named subscription)
    if is_empty subscription.outputs then failed (anyhow "Missing subscription outputs") else (do
      s ← add_outputs 0 subscription.outputs s
      done (set_options subscription.options s))

  unfoldable pub parse :
      (from_str : String → Result Subscription) → String → Option String → Run (SubscriptionData P)
  parse from_str content revision = do
    subscription ← run_context "Error while parsing TOML" (lift (from_str content))
    s ← into_data subscription
    done (Data.set_revision revision (draws.others 5) s)
