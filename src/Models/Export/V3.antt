-- ===== src/Models/Export/V3.antt =====
-- The third version of the export format: the module `v3` of common/src/models/export.rs.
-- `into_` is the import of a part and `from_` its export.
pub mod Outputs
pub mod Filters
pub mod RoundTrip
use openwec.Prelude.{ℕ, String, Bool, Option, none, some, List, Result, ok, try_map, map}
use openwec.Prelude.Run.{Run, done, ◌>>=◌, lift, run_map, run_map_from}
use openwec.Subscription.Data
use openwec.Subscription.Data.{Uuid, SubscriptionUuid}
use openwec.Subscription.Output
use openwec.Subscription.Filter
use openwec.Subscription.Filter.{Glob}
use Outputs.{SubscriptionOutput, into_output, from_output}
use Filters.{ClientFilter, into_filter, from_filter}

pub data ContentFormat : Type 0 where
  raw rendered_text : ContentFormat

unfoldable pub into_content_format : ContentFormat → Data.ContentFormat
into_content_format raw = Data.raw
into_content_format rendered_text = Data.rendered_text

unfoldable pub from_content_format : Data.ContentFormat → ContentFormat
from_content_format Data.raw = raw
from_content_format Data.rendered_text = rendered_text

pub record SubscriptionData : Type 0 where
  pub uuid : Uuid
  pub revision : Option String
  pub name : String
  pub uri : Option String
  pub query : String
  pub heartbeat_interval : ℕ
  pub connection_retry_count : ℕ
  pub connection_retry_interval : ℕ
  pub max_time : ℕ
  pub max_elements : Option ℕ
  pub max_envelope_size : ℕ
  pub enabled : Bool
  pub read_existing_events : Bool
  pub content_format : ContentFormat
  pub ignore_channel_error : Bool
  pub locale : Option String
  pub data_locale : Option String
  pub filter : Option ClientFilter
  pub outputs : List SubscriptionOutput

-- `SubscriptionData::new` and the setters, up to the filter. `draws` are the identifiers that
-- they draw, one after the other.
unfoldable pub set_all :
    {P : Type 0}
    → (draws : ℕ → Uuid) → SubscriptionData
    → List Output.SubscriptionOutput
    → Data.SubscriptionData P
unfolding Data.new Data.set_uuid Data.set_uri Data.set_heartbeat_interval
    Data.set_connection_retry_count Data.set_connection_retry_interval Data.set_max_time
    Data.set_max_elements Data.set_max_envelope_size Data.set_enabled Data.set_read_existing_events
    Data.set_content_format Data.set_ignore_channel_error Data.set_locale Data.set_data_locale
    Data.set_outputs Data.set_revision into_content_format
set_all draws value outputs =
    let s = Data.new (draws 0) (draws 1) value.name value.query in
    let s = Data.set_uuid (record { uuid = value.uuid }) s in
    let s = Data.set_uri value.uri (draws 2) s in
    let s = Data.set_heartbeat_interval value.heartbeat_interval (draws 3) s in
    let s = Data.set_connection_retry_count value.connection_retry_count (draws 4) s in
    let s = Data.set_connection_retry_interval value.connection_retry_interval (draws 5) s in
    let s = Data.set_max_time value.max_time (draws 6) s in
    let s = Data.set_max_elements value.max_elements (draws 7) s in
    let s = Data.set_max_envelope_size value.max_envelope_size (draws 8) s in
    let s = Data.set_enabled value.enabled (draws 9) s in
    let s = Data.set_read_existing_events value.read_existing_events (draws 10) s in
    let s = Data.set_content_format (into_content_format value.content_format) (draws 11) s in
    let s = Data.set_ignore_channel_error value.ignore_channel_error (draws 12) s in
    let s = Data.set_locale value.locale (draws 13) s in
    let s = Data.set_data_locale value.data_locale (draws 14) s in
    let s = Data.set_outputs outputs (draws 15) s in Data.set_revision value.revision (draws 16) s

pub record Subscriptions : Type 0 where
  pub subscriptions : List SubscriptionData

abbrev pub export_with :
    {P : Type 0} → Option ClientFilter → Data.SubscriptionData P → SubscriptionData
export_with filter value = record {
  uuid = value.uuid.uuid;
  name = value.parameters.name;
  uri = value.uri;
  revision = value.revision;
  query = value.parameters.query;
  heartbeat_interval = value.parameters.heartbeat_interval;
  connection_retry_count = value.parameters.connection_retry_count;
  connection_retry_interval = value.parameters.connection_retry_interval;
  max_time = value.parameters.max_time;
  max_elements = value.parameters.max_elements;
  max_envelope_size = value.parameters.max_envelope_size;
  enabled = value.enabled;
  read_existing_events = value.parameters.read_existing_events;
  content_format = from_content_format value.parameters.content_format;
  ignore_channel_error = value.parameters.ignore_channel_error;
  locale = value.parameters.locale;
  data_locale = value.parameters.data_locale;
  filter = filter;
  outputs = map from_output value.outputs;
}

module _ {P : Type 0} (crate : Glob P) (to_lowercase : String → String) where
  unfoldable pub set_filter :
      (draws : ℕ → Uuid)
      → Option ClientFilter
      → Data.SubscriptionData P
      → Run (Data.SubscriptionData P)
  set_filter draws none s = done s
  set_filter draws (some filter) s = do
    filter ← into_filter crate to_lowercase filter
    done (Data.set_client_filter (some filter) (draws 17) s)

  unfoldable pub into_data :
      (is_ip_addr : String → Bool)
      → (draws : ℕ → Uuid) → SubscriptionData
      → Run (Data.SubscriptionData P)
  into_data is_ip_addr draws value = do
    outputs ← lift (try_map (into_output is_ip_addr) value.outputs)
    set_filter draws value.filter (set_all draws value outputs)

  unfoldable pub from_filter_option :
      (List String → List String) → Option (Filter.ClientFilter P) → Run (Option ClientFilter)
  from_filter_option order none = done none
  from_filter_option order (some filter) = do
    filter ← from_filter crate to_lowercase order filter
    done (some filter)

  unfoldable pub from_data :
      (List String → List String) → Data.SubscriptionData P → Run SubscriptionData
  from_data order value = do
    filter ← from_filter_option order value.client_filter
    done (export_with filter value)

  -- `drawn` are the identifiers that are drawn for each subscription.
  unfoldable pub into_subscriptions :
      (is_ip_addr : String → Bool)
      → (drawn : ℕ → ℕ → Uuid) → Subscriptions
      → Run (List (Data.SubscriptionData P))
  into_subscriptions is_ip_addr drawn value =
      run_map_from 0 (λ n value. into_data is_ip_addr (drawn n) value) value.subscriptions

  unfoldable pub from_subscriptions :
      (List String → List String) → List (Data.SubscriptionData P) → Run Subscriptions
  from_subscriptions order value = do
    subscriptions ← run_map (from_data order) value
    done (record { subscriptions = subscriptions })
