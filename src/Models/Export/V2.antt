-- ===== src/Models/Export/V2.antt =====
-- The second version of the export format, which is only imported: the module `v2` of
-- common/src/models/export.rs.
pub mod Outputs
use openwec.Prelude.{ℕ, String, Bool, Option, none, some, List, Result, ok, try_map, ◌>>=◌}
use openwec.Prelude.Run.{Run, lift, run_map_from}
use openwec.Subscription.Data
use openwec.Subscription.Data.{Uuid, SubscriptionUuid}
use openwec.Subscription.Output
use openwec.Subscription.Filter
use openwec.Subscription.Filter.Operation
use openwec.Subscription.Filter.Operation.{ClientFilterOperation}
use Outputs.{SubscriptionOutput, into_output}

pub data PrincsFilterOperation : Type 0 where
  only except : PrincsFilterOperation

unfoldable pub into_operation : PrincsFilterOperation → ClientFilterOperation
into_operation except = Operation.except
into_operation only = Operation.only

pub record PrincsFilter : Type 0 where
  pub operation : Option PrincsFilterOperation
  pub princs : List String

-- A filter without an operation is none.
unfoldable pub into_client_filter : {P : Type 0} → PrincsFilter → Option (Filter.ClientFilter P)
into_client_filter f = elim f.operation [
  | none ↦ none
  | some op ↦ some (Filter.new_legacy (into_operation op) f.princs)
]

pub data ContentFormat : Type 0 where
  raw rendered_text : ContentFormat

unfoldable pub into_content_format : ContentFormat → Data.ContentFormat
into_content_format raw = Data.raw
into_content_format rendered_text = Data.rendered_text

pub record SubscriptionData : Type 0 where
  pub uuid : Uuid
  pub revision : Option String
  pub name : String
  pub uri : Option String
  pub query : String
  pub heartbeat_interval : ℕ
  pub connection_retry_count : ℕ
  pub connection_retry_interval : ℕ
  pub max_time : ℕ
  pub max_elements : Option ℕ
  pub max_envelope_size : ℕ
  pub enabled : Bool
  pub read_existing_events : Bool
  pub content_format : ContentFormat
  pub ignore_channel_error : Bool
  pub locale : Option String
  pub data_locale : Option String
  pub filter : PrincsFilter
  pub outputs : List SubscriptionOutput

-- `SubscriptionData::new` and the setters. `draws` are the identifiers that
-- they draw, one after the other.
unfoldable pub set_all :
    {P : Type 0}
    → (draws : ℕ → Uuid) → SubscriptionData
    → List Output.SubscriptionOutput
    → Data.SubscriptionData P
set_all draws value outputs =
    let s = Data.new (draws 0) (draws 1) value.name value.query in
    let s = Data.set_uuid (record { uuid = value.uuid }) s in
    let s = Data.set_uri value.uri (draws 2) s in
    let s = Data.set_heartbeat_interval value.heartbeat_interval (draws 3) s in
    let s = Data.set_connection_retry_count value.connection_retry_count (draws 4) s in
    let s = Data.set_connection_retry_interval value.connection_retry_interval (draws 5) s in
    let s = Data.set_max_time value.max_time (draws 6) s in
    let s = Data.set_max_elements value.max_elements (draws 7) s in
    let s = Data.set_max_envelope_size value.max_envelope_size (draws 8) s in
    let s = Data.set_enabled value.enabled (draws 9) s in
    let s = Data.set_read_existing_events value.read_existing_events (draws 10) s in
    let s = Data.set_content_format (into_content_format value.content_format) (draws 11) s in
    let s = Data.set_ignore_channel_error value.ignore_channel_error (draws 12) s in
    let s = Data.set_client_filter (into_client_filter value.filter) (draws 13) s in
    let s = Data.set_locale value.locale (draws 14) s in
    let s = Data.set_data_locale value.data_locale (draws 15) s in
    let s = Data.set_outputs outputs (draws 16) s in Data.set_revision value.revision (draws 17) s

unfoldable pub into_data :
    {P : Type 0}
    → (is_ip_addr : String → Bool) → (draws : ℕ → Uuid) → SubscriptionData
    → Result (Data.SubscriptionData P)
into_data is_ip_addr draws value = do
  outputs ← try_map (into_output is_ip_addr) value.outputs
  ok (set_all draws value outputs)

pub record Subscriptions : Type 0 where
  pub subscriptions : List SubscriptionData

-- `drawn` are the identifiers that are drawn for each subscription.
unfoldable pub into_subscriptions :
    {P : Type 0}
    → (is_ip_addr : String → Bool) → (drawn : ℕ → ℕ → Uuid) → Subscriptions
    → Run (List (Data.SubscriptionData P))
into_subscriptions is_ip_addr drawn value =
    run_map_from 0 (λ n value. lift (into_data is_ip_addr (drawn n) value)) value.subscriptions
