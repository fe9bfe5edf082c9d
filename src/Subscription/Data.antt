-- ===== src/Subscription/Data.antt =====
-- Subscriptions: `SubscriptionParameters` and `SubscriptionData` of common/src/subscription.rs.
-- A setter takes the identifier that `Uuid::new_v4` draws for the new internal version.
pub mod Activity
pub mod Outputs
use openwec.Prelude.{
  ℕ, ◌+◌, ◌*◌, ◌^◌, String, Bool, true, false, ◌&&◌, Option, none, some, List, [], ◌∷◌, ◌++◌,
  Result, ok, bail, some_or, ◌>>=◌, Eq, any, leb, length, get_elem?, set, remove_at, if◌then◌else◌,
}
use openwec.Subscription.Output.{SubscriptionOutput}
use openwec.Subscription.Filter.{Glob, ClientFilter, eval}
use native.Mathlib.Decide.{ℕ_discrete}

-- The 128 bits of an identifier, as a number.
abbrev pub Uuid : Type 0
Uuid = ℕ

pub record SubscriptionUuid : Type 0 where
  pub uuid : Uuid

pub record InternalVersion : Type 0 where
  pub uuid : Uuid

pub record PublicVersion : Type 0 where
  pub uuid : Uuid

unfoldable pub SubscriptionUuid-discrete : Discrete SubscriptionUuid
SubscriptionUuid-discrete = hlevel ℕ_discrete

unfoldable pub InternalVersion-discrete : Discrete InternalVersion
InternalVersion-discrete = hlevel ℕ_discrete

instance abbrev pub subscription_uuid_eq : Eq SubscriptionUuid
subscription_uuid_eq = record { dec = SubscriptionUuid-discrete }

instance abbrev pub internal_version_eq : Eq InternalVersion
internal_version_eq = record { dec = InternalVersion-discrete }

pub data ContentFormat : Type 0 where
  raw rendered_text : ContentFormat

-- The parameters that clients see. The integers are a `u16` for `connection_retry_count` and a
-- `u32` for the others.
pub record SubscriptionParameters : Type 0 where
  pub name : String
  pub query : String
  pub heartbeat_interval : ℕ
  pub connection_retry_count : ℕ
  pub connection_retry_interval : ℕ
  pub max_time : ℕ
  pub max_elements : Option ℕ
  pub max_envelope_size : ℕ
  pub read_existing_events : Bool
  pub content_format : ContentFormat
  pub ignore_channel_error : Bool
  pub locale : Option String
  pub data_locale : Option String

pub record SubscriptionData (P : Type 0) : Type 0 where
  pub uuid : SubscriptionUuid
  pub internal_version : InternalVersion
  pub revision : Option String
  pub uri : Option String
  pub enabled : Bool
  pub client_filter : Option (ClientFilter P)
  pub parameters : SubscriptionParameters
  pub outputs : List SubscriptionOutput

-- `SubscriptionData::new`, with the two identifiers that it draws.
unfoldable pub new : {P : Type 0} → Uuid → Uuid → String → String → SubscriptionData P
new id version name query = record {
  uuid = record { uuid = id };
  internal_version = record { uuid = version };
  revision = none;
  uri = none;
  enabled = true;
  client_filter = none;
  outputs = [];
  parameters = record {
    name = name;
    query = query;
    heartbeat_interval = 3600;
    connection_retry_count = 5;
    connection_retry_interval = 60;
    max_time = 30;
    max_elements = none;
    max_envelope_size = 512000;
    read_existing_events = false;
    content_format = raw;
    ignore_channel_error = true;
    locale = none;
    data_locale = none;
  };
}

-- `Uuid::from_u64_pair`
abbrev pub from_u64_pair : ℕ → ℕ → Uuid
from_u64_pair high low = high * 2 ^ 64 + low

-- `public_version`, over the hash of the parameters (SHA-256 cut to 64 bits).
unfoldable pub public_version :
    {P : Type 0} → (SubscriptionParameters → Result ℕ) → SubscriptionData P → Result PublicVersion
public_version hash s = do
  result ← hash s.parameters
  ok (record { uuid = from_u64_pair result result })

module _ {P : Type 0} where
  unfoldable pub update_uuid : Uuid → SubscriptionData P → SubscriptionData P
  update_uuid fresh s = record s { uuid = record { uuid = fresh } }

  unfoldable pub set_uuid : SubscriptionUuid → SubscriptionData P → SubscriptionData P
  set_uuid uuid s = record s { uuid = uuid }

  unfoldable pub set_internal_version : InternalVersion → SubscriptionData P → SubscriptionData P
  set_internal_version version s = record s { internal_version = version }

  unfoldable pub update_internal_version : Uuid → SubscriptionData P → SubscriptionData P
  update_internal_version fresh s = record s { internal_version = record { uuid = fresh } }

  unfoldable pub set_name : String → Uuid → SubscriptionData P → SubscriptionData P
  unfolding update_internal_version
  set_name name fresh s =
      update_internal_version fresh (record s { parameters = record s.parameters { name = name } })

  unfoldable pub set_query : String → Uuid → SubscriptionData P → SubscriptionData P
  unfolding update_internal_version
  set_query query fresh s =
      update_internal_version fresh
        (record s { parameters = record s.parameters { query = query } })

  unfoldable pub set_heartbeat_interval : ℕ → Uuid → SubscriptionData P → SubscriptionData P
  unfolding update_internal_version
  set_heartbeat_interval heartbeat_interval fresh s =
      update_internal_version fresh
        (record s { parameters = record s.parameters { heartbeat_interval = heartbeat_interval } })

  unfoldable pub set_connection_retry_count : ℕ → Uuid → SubscriptionData P → SubscriptionData P
  unfolding update_internal_version
  set_connection_retry_count connection_retry_count fresh s =
      update_internal_version fresh (record s {
        parameters = record s.parameters { connection_retry_count = connection_retry_count };
      })

  unfoldable pub set_connection_retry_interval : ℕ → Uuid → SubscriptionData P → SubscriptionData P
  unfolding update_internal_version
  set_connection_retry_interval connection_retry_interval fresh s =
      update_internal_version fresh (record s {
        parameters = record s.parameters { connection_retry_interval = connection_retry_interval };
      })

  unfoldable pub set_max_time : ℕ → Uuid → SubscriptionData P → SubscriptionData P
  unfolding update_internal_version
  set_max_time max_time fresh s =
      update_internal_version fresh
        (record s { parameters = record s.parameters { max_time = max_time } })

  unfoldable pub set_max_elements : Option ℕ → Uuid → SubscriptionData P → SubscriptionData P
  unfolding update_internal_version
  set_max_elements max_elements fresh s =
      update_internal_version fresh
        (record s { parameters = record s.parameters { max_elements = max_elements } })

  unfoldable pub set_max_envelope_size : ℕ → Uuid → SubscriptionData P → SubscriptionData P
  unfolding update_internal_version
  set_max_envelope_size max_envelope_size fresh s =
      update_internal_version fresh
        (record s { parameters = record s.parameters { max_envelope_size = max_envelope_size } })

  unfoldable pub set_enabled : Bool → Uuid → SubscriptionData P → SubscriptionData P
  unfolding update_internal_version
  set_enabled enabled fresh s = update_internal_version fresh (record s { enabled = enabled })

  unfoldable pub set_read_existing_events : Bool → Uuid → SubscriptionData P → SubscriptionData P
  unfolding update_internal_version
  set_read_existing_events read_existing_events fresh s = update_internal_version fresh (record s {
    parameters = record s.parameters { read_existing_events = read_existing_events };
  })

  unfoldable pub set_content_format : ContentFormat → Uuid → SubscriptionData P → SubscriptionData P
  unfolding update_internal_version
  set_content_format content_format fresh s =
      update_internal_version fresh
        (record s { parameters = record s.parameters { content_format = content_format } })

  unfoldable pub set_ignore_channel_error : Bool → Uuid → SubscriptionData P → SubscriptionData P
  unfolding update_internal_version
  set_ignore_channel_error ignore_channel_error fresh s = update_internal_version fresh (record s {
    parameters = record s.parameters { ignore_channel_error = ignore_channel_error };
  })

  unfoldable pub set_outputs :
      List SubscriptionOutput → Uuid → SubscriptionData P → SubscriptionData P
  unfolding update_internal_version
  set_outputs outputs fresh s = update_internal_version fresh (record s { outputs = outputs })

  unfoldable pub set_uri : Option String → Uuid → SubscriptionData P → SubscriptionData P
  unfolding update_internal_version
  set_uri uri fresh s = update_internal_version fresh (record s { uri = uri })

  unfoldable pub set_client_filter :
      Option (ClientFilter P) → Uuid → SubscriptionData P → SubscriptionData P
  unfolding update_internal_version
  set_client_filter client_filter fresh s =
      update_internal_version fresh (record s { client_filter = client_filter })

  unfoldable pub set_revision : Option String → Uuid → SubscriptionData P → SubscriptionData P
  unfolding update_internal_version
  set_revision revision fresh s = update_internal_version fresh (record s { revision = revision })

  unfoldable pub set_locale : Option String → Uuid → SubscriptionData P → SubscriptionData P
  unfolding update_internal_version
  set_locale locale fresh s =
      update_internal_version fresh
        (record s { parameters = record s.parameters { locale = locale } })

  unfoldable pub set_data_locale : Option String → Uuid → SubscriptionData P → SubscriptionData P
  unfolding update_internal_version
  set_data_locale data_locale fresh s =
      update_internal_version fresh
        (record s { parameters = record s.parameters { data_locale = data_locale } })

  unfoldable pub add_output : SubscriptionOutput → Uuid → SubscriptionData P → SubscriptionData P
  unfolding update_internal_version
  add_output output fresh s =
      update_internal_version fresh (record s { outputs = s.outputs ++ output ∷ [] })

  unfoldable pub delete_output : ℕ → Uuid → SubscriptionData P → Result (SubscriptionData P)
  unfolding update_internal_version
  delete_output index fresh s =
      if leb (length s.outputs) index
      then bail "Index out of range"
      else ok (update_internal_version fresh (record s { outputs = remove_at s.outputs index }))

  unfoldable pub set_output_enabled :
      ℕ → Bool → Uuid → SubscriptionData P → Result (SubscriptionData P)
  unfolding update_internal_version
  set_output_enabled index value fresh s =
      if leb (length s.outputs) index then bail "Index out of range" else do
        output ← some_or (get_elem? s.outputs index) "Index out of range"
        ok (
            update_internal_version fresh
              (record s { outputs = set s.outputs index (record output { enabled = value }) }))

  unfoldable pub is_active : SubscriptionData P → Bool
  is_active s = s.enabled && any (λ output. output.enabled) s.outputs

module _ {P : Type 0} (crate : Glob P) (to_lowercase : String → String) where
  abbrev pub filter_allows : Option (ClientFilter P) → String → Option String → Bool
  filter_allows none client machine = true
  filter_allows (some f) client machine = eval crate to_lowercase f client machine

  unfoldable pub is_active_for : SubscriptionData P → String → Option String → Bool
  unfolding is_active
  is_active_for s client machine =
      if is_active s then filter_allows s.client_filter client machine else false
