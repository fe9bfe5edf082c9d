-- ===== src/Server/Messages.antt =====
-- Messages and requests, without their XML and HTTP: the types of server/src/soap.rs, the request
-- data of server/src/lib.rs, and the metadata of server/src/event.rs.
use openwec.Prelude.{ℕ, String, Bool, Option, none, some, List, [], Result, some_or, ◌>>=◌}
use openwec.Prelude.Dict.{Dict}

-- `ACTION_*` and the other constants
abbrev pub anonymous : String
anonymous = "http://schemas.xmlsoap.org/ws/2004/08/addressing/role/anonymous"

abbrev pub resource_event_log : String
resource_event_log = "http://schemas.microsoft.com/wbem/wsman/1/windows/EventLog"

abbrev pub action_events : String
action_events = "http://schemas.dmtf.org/wbem/wsman/1/wsman/Events"

abbrev pub action_subscribe : String
action_subscribe = "http://schemas.xmlsoap.org/ws/2004/08/eventing/Subscribe"

abbrev pub action_enumerate : String
action_enumerate = "http://schemas.xmlsoap.org/ws/2004/09/enumeration/Enumerate"

abbrev pub action_enumerate_response : String
action_enumerate_response = "http://schemas.xmlsoap.org/ws/2004/09/enumeration/EnumerateResponse"

abbrev pub action_end : String
action_end = "http://schemas.microsoft.com/wbem/wsman/1/wsman/End"

abbrev pub action_subscription_end : String
action_subscription_end = "http://schemas.xmlsoap.org/ws/2004/08/eventing/SubscriptionEnd"

abbrev pub action_heartbeat : String
action_heartbeat = "http://schemas.dmtf.org/wbem/wsman/1/wsman/Heartbeat"

abbrev pub action_ack : String
action_ack = "http://schemas.dmtf.org/wbem/wsman/1/wsman/Ack"

pub data OptionSetValue : Type 0 where
  string : String → OptionSetValue
  boolean : Bool → OptionSetValue

pub record Header : Type 0 where
  pub to : Option String
  pub resource_uri : Option String
  pub machine_id : Option String
  pub reply_to : Option String
  pub action : Option String
  pub max_envelope_size : Option ℕ
  pub message_id : Option String
  pub session_id : Option String
  pub operation_id : Option String
  pub sequence_id : Option ℕ
  pub relates_to : Option String
  pub option_set : Dict String OptionSetValue
  pub identifier : Option String
  pub bookmarks : Option String
  pub ack_requested : Option Bool
  pub version : Option String
  pub revision : Option String

abbrev pub unwrap_or {ℓ} : {A : Type ℓ} → A → Option A → A
unwrap_or a none = a
unwrap_or a (some b) = b

-- `Header::new`; the first two arguments are the identifiers that `new_uuid` draws for a message
-- and an operation that have none.
unfoldable pub new_header :
    String
    → String
    → String
    → String
    → String
    → ℕ
    → Option String
    → Option String
    → Option String
    → Option ℕ
    → Dict String OptionSetValue
    → Header
new_header drawn_message drawn_operation to uri action max_envelope_size message_id session_id
      operation_id sequence_id options =
    record {
      to = some to;
      resource_uri = some uri;
      machine_id = none;
      reply_to = some anonymous;
      action = some action;
      max_envelope_size = some max_envelope_size;
      message_id = some (unwrap_or drawn_message message_id);
      session_id = session_id;
      operation_id = some (unwrap_or drawn_operation operation_id);
      sequence_id = sequence_id;
      relates_to = none;
      option_set = options;
      ack_requested = none;
      bookmarks = none;
      identifier = none;
      version = none;
      revision = none;
    }

pub record SubscriptionBody : Type 0 where
  pub heartbeat_interval : ℕ
  pub identifier : String
  pub bookmark : Option String
  pub query : String
  pub address : String
  pub connection_retry_interval : ℕ
  pub connection_retry_count : ℕ
  pub max_time : ℕ
  pub max_elements : Option ℕ
  pub max_envelope_size : ℕ
  pub thumbprint : Option String
  pub public_version : String
  pub revision : Option String
  pub locale : Option String
  pub data_locale : Option String

-- `soap::Subscription`
pub record SoapSubscription : Type 0 where
  pub version : String
  pub header : Header
  pub body : SubscriptionBody

pub data Body : Type 0 where
  enumerate_response : List SoapSubscription → Body
  events : List String → Body

pub record Message : Type 0 where
  pub header : Header
  pub body : Option Body

unfoldable pub action : Message → Result String
action message = some_or message.header.action "Missing Action in message"

-- `Message::response_from`, with the identifier that `new_uuid` draws.
unfoldable pub response_from : String → Message → String → Option Body → Result Message
response_from drawn message response_action body = do
  relates_to ← some_or message.header.message_id "Missing Message ID in original message"
  Result.ok (record {
    header = record {
      to = some (unwrap_or anonymous message.header.reply_to);
      resource_uri = none;
      machine_id = none;
      reply_to = none;
      action = some response_action;
      max_envelope_size = none;
      message_id = some drawn;
      session_id = none;
      operation_id = none;
      sequence_id = some 1;
      relates_to = some relates_to;
      option_set = [];
      ack_requested = none;
      bookmarks = none;
      identifier = none;
      version = none;
      revision = none;
    };
    body = body;
  })

-- An address: the text of the IP, and the port.
pub record SocketAddr : Type 0 where
  pub ip : String
  pub port : ℕ

pub data RequestCategory : Type 0 where
  enumerate : String → RequestCategory
  subscription : RequestCategory

pub record RequestData : Type 0 where
  pub principal : String
  pub remote_addr : SocketAddr
  pub category : RequestCategory

-- The state of a Kerberos session is left out.
pub data AuthenticationContext : Type 0 where
  kerberos : AuthenticationContext
  tls : String → String → AuthenticationContext

pub record EventMetadata : Type 0 where
  pub addr : SocketAddr
  pub principal : String
  pub node_name : Option String
  pub time_received : ℕ
  pub subscription_uuid : String
  pub subscription_version : String
  pub subscription_name : String
  pub subscription_uri : Option String
  pub subscription_client_revision : Option String
  pub subscription_server_revision : Option String

-- An event, raw and perhaps parsed.
pub record EventData (Event : Type 0) : Type 0 where
  pub raw : String
  pub event : Option Event
