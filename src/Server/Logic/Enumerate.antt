-- ===== src/Server/Logic/Enumerate.antt =====
-- `handle_enumerate` of server/src/logic.rs.
pub mod Expected
pub mod Listing
use openwec.Prelude.{
  ℕ, String, Bool, true, false, not, ◌&&◌, Option, none, some, List, [], ◌∷◌, Result, ok, bail,
  with_context, ◌>>=◌, string_eq, ◌==◌, if◌then◌else◌,
}
use openwec.Prelude.Dict
use openwec.Prelude.Dict.{Dict, values}
use openwec.Database.Bookmarks.{Bookmarks, BookmarkKey, get_bookmark}
use openwec.Subscription.Data.{
  SubscriptionData, SubscriptionUuid, ContentFormat, raw, rendered_text, is_active, is_active_for,
}
use openwec.Server.Subscriptions.{Subscription, Subscriptions}
use openwec.Server.Messages.{
  Message, RequestData, enumerate, subscription, AuthenticationContext, kerberos, tls,
  SubscriptionBody, SoapSubscription, OptionSetValue, string, boolean, new_header, anonymous,
  resource_event_log, action_subscribe, action_enumerate_response, enumerate_response,
}
use openwec.Server.Logic.{Libraries, Surroundings, Response, reply, failure, bad_request}
use Prim.Native.String

-- The part of the settings that the handler reads; the port is in decimal.
pub record Collector : Type 0 where
  pub hostname : Option String
  pub advertized_port : String

-- `Display for ContentFormat`
abbrev pub content_format_string : ContentFormat → String
content_format_string raw = "Raw"
content_format_string rendered_text = "RenderedText"

abbrev concat : List String → String
concat [] = ""
concat (s ∷ ss) = String.◌++◌ s (concat ss)

abbrev scheme : AuthenticationContext → String
scheme kerberos = "http://"
scheme (tls _ _) = "https://"

abbrev thumbprint_of : AuthenticationContext → Option String
thumbprint_of kerberos = none
thumbprint_of (tls _ thumbprint) = some thumbprint

-- `match subscription_data.uri()`
abbrev pub uri_matches : Option String → String → Bool
uri_matches none uri = true
uri_matches (some subscription_uri) uri = uri == subscription_uri

abbrev earliest : Option String
earliest = some "http://schemas.dmtf.org/wbem/wsman/1/wsman/bookmark/earliest"

abbrev pub or_earliest : Bool → Option String → Option String
or_earliest read_existing (some bookmark) = some bookmark
or_earliest read_existing none = if read_existing then earliest else none

module _ {P : Type 0} where
  unfoldable pub options : SubscriptionData P → Dict String OptionSetValue
  unfolding Dict.insert
  options s =
      let given = Dict.insert "CDATA" (boolean true) (
        Dict.insert "IgnoreChannelError" (boolean s.parameters.ignore_channel_error) (
          Dict.insert "ContentFormat" (string (content_format_string s.parameters.content_format)) (
            Dict.insert "Compression" (string "SLDC")
              (Dict.insert "SubscriptionName" (string s.parameters.name) [])))) in
      if s.parameters.read_existing_events
      then Dict.insert "ReadExistingEvents" (boolean true) given
      else given

module _ {P : Type 0} (libraries : Libraries P) where
  -- `if let Some(hostname) = collector.hostname()`, or else the host of the header `To`.
  abbrev pub collector_hostname : Collector → Message → Option String
  collector_hostname collector message = elim collector.hostname [
    | some hostname ↦ some hostname
    | none ↦ elim message.header.to [ some to ↦ libraries.host_str to | none ↦ none ]
  ]

module _ {P K R : Type 0} (libraries : Libraries P) where
  unfoldable pub create_subscription_body :
      Subscription P K R
      → Option String
      → Collector
      → String
      → AuthenticationContext
      → SubscriptionBody
  create_subscription_body s bookmark collector collector_hostname auth_ctx =
      let identifier = libraries.uuid_string s.subscription_data.uuid.uuid in
      let p = s.subscription_data.parameters in
      record {
        heartbeat_interval = p.heartbeat_interval;
        identifier = identifier;
        public_version = libraries.uuid_string s.public_version.uuid;
        revision = s.subscription_data.revision;
        bookmark = bookmark;
        query = p.query;
        address = concat (
            scheme auth_ctx
            ∷ collector_hostname
            ∷ ":"
            ∷ collector.advertized_port
            ∷ "/wsman/subscriptions/"
            ∷ identifier
            ∷ []);
        connection_retry_count = p.connection_retry_count;
        connection_retry_interval = p.connection_retry_interval;
        max_time = p.max_time;
        max_elements = p.max_elements;
        max_envelope_size = p.max_envelope_size;
        thumbprint = thumbprint_of auth_ctx;
        locale = p.locale;
        data_locale = p.data_locale;
      }

  -- An entry of the response; the pair is drawn by `new_uuid` for its header.
  unfoldable pub soap_subscription :
      String × String
      → Subscription P K R
      → Option String
      → Collector
      → String
      → AuthenticationContext
      → SoapSubscription
  unfolding create_subscription_body new_header options
  soap_subscription (message_id, operation_id) s bookmark collector collector_hostname auth_ctx =
      record {
        version = libraries.uuid_string s.public_version.uuid;
        header =
            new_header message_id operation_id anonymous resource_event_log action_subscribe
              s.subscription_data.parameters.max_envelope_size none none none (some 1)
              (options s.subscription_data);
        body = create_subscription_body s bookmark collector collector_hostname auth_ctx;
      }

  unfoldable pub read_current_bookmark :
      Surroundings K R → Bookmarks → String → SubscriptionData P → Result (Option String)
  unfolding get_bookmark
  read_current_bookmark w table principal s = do
    let machine_key : BookmarkKey = record {
      machine = principal;
      subscription = libraries.uuid_string s.uuid.uuid;
    }
    _ ←
        with_context "Failed to retrieve current bookmark from database"
          (w.read_bookmark machine_key)
    ok (
        or_earliest s.parameters.read_existing_events
          (get_bookmark principal machine_key.subscription table))

-- `drawn` gives, for each subscription, what `new_uuid` draws.
module _ {P K R : Type 0} (libraries : Libraries P) (w : Surroundings K R) (table : Bookmarks)
    (drawn : SubscriptionUuid → String × String) (collector : Collector)
    (hostname uri principal : String) (machine_id : Option String)
    (auth_ctx : AuthenticationContext) where
  unfoldable pub enumerate_all : List (Subscription P K R) → Result (List SoapSubscription)
  unfolding is_active is_active_for read_current_bookmark soap_subscription
  enumerate_all [] = ok []
  enumerate_all (s ∷ ss) =
      let data' = s.subscription_data in
      let rest = enumerate_all ss in
      if not (is_active data')
      then rest
      else if not (uri_matches data'.uri uri)
      then rest
      else if not (is_active_for libraries.glob libraries.to_lowercase data' principal machine_id)
      then rest
      else do
        bookmark ← read_current_bookmark libraries w table principal data'
        others ← rest
        ok (
            soap_subscription libraries (drawn data'.uuid) s bookmark collector hostname auth_ctx
            ∷ others)

unfoldable pub handle_enumerate :
    {P K R : Type 0}
    → Libraries P
    → Surroundings K R
    → (SubscriptionUuid → String × String)
    → Collector
    → Bookmarks
    → Subscriptions P K R
    → RequestData
    → AuthenticationContext
    → Message
    → Result Response
unfolding enumerate_all
handle_enumerate libraries w drawn collector table mem request auth_ctx message =
    elim request.category [
      | subscription ↦ ok (failure bad_request)
      | enumerate uri ↦ elim (collector_hostname libraries collector message) [
        | none ↦ ok (failure bad_request)
        | some hostname ↦ do
          found ←
              enumerate_all libraries w table drawn collector hostname uri request.principal
                message.header.machine_id auth_ctx (values mem)
          ok (reply action_enumerate_response (some (enumerate_response found)))
      ]
    ]
