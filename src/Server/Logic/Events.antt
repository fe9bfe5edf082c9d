-- ===== src/Server/Logic/Events.antt =====
-- `handle_events` and `get_formatted_events` of server/src/logic.rs. The formatters and the event
-- parser are parameters: `OutputFormat` is a trait, called through `get_formatter`.
pub mod Formats
pub mod Delivery
pub mod Checks
use openwec.Prelude.{
  ℕ, String, Bool, true, false, not, ◌&&◌, Option, none, some, List, [], ◌∷◌, ◌++◌, Result, ok, err,
  Error, bail, with_context, some_or, ◌>>=◌, any, if◌then◌else◌,
}
use openwec.Prelude.Dict
use openwec.Prelude.Dict.{Dict}
use openwec.Database.Bookmarks.{BookmarkKey, store_bookmark}
use openwec.Subscription.Output.{SubscriptionOutputFormat, format_eq, needs_parsed_event}
use openwec.Subscription.Data.{SubscriptionUuid, subscription_uuid_eq, is_active_for}
use openwec.Server.Output.{DriverOutput}
use openwec.Server.Subscriptions.{Subscription, Subscriptions}
use openwec.Server.Messages.{
  Message, Body, events, RequestData, EventMetadata, EventData, action_ack,
}
use openwec.Server.Logic.{
  Libraries, Surroundings, Collected, Response, reply, failure, bad_request, forbidden, not_found,
  service_unavailable, Write, Joined, finished, panicked, store_heartbeat,
}
use openwec.Server.Logic.Heartbeats.{allows}

-- `Event::from_str`, and `get_formatter` followed by `OutputFormat::format`.
pub record Formatters (Event : Type 0) : Type 0 where
  pub parse : String → Event
  pub format : SubscriptionOutputFormat → EventMetadata → EventData Event → Option String

abbrev pub FormattedEvents : Type 0
FormattedEvents = Dict SubscriptionOutputFormat (List String)

module _ {E : Type 0} (f : Formatters E) where
  -- `EventData::new`
  abbrev new_event_data : Bool → String → EventData E
  new_event_data parse_event text = record {
    raw = text;
    event = if parse_event then some (f.parse text) else none;
  }

  -- The events that a formatter refuses are left out.
  abbrev pub format_all :
      SubscriptionOutputFormat → EventMetadata → Bool → List String → List String
  format_all format metadata parse_event [] = []
  format_all format metadata parse_event (text ∷ texts) =
      let rest = format_all format metadata parse_event texts in
      elim (f.format format metadata (new_event_data parse_event text)) [
        | some content ↦ content ∷ rest
        | none ↦ rest
      ]

  unfoldable pub insert_formats :
      List String
      → Bool
      → List SubscriptionOutputFormat
      → EventMetadata
      → FormattedEvents
      → FormattedEvents
  unfolding Dict.insert
  insert_formats texts parse_event [] metadata formatted = formatted
  insert_formats texts parse_event (format ∷ formats) metadata formatted =
      insert_formats texts parse_event formats metadata
        (Dict.insert format (format_all format metadata parse_event texts) formatted)

  unfoldable pub get_formatted_events :
      List String → Bool → List SubscriptionOutputFormat → EventMetadata → FormattedEvents
  unfolding insert_formats
  get_formatted_events texts need_to_parse_event formats metadata =
      insert_formats texts need_to_parse_event formats metadata []

module _ {P : Type 0} (libraries : Libraries P) where
  -- `EventMetadata::new`
  unfoldable pub new_metadata :
      {K R : Type 0}
      → RequestData
      → Option String
      → ℕ
      → Subscription P K R
      → String
      → Option String
      → EventMetadata
  new_metadata request node_name date s public_version client_revision = record {
    addr = request.remote_addr;
    principal = request.principal;
    node_name = node_name;
    time_received = date;
    subscription_uuid = libraries.uuid_string s.subscription_data.uuid.uuid;
    subscription_version = public_version;
    subscription_name = s.subscription_data.parameters.name;
    subscription_uri = s.subscription_data.uri;
    subscription_client_revision = client_revision;
    subscription_server_revision = s.subscription_data.revision;
  }

-- The loop that spawns a task for each output. A format that is missing ends it; the tasks spawned
-- before it are in the list.
unfoldable pub spawn_all :
    {K R : Type 0}
    → List (DriverOutput K R)
    → FormattedEvents
    → EventMetadata
    → List (Write K R) × Result (Unit {0})
unfolding Dict.lookup
spawn_all [] formatted metadata = ([], ok tt)
spawn_all (output ∷ outputs) formatted metadata =
    let (writes, r) = spawn_all outputs formatted metadata in
    elim (Dict.lookup output.format formatted) [
      | none ↦ ([], bail "Could not get formatted event for format")
      | some content ↦
          (record { output = output; metadata = metadata; events = content } ∷ writes, r)
    ]

abbrev pub has_finished : Joined → Bool
has_finished (finished (ok _)) = true
has_finished (finished (err _)) = false
has_finished panicked = false

-- The variable `succeed` after the loop on `join_next`.
unfoldable pub all_succeed : {K R : Type 0} → Surroundings K R → List (Write K R) → Bool
all_succeed w [] = true
all_succeed w (write ∷ writes) = has_finished (w.join write) && all_succeed w writes

module _ {P K R : Type 0} (libraries : Libraries P) (w : Surroundings K R) where
  -- From the end of the tasks on: the bookmark, then the heartbeat.
  unfoldable pub acknowledge :
      Subscription P K R → RequestData → Message → Collected K R → Collected K R × Result Response
  unfolding store_bookmark store_heartbeat
  acknowledge s request message c =
      let identifier = libraries.uuid_string s.subscription_data.uuid.uuid in
      elim message.header.bookmarks [
        | none ↦ (c, bail "Missing bookmarks in request payload")
        | some bookmark ↦ elim w.write_bookmark [
          | err e ↦ (c, with_context "Failed to store bookmarks" (err e))
          | ok _ ↦
              let kept = record c {
                bookmarks = store_bookmark request.principal identifier bookmark c.bookmarks;
              } in
              let (c', stored) =
                store_heartbeat w request.principal request.remote_addr.ip identifier true kept in
              elim stored [
                | err e ↦ (c', with_context "Failed to store heartbeat" (err e))
                | ok _ ↦ (c', ok (reply action_ack none))
              ]
        ]
      ]

  unfoldable pub deliver :
      {E : Type 0}
      → Formatters E
      → Option String
      → Subscription P K R
      → RequestData
      → Message
      → List String
      → String
      → Collected K R
      → Collected K R × Result Response
  unfolding new_metadata get_formatted_events spawn_all all_succeed acknowledge
  deliver f node_name s request message texts public_version c =
      let metadata =
        new_metadata libraries request node_name w.date s public_version message.header.revision in
      let formatted =
        get_formatted_events f texts (any needs_parsed_event s.formats) s.formats metadata in
      let (writes, r) = spawn_all s.outputs formatted metadata in
      let c' = record c { spawned = c.spawned ++ writes } in
      elim r [
        | err e ↦ (c', err e)
        | ok _ ↦
            if not (all_succeed w writes)
            then (c', ok (failure service_unavailable))
            else acknowledge s request message c'
      ]

  -- The checks of the message come before any effect.
  unfoldable pub handle_events :
      {E : Type 0}
      → Formatters E
      → Option String
      → Subscriptions P K R
      → RequestData
      → Message
      → Collected K R
      → Collected K R × Result Response
  unfolding Dict.lookup is_active_for deliver
  handle_events f node_name mem request message c = elim message.body [
    | some (events texts) ↦ elim message.header.identifier [
      | none ↦ (c, ok (failure bad_request))
      | some identifier ↦ elim (libraries.parse_uuid identifier) [
        | err e ↦ (c, err e)
        | ok uuid ↦ elim (Dict.lookup {K = SubscriptionUuid} (record { uuid = uuid }) mem) [
          | none ↦ (c, ok (failure not_found))
          | some s ↦
              if not (allows libraries s request message)
              then (c, ok (failure forbidden))
              else elim message.header.version [
                | none ↦ (c, ok (failure bad_request))
                | some public_version ↦ deliver f node_name s request message texts public_version c
              ]
        ]
      ]
    ]
    | _ ↦ (c, bail "Invalid events message")
  ]
