-- ===== src/Tests/Handlers.antt =====
-- Messages of a client to a server that has loaded one subscription.
use openwec.Prelude.{
  ℕ, zero, suc, String, Bool, true, false, not, Option, none, some, List, [], ◌∷◌, ◌++◌, ◌≡◌, ◌⊎◌,
  refl, ap, Result, ok, arith, map, keep, any, inr,
}
use openwec.Prelude.Dict.{lookup, values}
use openwec.Database.Bookmarks.{store_bookmark}
use openwec.Subscription.Output.{raw, json, needs_parsed_event}
use openwec.Subscription.Data.{Uuid, SubscriptionUuid, subscription_uuid_eq}
use openwec.Server.Subscriptions.{Subscription}
use openwec.Server.Messages.{
  Header, Message, events, RequestData, enumerate, kerberos, EventMetadata, action_events,
  action_heartbeat, action_enumerate_response, action_ack, enumerate_response,
}
use openwec.Server.Logic.{
  Libraries, Surroundings, Collected, Response, reply, failure, service_unavailable, Write,
  finished, panicked,
}
use openwec.Server.Logic.Enumerate.{Collector, handle_enumerate}
use openwec.Server.Logic.Enumerate.Listing.{
  expected_entry, is_served, heartbeat_message, handle_enumerate-lists, listed-handle_heartbeat,
}
use openwec.Server.Logic.Heartbeats.{allows, handle_heartbeat}
use openwec.Server.Logic.Events.{
  Formatters, all_succeed, get_formatted_events, spawn_all, handle_events,
}
use openwec.Server.Logic.Events.Formats.{write_of, spawn_all-get_formatted_events}
use openwec.Server.Logic.Events.Delivery.{
  writes, Acknowledged, handle_events-failed_output, handle_events-acknowledges, event_heartbeat,
  handle_events-safe,
}
use openwec.Server.Logic.Events.Checks.{is_reply, Accepted}
use openwec.Server.Logic.Dispatch.{handle_message}
use openwec.Server.Logic.Dispatch.Bookmarks.{KeepsBookmarks, handle_message-KeepsBookmarks}
use openwec.Tests.{crate, to_lowercase, hash, id, logons_built, loaded}
use openwec.Tests.Reload.{loaded-IsSound}

-- Identifiers written in unary.
abbrev unary : Uuid → String
unary zero = String.[]
unary (suc n) = String.◌∷◌ "|" (unary n)

abbrev count : String → Uuid
count String.[] = 0
count (String.◌∷◌ c s) = suc (count s)

count-unary : (n : Uuid) → ok (count (unary n)) ≡ ok n
count-unary n = ap ok (counted n)
  where
    counted : (n : Uuid) → count (unary n) ≡ n
    counted zero = refl
    counted (suc n) = ap suc (counted n)

abbrev libraries : Libraries String
libraries = record {
  glob = crate;
  to_lowercase = to_lowercase;
  parse_uuid = λ s. ok (count s);
  uuid_string = unary;
  host_str = λ s. some s;
}

abbrev works : Surroundings ℕ ℕ
works = record {
  join = λ write. finished (ok tt);
  now = ok 100;
  date = 100;
  send_heartbeat = ok tt;
  read_bookmark = λ key. ok tt;
  write_bookmark = ok tt;
}

abbrev panics : Surroundings ℕ ℕ
panics = record works { join = λ write. panicked }

abbrev formatters : Formatters String
formatters = record { parse = λ s. s; format = λ format metadata event. some event.raw }

abbrev request : RequestData
request = record {
  principal = "win10";
  remote_addr = record { ip = "10.0.0.2"; port = 5985 };
  category = enumerate "/wsman";
}

abbrev header : String → Header
header action = record {
  to = some "wec.local";
  resource_uri = none;
  machine_id = none;
  reply_to = none;
  action = some action;
  max_envelope_size = none;
  message_id = some "m";
  session_id = none;
  operation_id = none;
  sequence_id = none;
  relates_to = none;
  option_set = [];
  identifier = some "|";
  bookmarks = some "b1";
  ack_requested = some true;
  version = some "v1";
  revision = none;
}

abbrev message : Message
message = record { header = header action_events; body = some (events ("<Event/>" ∷ [])) }

abbrev nothing : Collected ℕ ℕ
nothing = record { bookmarks = []; heartbeats = []; spawned = [] }

logons_found : lookup (id 1) loaded ≡ some logons_built
unfolding lookup openwec.Server.Subscriptions.reload_subscriptions
    openwec.Server.Subscriptions.reload_one openwec.Subscription.Data.InternalVersion-discrete
    native.Mathlib.Decide.ℕ_discrete openwec.Subscription.Data.SubscriptionUuid-discrete
    openwec.Subscription.Output.SubscriptionOutputFormat-discrete
logons_found = refl

logons_allowed : allows libraries logons_built request message ≡ true
unfolding openwec.Subscription.Data.is_active_for
logons_allowed = refl

abbrev accepted : Accepted libraries loaded request message
accepted = record {
  texts = "<Event/>" ∷ [];
  identifier = "|";
  uuid = 1;
  subscription = logons_built;
  public_version = "v1";
  body = refl;
  names = refl;
  parsed = refl;
  found = logons_found;
  allowed = logons_allowed;
  versioned = refl;
}

-- The outputs of the subscription, as the tasks that write to them.
abbrev tasks : Surroundings ℕ ℕ → List (Write ℕ ℕ)
tasks w = writes libraries w formatters none request message logons_built ("<Event/>" ∷ []) "v1"

failed_example :
    handle_events libraries panics formatters none loaded request message nothing
    ≡ (record nothing { spawned = tasks panics }, ok (failure service_unavailable))
unfolding all_succeed
failed_example =
    handle_events-failed_output libraries panics formatters none request message hash loaded
      loaded-IsSound nothing accepted 0 _ refl (inr refl)

abbrev handled : Collected ℕ ℕ × Result Response
handled = handle_events libraries works formatters none loaded request message nothing

safe_example :
    ((handled.0.bookmarks ≡ []) × (handled.0.heartbeats ≡ []) × (is_reply handled.1 ≡ false))
    ⊎ ((a : Accepted libraries loaded request message) × (all_succeed works (
            writes libraries works formatters none request message a.subscription a.texts
              a.public_version)
          ≡ true)
        × Acknowledged libraries request message a.subscription
            (record nothing {
              spawned =
                  writes libraries works formatters none request message a.subscription a.texts
                    a.public_version;
            })
            handled.0
            handled.1)
safe_example =
    handle_events-safe libraries works formatters none request message hash loaded loaded-IsSound
      nothing

abbrev drawn : SubscriptionUuid → String × String
drawn uuid = ("m1", "o1")

abbrev collector : Collector
collector = record { hostname = none; advertized_port = "5985" }

bookmarks_example :
    KeepsBookmarks libraries works formatters drawn none collector kerberos hash loaded
      loaded-IsSound request message nothing
      (handle_message libraries works formatters drawn none collector kerberos loaded request
        message nothing).0
bookmarks_example =
    handle_message-KeepsBookmarks libraries works formatters drawn none collector kerberos hash
      loaded loaded-IsSound request message nothing

enumerate_example :
    handle_enumerate libraries works drawn collector [] loaded request kerberos message
    ≡ ok (
        reply action_enumerate_response (
          some (
            enumerate_response (
              map
                (expected_entry libraries works [] drawn collector "wec.local" "/wsman" loaded
                  request kerberos)
                (keep
                  (is_served libraries works [] drawn collector "wec.local" "/wsman" loaded request
                    kerberos message)
                  (values loaded))))))
enumerate_example =
    handle_enumerate-lists libraries works [] drawn collector "wec.local" "/wsman" loaded request
      kerberos message refl refl (λ key. refl)

abbrev heartbeat : Message
heartbeat = record { header = header action_heartbeat; body = none }

heartbeat_example : handle_heartbeat libraries works loaded request heartbeat nothing ≡ (
  record nothing {
    heartbeats =
        heartbeat_message libraries works [] drawn collector "wec.local" "/wsman" loaded request
          kerberos logons_built 100
        ∷ [];
  },
  ok (reply action_ack none),
)
unfolding openwec.Subscription.Data.is_active openwec.Subscription.Data.is_active_for
    openwec.Server.Logic.Enumerate.soap_subscription
heartbeat_example =
    listed-handle_heartbeat libraries works [] drawn collector "wec.local" "/wsman" loaded request
      kerberos message heartbeat logons_built nothing 100 count-unary logons_found refl refl refl
      refl refl

abbrev metadata : EventMetadata
metadata = record {
  addr = request.remote_addr;
  principal = "win10";
  node_name = none;
  time_received = 100;
  subscription_uuid = "|";
  subscription_version = "v1";
  subscription_name = "logons";
  subscription_uri = none;
  subscription_client_revision = none;
  subscription_server_revision = none;
}

formats_example :
    spawn_all logons_built.outputs
      (get_formatted_events formatters ("<Event/>" ∷ []) false (raw ∷ json ∷ []) metadata)
      metadata
    ≡ (map (write_of formatters ("<Event/>" ∷ []) false metadata) logons_built.outputs, ok tt)
unfolding openwec.Prelude.HashSet.contains
    openwec.Subscription.Output.SubscriptionOutputFormat-discrete
formats_example =
    spawn_all-get_formatted_events formatters ("<Event/>" ∷ []) false metadata logons_built.outputs
      (raw ∷ json ∷ []) (refl, tt)

acknowledged_example : handled ≡ (
  record {
    bookmarks = store_bookmark "win10" "|" "b1" [];
    heartbeats = event_heartbeat libraries request logons_built 100 ∷ [];
    spawned = tasks works;
  },
  ok (reply action_ack none),
)
unfolding all_succeed
acknowledged_example =
    handle_events-acknowledges libraries works formatters none request message hash loaded
      loaded-IsSound nothing accepted "b1" 100 refl refl refl refl refl
