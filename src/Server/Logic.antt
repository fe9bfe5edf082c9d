-- ===== src/Server/Logic.antt =====
-- What the server shares between its handlers, and the dispatch of messages: server/src/logic.rs.
-- Logging and the counters of the crate `metrics` are not modelled.
pub mod Enumerate
pub mod Heartbeats
pub mod Events
pub mod Dispatch
use openwec.Prelude.{ℕ, String, Bool, Option, List, [], ◌∷◌, ◌++◌, Result, ok, with_context}
use openwec.Database.Bookmarks.{Bookmarks, BookmarkKey}
use openwec.Subscription.Data.{SubscriptionUuid, Uuid}
use openwec.Subscription.Filter.{Glob}
use openwec.Server.Subscriptions.{Subscription}
use openwec.Server.Output.{DriverOutput}
use openwec.Server.Heartbeat.{WriteHeartbeatMessage}
use openwec.Server.Messages.{Body, EventMetadata, SocketAddr}

pub data Response : Type 0 where
  reply : String → Option Body → Response
  failure : ℕ → Response

-- `StatusCode`
abbrev pub bad_request : ℕ
bad_request = 400

abbrev pub forbidden : ℕ
forbidden = 403

abbrev pub not_found : ℕ
not_found = 404

abbrev pub service_unavailable : ℕ
service_unavailable = 503

-- The libraries: `glob`, Unicode lower case, `Uuid::parse_str`, its `Display`, and
-- `url::Url::parse` followed by `host_str`.
pub record Libraries (P : Type 0) : Type 0 where
  pub glob : Glob P
  pub to_lowercase : String → String
  pub parse_uuid : String → Result Uuid
  pub uuid_string : Uuid → String
  pub host_str : String → Option String

-- A task that writes the events of a message to an output.
pub record Write (K R : Type 0) : Type 0 where
  pub output : DriverOutput K R
  pub metadata : EventMetadata
  pub events : List String

-- `JoinSet::join_next`: a task ends, or panics.
pub data Joined : Type 0 where
  finished : Result (Unit {0}) → Joined
  panicked : Joined

-- What the surroundings answer while one message is handled: the output drivers, the clock (its
-- seconds, and the date of reception), the heartbeat channel, and the database's reads and writes,
-- which may fail.
pub record Surroundings (K R : Type 0) : Type 0 where
  pub join : Write K R → Joined
  pub now : Result ℕ
  pub date : ℕ
  pub send_heartbeat : Result (Unit {0})
  pub read_bookmark : BookmarkKey → Result (Unit {0})
  pub write_bookmark : Result (Unit {0})

-- What a handler changes: the bookmarks of the database, the heartbeats sent to the heartbeat task,
-- and the tasks spawned.
pub record Collected (K R : Type 0) : Type 0 where
  pub bookmarks : Bookmarks
  pub heartbeats : List WriteHeartbeatMessage
  pub spawned : List (Write K R)

-- `store_heartbeat` of server/src/heartbeat.rs.
unfoldable pub store_heartbeat :
    {K R : Type 0}
    → Surroundings K R
    → String
    → String
    → String
    → Bool
    → Collected K R
    → Collected K R × Result (Unit {0})
store_heartbeat w machine ip subscription is_event c = elim w.now [
  | Result.err e ↦ (c, Result.err e)
  | ok now ↦ elim w.send_heartbeat [
    | Result.err e ↦ (c, with_context "Failed to send WriteHeartbeatMessage" (Result.err e))
    | ok _ ↦
        let message : WriteHeartbeatMessage = record {
          machine = machine;
          ip = ip;
          subscription = subscription;
          timestamp = now;
          is_event = is_event;
        } in
        (record c { heartbeats = c.heartbeats ++ message ∷ [] }, ok tt)
  ]
]
