-- ===== src/Server/Heartbeat.antt =====
-- The heartbeat task of server/src/heartbeat.rs: a cache in memory, flushed to the database on a timer
-- and at the end. The channel, the timer and the cancellation are events; whether a flush succeeds
-- comes with the event.
pub mod Cache
pub mod Direct
use openwec.Prelude.{
  String, Bool, true, false, Option, none, some, List, [], ◌∷◌, ℕ, is_empty, if◌then◌else◌,
}
use openwec.Prelude.Dict
use openwec.Database.Heartbeats.{
  HeartbeatKey, heartbeat_key_eq, HeartbeatValue, HeartbeatsCache, Table, store_heartbeats,
}

pub record WriteHeartbeatMessage : Type 0 where
  pub machine : String
  pub ip : String
  pub subscription : String
  pub timestamp : ℕ
  pub is_event : Bool

abbrev pub key_of : WriteHeartbeatMessage → HeartbeatKey
key_of m = record { machine = m.machine; subscription = m.subscription }

abbrev pub old_event : Option HeartbeatValue → Option ℕ
old_event none = none
old_event (some old) = old.last_event_seen

-- The value that a message gives its key: a plain heartbeat keeps the time of the last event.
abbrev pub value_of : WriteHeartbeatMessage → Option HeartbeatValue → HeartbeatValue
value_of m old = record {
  ip = m.ip;
  last_seen = m.timestamp;
  last_event_seen = if m.is_event then some m.timestamp else old_event old;
}

unfoldable pub receive : WriteHeartbeatMessage → HeartbeatsCache → HeartbeatsCache
unfolding Dict.insert Dict.lookup
receive m cache = Dict.insert (key_of m) (value_of m (Dict.lookup (key_of m) cache)) cache

-- What `select!` picks: a message, a tick of the timer, or the cancellation. The Boolean is the
-- success of `store_heartbeats`, whose failure is only logged.
pub data TaskEvent : Type 0 where
  received : WriteHeartbeatMessage → TaskEvent
  tick : Bool → TaskEvent
  cancelled : Bool → TaskEvent

pub record Task : Type 0 where
  pub heartbeats : HeartbeatsCache
  pub table : Table
  pub running : Bool

abbrev pub flushed : Bool → HeartbeatsCache → Table → Table
flushed stored cache table =
    if is_empty cache then table else if stored then store_heartbeats cache table else table

unfoldable pub step : TaskEvent → Task → Task
unfolding receive store_heartbeats
step (received m) t = record t { heartbeats = receive m t.heartbeats }
step (tick stored) t = record t { heartbeats = []; table = flushed stored t.heartbeats t.table }
step (cancelled stored) t = record t {
  table = flushed stored t.heartbeats t.table;
  running = false;
}

-- `break` leaves the loop: later events find no task.
unfoldable pub run : List TaskEvent → Task → Task
unfolding step
run [] t = t
run (e ∷ es) t = let next = run es (step e t) in if t.running then next else t
