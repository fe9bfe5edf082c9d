-- ===== src/Server/Heartbeat/Cache.antt =====
-- The cache after a batch of messages, against the messages themselves.
use openwec.Prelude.{Option, none, some, List, [], ◌∷◌, ℕ, ◌≡◌, refl, arith, ◌==◌, if◌then◌else◌}
use openwec.Prelude.Dict.{lookup, lookup-insert, NodupKeys, insert-NodupKeys}
use openwec.Database.Heartbeats.{HeartbeatKey, heartbeat_key_eq, HeartbeatValue, HeartbeatsCache}
use openwec.Server.Heartbeat.{WriteHeartbeatMessage, key_of, value_of, old_event, receive}

unfoldable pub receive_all : List WriteHeartbeatMessage → HeartbeatsCache → HeartbeatsCache
unfolding receive
receive_all [] cache = cache
receive_all (m ∷ ms) cache = receive_all ms (receive m cache)

pub lookup-receive :
    (k : HeartbeatKey) (m : WriteHeartbeatMessage) (cache : HeartbeatsCache)
    → lookup k (receive m cache)
      ≡ (if k == key_of m then some (value_of m (lookup (key_of m) cache)) else lookup k cache)
unfolding receive
lookup-receive k m cache = lookup-insert k (key_of m) _ cache

pub receive-NodupKeys :
    (m : WriteHeartbeatMessage) (cache : HeartbeatsCache)
    → NodupKeys cache
    → NodupKeys (receive m cache)
unfolding receive
receive-NodupKeys m cache d = insert-NodupKeys (key_of m) _ cache d

-- The last message of a key in a batch, or else the one before the batch.
abbrev pub last_message :
    HeartbeatKey
    → List WriteHeartbeatMessage
    → Option WriteHeartbeatMessage
    → Option WriteHeartbeatMessage
last_message k [] before = before
last_message k (m ∷ ms) before = last_message k ms (if k == key_of m then some m else before)

-- The time of the last message of a key that brought events.
abbrev pub last_event : HeartbeatKey → List WriteHeartbeatMessage → Option ℕ → Option ℕ
last_event k [] before = before
last_event k (m ∷ ms) before =
    last_event k ms
      (if k == key_of m then (if m.is_event then some m.timestamp else before) else before)

-- The cached value that a last message and a last time of an event make.
abbrev pub summary : Option WriteHeartbeatMessage → Option ℕ → Option HeartbeatValue
summary none event = none
summary (some m) event =
    some (record { ip = m.ip; last_seen = m.timestamp; last_event_seen = event })

lookup-receive_all_from :
    (k : HeartbeatKey) (ms : List WriteHeartbeatMessage) (cache : HeartbeatsCache)
    (before : Option WriteHeartbeatMessage) (event : Option ℕ)
    → lookup k cache ≡ summary before event
    → event ≡ old_event (lookup k cache)
    → lookup k (receive_all ms cache) ≡ summary (last_message k ms before) (last_event k ms event)
unfolding receive_all
lookup-receive_all_from k [] cache before event s e = s
lookup-receive_all_from k (m ∷ ms) cache before event s e =
    lookup-receive_all_from k ms (receive m cache) (if k == key_of m then some m else before)
      (if k == key_of m then (if m.is_event then some m.timestamp else event) else event)
      (ground (arith, lookup-receive k m cache)) (ground (arith, lookup-receive k m cache))

-- After a batch of messages that finds the cache empty, the entry of a key has the address and the
-- time of the key's last message, and the time of its last message with events, if there is one; a
-- key with no message has no entry.
pub lookup-receive_all :
    (k : HeartbeatKey) (ms : List WriteHeartbeatMessage)
    → lookup k (receive_all ms []) ≡ summary (last_message k ms none) (last_event k ms none)
unfolding lookup
lookup-receive_all k ms = lookup-receive_all_from k ms [] none none refl refl
