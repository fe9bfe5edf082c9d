-- ===== src/Server/Heartbeat/Direct.antt =====
-- The task's batches against writing each message to the table at once.
use openwec.Prelude.{
  true, false, Option, none, some, List, [], ◌∷◌, ◌++◌, ℕ, ◌≡◌, refl, arith, All, ap, ◌∙◌, eq_of_==,
}
use openwec.Prelude.Dict.{lookup, NodupKeys}
use openwec.Database.Heartbeats.{
  HeartbeatKey, heartbeat_key_eq, HeartbeatValue, HeartbeatsCache, Row, Table, store_heartbeat,
  value_change, seen_row,
}
use openwec.Database.Heartbeats.Merge.{lookup-upsert, merged, lookup-store_heartbeats-merged}
use openwec.Server.Heartbeat.{
  WriteHeartbeatMessage, key_of, value_of, receive, TaskEvent, received, tick, cancelled, Task,
  step, run, flushed,
}
use openwec.Server.Heartbeat.Cache.{lookup-receive, receive-NodupKeys}

-- The table had every message been written when it came, until the cancellation.
unfoldable pub direct : List TaskEvent → Table → Table
unfolding store_heartbeat
direct [] table = table
direct (received m ∷ es) table =
    direct es (store_heartbeat (key_of m) m.ip m.is_event m.timestamp table)
direct (tick stored ∷ es) table = direct es table
direct (cancelled stored ∷ es) table = table

-- The two times that a row keeps up to date.
abbrev pub last_times : Option Row → Option (ℕ × Option ℕ)
last_times none = none
last_times (some row) = some (row.last_seen, row.last_event_seen)

-- The flush of an event succeeds.
abbrev pub Stores : TaskEvent → Type 0
Stores (received m) = Unit
Stores (tick stored) = stored ≡ true
Stores (cancelled stored) = stored ≡ true

-- What the cache still owes the table is what separates it from the direct table.
abbrev Pending : Task → Table → Type 0
Pending t table =
    (k : HeartbeatKey)
    → last_times (merged (lookup k t.heartbeats) (lookup k t.table)) ≡ last_times (lookup k table)

last_times-value_of :
    (m : WriteHeartbeatMessage) (cached : Option HeartbeatValue) (old direct : Option Row)
    → last_times (merged cached old) ≡ last_times direct
    → last_times (some (value_change (value_of m cached) old))
      ≡ last_times (some (seen_row m.ip m.is_event m.timestamp direct))
last_times-value_of m none none none e = ground arith
last_times-value_of m none none (some d) e = ground arith
last_times-value_of m none (some r) none e = ground arith
last_times-value_of m none (some r) (some d) e = ground arith
last_times-value_of m (some c) old none e = ground arith
last_times-value_of m (some c) none (some d) e = ground arith
last_times-value_of m (some c) (some r) (some d) e = ground arith

last_times-receive :
    (m : WriteHeartbeatMessage) (t : Task) (table : Table)
    → Pending t table
    → Pending
        (record t { heartbeats = receive m t.heartbeats })
        (store_heartbeat (key_of m) m.ip m.is_event m.timestamp table)
unfolding store_heartbeat
last_times-receive m t table p k = ground (
  arith,
  lookup-receive k m t.heartbeats,
  lookup-upsert k (key_of m) (seen_row m.ip m.is_event m.timestamp) table,
  p k,
  p (key_of m),
  last_times-value_of m (lookup (key_of m) t.heartbeats) (lookup (key_of m) t.table)
      (lookup (key_of m) table) (p (key_of m)),
  eq_of_== k (key_of m),
)

last_times-flushed :
    (t : Task) (table : Table)
    → NodupKeys t.heartbeats
    → Pending t table
    → (k : HeartbeatKey)
    → last_times (lookup k (flushed true t.heartbeats t.table)) ≡ last_times (lookup k table)
unfolding lookup
last_times-flushed t table d p k = go t.heartbeats d (p k)
  where
    go :
        (cache : HeartbeatsCache)
        → NodupKeys cache
        → last_times (merged (lookup k cache) (lookup k t.table)) ≡ last_times (lookup k table)
        → last_times (lookup k (flushed true cache t.table)) ≡ last_times (lookup k table)
    go [] d e = e
    go (entry ∷ cache) d e =
        ground (arith, lookup-store_heartbeats-merged k (entry ∷ cache) t.table d)

run-stopped : (es : List TaskEvent) (t : Task) → t.running ≡ false → run es t ≡ t
unfolding run
run-stopped [] t stopped = refl
run-stopped (e ∷ es) t stopped = ground arith

abbrev pub started : HeartbeatsCache → Table → Task
started cache table = record { heartbeats = cache; table = table; running = true }

last_times-run_from :
    (es : List TaskEvent) (cache : HeartbeatsCache) (old table : Table)
    → All Stores es
    → NodupKeys cache
    → Pending (started cache old) table
    → (k : HeartbeatKey)
    → last_times (lookup k (run (es ++ cancelled true ∷ []) (started cache old)).table)
      ≡ last_times (lookup k (direct es table))
unfolding run step direct lookup
last_times-run_from [] cache old table stores d p k =
    last_times-flushed (started cache old) table d p k
last_times-run_from (received m ∷ es) cache old table (_, stores) d p k =
    last_times-run_from es (receive m cache) old
      (store_heartbeat (key_of m) m.ip m.is_event m.timestamp table) stores
      (receive-NodupKeys m cache d) (last_times-receive m (started cache old) table p) k
last_times-run_from (tick false ∷ es) cache old table (now, stores) d p k = ground (arith, now)
last_times-run_from (tick true ∷ es) cache old table (now, stores) d p k =
    last_times-run_from es [] (flushed true cache old) table stores tt
      (last_times-flushed (started cache old) table d p) k
last_times-run_from (cancelled false ∷ es) cache old table (now, stores) d p k = ground (arith, now)
last_times-run_from (cancelled true ∷ es) cache old table (now, stores) d p k =
    ap (λ t. last_times (lookup k t.table))
      (run-stopped (es ++ cancelled true ∷ [])
        (record { heartbeats = cache; table = flushed true cache old; running = false }) refl)
    ∙ last_times-flushed (started cache old) table d p k

-- When every flush succeeds, the task that starts with an empty cache and ends with a cancellation
-- leaves in every row the last contact and the last event that writing each message at once leaves
-- there, whatever the order of messages and ticks, and rows exist for the same keys. The first contact
-- and the address of a new row are not compared: a flush takes them from the last message.
pub last_times-run :
    (es : List TaskEvent) (table : Table)
    → All Stores es
    → (k : HeartbeatKey)
    → last_times (lookup k (run (es ++ cancelled true ∷ []) (started [] table)).table)
      ≡ last_times (lookup k (direct es table))
unfolding lookup
last_times-run es table stores = last_times-run_from es [] table table stores tt (λ k. refl)
