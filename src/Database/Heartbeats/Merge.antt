-- ===== src/Database/Heartbeats/Merge.antt =====
-- What SQLite's statements make of each row.
use openwec.Prelude.{Option, none, some, [], ◌∷◌, ◌≡◌, refl, ◌∙◌, ℕ, arith, ◌==◌, if◌then◌else◌}
use openwec.Prelude.Dict.{lookup, lookup-insert, NodupKeys}
use openwec.Database.Heartbeats.{
  HeartbeatKey, heartbeat_key_eq, HeartbeatValue, HeartbeatsCache, Row, Table, upsert, value_change,
  store_heartbeats,
}

pub lookup-upsert :
    (k j : HeartbeatKey) (change : Option Row → Row) (table : Table)
    → lookup k (upsert j change table)
      ≡ (if k == j then some (change (lookup j table)) else lookup k table)
unfolding upsert
lookup-upsert k j change table = lookup-insert k j (change (lookup j table)) table

abbrev pub merged : Option HeartbeatValue → Option Row → Option Row
merged none row = row
merged (some v) row = some (value_change v row)

pub lookup-store_heartbeats-merged :
    (k : HeartbeatKey) (cache : HeartbeatsCache) (table : Table)
    → NodupKeys cache
    → lookup k (store_heartbeats cache table) ≡ merged (lookup k cache) (lookup k table)
unfolding store_heartbeats lookup
lookup-store_heartbeats-merged k [] table d = refl
lookup-store_heartbeats-merged k ((j, v) ∷ cache) table (absent, d) = ground (
  arith,
  lookup-store_heartbeats-merged k cache (upsert j (value_change v) table) d,
  lookup-upsert k j (value_change v) table,
)

-- The time of the last event, if the entry has one, or else that of the row.
abbrev pub latest_event : Option ℕ → Option ℕ → Option ℕ
latest_event (some event) old = some event
latest_event none old = old

-- The row of a key after its entry was written: a new row has the address and the times of the
-- entry; a row that was there keeps its address and first contact and takes the last contact, and
-- the last event of an entry that has one.
abbrev pub written : Option HeartbeatValue → Option Row → Option Row
written none row = row
written (some v) none = some (record {
  ip = v.ip;
  first_seen = v.last_seen;
  last_seen = v.last_seen;
  last_event_seen = v.last_event_seen;
})
written (some v) (some row) = some (record {
  ip = row.ip;
  first_seen = row.first_seen;
  last_seen = v.last_seen;
  last_event_seen = latest_event v.last_event_seen row.last_event_seen;
})

merged-written : (v : Option HeartbeatValue) (row : Option Row) → merged v row ≡ written v row
merged-written none row = refl
merged-written (some v) none = ground arith
merged-written (some v) (some row) = ground arith

-- After SQLite wrote a cache with one entry for each key, the row of a key that the cache has no
-- entry for is as it was. The row of the others is new, with the address and the times of the entry,
-- or it keeps its address and first contact, takes the last contact of the entry, and takes its last
-- event if the entry has one.
pub lookup-store_heartbeats :
    (k : HeartbeatKey) (cache : HeartbeatsCache) (table : Table)
    → NodupKeys cache
    → lookup k (store_heartbeats cache table) ≡ written (lookup k cache) (lookup k table)
lookup-store_heartbeats k cache table d =
    lookup-store_heartbeats-merged k cache table d
    ∙ merged-written (lookup k cache) (lookup k table)
