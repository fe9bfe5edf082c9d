-- ===== src/Database/Heartbeats/Backends.antt =====
-- The rows that the two backends leave, compared.
use openwec.Prelude.{
  Bool, true, false, not, Option, none, some, [], ◌∷◌, ◌≡◌, refl, arith, ℕ, keep, if◌then◌else◌,
}
use openwec.Prelude.Dict.{lookup, NodupKeys}
use openwec.Database.Heartbeats.{
  HeartbeatKey, heartbeat_key_eq, HeartbeatValue, HeartbeatsCache, Row, Table, upsert,
  postgres_change, postgres_rows, has_event, postgres_store_heartbeats, store_heartbeats,
  value_change,
}
use openwec.Database.Heartbeats.Merge.{lookup-upsert, lookup-store_heartbeats-merged}

abbrev pub postgres_merged : Bool → Option HeartbeatValue → Option Row → Option Row
postgres_merged with_event none row = row
postgres_merged with_event (some v) row = some (postgres_change with_event v row)

lookup-postgres_rows :
    (with_event : Bool) (k : HeartbeatKey) (cache : HeartbeatsCache) (table : Table)
    → NodupKeys cache
    → lookup k (postgres_rows with_event cache table)
      ≡ postgres_merged with_event (lookup k cache) (lookup k table)
unfolding postgres_rows lookup
lookup-postgres_rows with_event k [] table d = refl
lookup-postgres_rows with_event k ((j, v) ∷ cache) table (absent, d) = ground (
  arith,
  lookup-postgres_rows with_event k cache (upsert j (postgres_change with_event v) table) d,
  lookup-upsert k j (postgres_change with_event v) table,
)

abbrev only_if :
    (HeartbeatKey × HeartbeatValue → Bool)
    → HeartbeatKey
    → Option HeartbeatValue
    → Option HeartbeatValue
only_if p k none = none
only_if p k (some v) = if p (k, v) then some v else none

lookup-keep :
    (p : HeartbeatKey × HeartbeatValue → Bool) (k : HeartbeatKey) (cache : HeartbeatsCache)
    → NodupKeys cache
    → lookup k (keep p cache) ≡ only_if p k (lookup k cache)
unfolding lookup
lookup-keep p k [] d = refl
lookup-keep p k ((j, v) ∷ cache) (absent, d) = ground (arith, lookup-keep p k cache d)

keep-NodupKeys :
    (p : HeartbeatKey × HeartbeatValue → Bool) (cache : HeartbeatsCache)
    → NodupKeys cache
    → NodupKeys (keep p cache)
keep-NodupKeys p [] d = tt
keep-NodupKeys p ((j, v) ∷ cache) (absent, d) =
    ground (arith, keep-NodupKeys p cache d, lookup-keep p j cache d)

abbrev carries_event : Option HeartbeatValue → Bool
carries_event none = false
carries_event (some v) = elim v.last_event_seen [ none ↦ false | some _ ↦ true ]

lookup-postgres :
    (k : HeartbeatKey) (cache : HeartbeatsCache) (table : Table)
    → NodupKeys cache
    → lookup k (postgres_store_heartbeats cache table)
      ≡ postgres_merged (carries_event (lookup k cache)) (lookup k cache) (lookup k table)
unfolding postgres_store_heartbeats
lookup-postgres k cache table d =
    let late = λ (e : HeartbeatKey × HeartbeatValue). not (has_event e) in
    ground (
      arith,
      lookup-postgres_rows false k (keep late cache)
          (postgres_rows true (keep has_event cache) table) (keep-NodupKeys late cache d),
      lookup-postgres_rows true k (keep has_event cache) table (keep-NodupKeys has_event cache d),
      lookup-keep late k cache d,
      lookup-keep has_event k cache d,
    )

-- A row without its address.
abbrev pub times : Option Row → Option (ℕ × ℕ × Option ℕ)
times none = none
times (some row) = some (row.first_seen, row.last_seen, row.last_event_seen)

-- From one table, both backends write the same first, last and last event times for every machine and
-- subscription.
pub backends_times :
    (k : HeartbeatKey) (cache : HeartbeatsCache) (table : Table)
    → NodupKeys cache
    → times (lookup k (store_heartbeats cache table))
      ≡ times (lookup k (postgres_store_heartbeats cache table))
backends_times k cache table d =
    ground (arith, lookup-store_heartbeats-merged k cache table d, lookup-postgres k cache table d)

-- For a machine that the table knows and the cache has heard from, Postgres records the address of
-- the cache and SQLite keeps the address that the table had.
pub backends_ip :
    (k : HeartbeatKey) (v : HeartbeatValue) (row : Row) (cache : HeartbeatsCache) (table : Table)
    → NodupKeys cache
    → lookup k cache ≡ some v
    → lookup k table ≡ some row
    → (s : Row) × (p : Row) × (lookup k (store_heartbeats cache table) ≡ some s)
      × (lookup k (postgres_store_heartbeats cache table) ≡ some p)
      × (s.ip ≡ row.ip)
      × (p.ip ≡ v.ip)
backends_ip k v row cache table d cached known = (
  value_change v (some row),
  postgres_change (carries_event (some v)) v (some row),
  ground (arith, lookup-store_heartbeats-merged k cache table d),
  ground (arith, lookup-postgres k cache table d),
  ground arith,
  ground arith,
)
