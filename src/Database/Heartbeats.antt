-- ===== src/Database/Heartbeats.antt =====
-- The table `heartbeats` and the cache that is written to it: common/src/heartbeat.rs, and the
-- statements of `store_heartbeat` and `store_heartbeats` in common/src/database/sqlite.rs and
-- postgres.rs, where they succeed. The primary key is the machine and the subscription. A statement
-- of several rows with distinct keys is taken row by row.
pub mod Merge
pub mod Backends
use openwec.Prelude.{
  String, Bool, true, false, not, Option, none, some, [], ◌∷◌, ℕ, Eq, string_dec, keep,
  if◌then◌else◌,
}
use openwec.Prelude.Dict
use openwec.Prelude.Dict.{Dict}

pub record HeartbeatKey : Type 0 where
  pub machine : String
  pub subscription : String

unfoldable pub HeartbeatKey-discrete : Discrete HeartbeatKey
HeartbeatKey-discrete = hlevel string_dec

instance abbrev pub heartbeat_key_eq : Eq HeartbeatKey
heartbeat_key_eq = record { dec = HeartbeatKey-discrete }

pub record HeartbeatValue : Type 0 where
  pub ip : String
  pub last_seen : ℕ
  pub last_event_seen : Option ℕ

abbrev pub HeartbeatsCache : Type 0
HeartbeatsCache = Dict HeartbeatKey HeartbeatValue

pub record Row : Type 0 where
  pub ip : String
  pub first_seen : ℕ
  pub last_seen : ℕ
  pub last_event_seen : Option ℕ

abbrev pub Table : Type 0
Table = Dict HeartbeatKey Row

-- `INSERT … ON CONFLICT (machine, subscription) DO UPDATE SET last_seen, last_event_seen`
abbrev pub row_with_event : String → ℕ → ℕ → Option Row → Row
row_with_event ip now event none = record {
  ip = ip;
  first_seen = now;
  last_seen = now;
  last_event_seen = some event;
}
row_with_event ip now event (some row) = record row {
  last_seen = now;
  last_event_seen = some event;
}

-- `INSERT … ON CONFLICT (machine, subscription) DO UPDATE SET last_seen`
abbrev pub row_without_event : String → ℕ → Option Row → Row
row_without_event ip now none = record {
  ip = ip;
  first_seen = now;
  last_seen = now;
  last_event_seen = none;
}
row_without_event ip now (some row) = record row { last_seen = now }

unfoldable pub upsert : HeartbeatKey → (Option Row → Row) → Table → Table
unfolding Dict.insert Dict.lookup
upsert key change table = Dict.insert key (change (Dict.lookup key table)) table

abbrev pub seen_row : String → Bool → ℕ → Option Row → Row
seen_row ip is_event now old =
    if is_event then row_with_event ip now now old else row_without_event ip now old

-- `store_heartbeat`, at the time `now`.
unfoldable pub store_heartbeat : HeartbeatKey → String → Bool → ℕ → Table → Table
unfolding upsert
store_heartbeat key ip is_event now = upsert key (seen_row ip is_event now)

abbrev pub value_change : HeartbeatValue → Option Row → Row
value_change v old = elim v.last_event_seen [
  | some event ↦ row_with_event v.ip v.last_seen event old
  | none ↦ row_without_event v.ip v.last_seen old
]

-- SQLite's `store_heartbeats`: one statement for each entry of the cache.
unfoldable pub store_heartbeats : HeartbeatsCache → Table → Table
unfolding upsert
store_heartbeats [] table = table
store_heartbeats ((key, value) ∷ cache) table =
    store_heartbeats cache (upsert key (value_change value) table)

-- What a statement of `gen_heartbeats_query` of postgres.rs, with or without events, makes of a row:
-- `INSERT … VALUES (…, last_seen, last_seen, last_event_seen or null)`, and its conflict clause,
-- which sets `last_seen`, the event if it has one, and `ip`.
abbrev pub postgres_change : Bool → HeartbeatValue → Option Row → Row
postgres_change with_event v none = record {
  ip = v.ip;
  first_seen = v.last_seen;
  last_seen = v.last_seen;
  last_event_seen = if with_event then v.last_event_seen else none;
}
postgres_change true v (some row) = record {
  ip = v.ip;
  first_seen = row.first_seen;
  last_seen = v.last_seen;
  last_event_seen = v.last_event_seen;
}
postgres_change false v (some row) = record {
  ip = v.ip;
  first_seen = row.first_seen;
  last_seen = v.last_seen;
  last_event_seen = row.last_event_seen;
}

unfoldable pub postgres_rows : Bool → HeartbeatsCache → Table → Table
unfolding upsert
postgres_rows with_event [] table = table
postgres_rows with_event ((key, value) ∷ cache) table =
    postgres_rows with_event cache (upsert key (postgres_change with_event value) table)

abbrev pub has_event : HeartbeatKey × HeartbeatValue → Bool
has_event (key, value) = elim value.last_event_seen [ none ↦ false | some _ ↦ true ]

-- Postgres's `store_heartbeats`: the entries with an event, then those without.
unfoldable pub postgres_store_heartbeats : HeartbeatsCache → Table → Table
unfolding postgres_rows
postgres_store_heartbeats cache table =
    postgres_rows false (keep (λ e. not (has_event e)) cache)
      (postgres_rows true (keep has_event cache) table)
