-- ===== src/Database/Stats.antt =====
-- The statistics of a subscription: `get_stats` and `get_machines` of
-- common/src/database/sqlite.rs, with their records in common/src/subscription.rs. A comparison with
-- an absent time is false, as with NULL.
pub mod Partition
use openwec.Prelude.{
  ℕ, String, Bool, true, false, ◌&&◌, ◌||◌, Option, none, some, List, [], ◌∷◌, string_eq, ◌==◌, ltb,
  leb, length, if◌then◌else◌,
}
use openwec.Database.Heartbeats.{HeartbeatKey, Row, Table}

pub record SubscriptionStatsCounters : Type 0 where
  pub total_machines_count : ℕ
  pub alive_machines_count : ℕ
  pub active_machines_count : ℕ
  pub dead_machines_count : ℕ

pub data SubscriptionMachineState : Type 0 where
  alive active dead : SubscriptionMachineState

pub record SubscriptionMachine : Type 0 where
  pub name : String
  pub ip : String

-- `last_event_seen > :start_time`
abbrev pub event_after : ℕ → Row → Bool
event_after start row = elim row.last_event_seen [ none ↦ false | some event ↦ ltb start event ]

-- `last_event_seen IS NULL OR last_event_seen <= :start_time`
abbrev pub no_event_after : ℕ → Row → Bool
no_event_after start row = elim row.last_event_seen [ none ↦ true | some event ↦ leb event start ]

-- `WHERE subscription = :subscription AND …`
abbrev pub select : String → (Row → Bool) → Table → List SubscriptionMachine
select subscription condition [] = []
select subscription condition ((key, row) ∷ table) =
    let rest = select subscription condition table in
    if key.subscription == subscription && condition row
    then record { name = key.machine; ip = row.ip } ∷ rest
    else rest

-- The clauses of `get_stats`; those of `get_machines` are below, as the source repeats them.
unfoldable pub get_stats : String → ℕ → Table → SubscriptionStatsCounters
get_stats subscription start table = record {
  total_machines_count = length (select subscription (λ row. true) table);
  alive_machines_count =
      length
        (select subscription (λ row. ltb start row.last_seen && no_event_after start row) table);
  active_machines_count = length (select subscription (event_after start) table);
  dead_machines_count =
      length
        (select subscription (λ row. no_event_after start row && leb row.last_seen start) table);
}

unfoldable pub get_machines :
    String → ℕ → Option SubscriptionMachineState → Table → List SubscriptionMachine
get_machines subscription start none table = select subscription (λ row. true) table
get_machines subscription start (some active) table = select subscription (event_after start) table
get_machines subscription start (some alive) table =
    select subscription (λ row. ltb start row.last_seen && no_event_after start row) table
get_machines subscription start (some dead) table =
    select subscription (λ row. leb row.last_seen start && no_event_after start row) table
