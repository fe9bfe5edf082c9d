-- ===== src/Database/Stats/Partition.antt =====
-- How the statistics of a subscription divide its machines.
use openwec.Prelude.{
  ℕ, ◌+◌, String, Bool, true, ◌&&◌, none, some, [], ◌∷◌, ◌≡◌, refl, arith, string_eq, ltb, leb,
  length, Option-cases, inl, inr,
}
use openwec.Database.Heartbeats.{Row, Table}
use openwec.Database.Stats.{
  alive, active, dead, event_after, no_event_after, select, get_stats, get_machines,
}

abbrev pub is_alive : ℕ → Row → Bool
is_alive start row = ltb start row.last_seen && no_event_after start row

abbrev pub is_dead : ℕ → Row → Bool
is_dead start row = no_event_after start row && leb row.last_seen start

length-select :
    (subscription : String) (start : ℕ) (table : Table)
    → length (select subscription (λ row. true) table)
      ≡ length (select subscription (is_alive start) table)
        + length (select subscription (event_after start) table)
        + length (select subscription (is_dead start) table)
length-select subscription start [] = refl
length-select subscription start ((key, row) ∷ table) = elim (Option-cases row.last_event_seen) [
  | inl never ↦ ground (arith, never, length-select subscription start table)
  | inr (event, seen) ↦ ground (arith, seen, length-select subscription start table)
]

length-select_dead :
    (subscription : String) (start : ℕ) (table : Table)
    → length
        (select subscription (λ row. leb row.last_seen start && no_event_after start row) table)
      ≡ length (select subscription (is_dead start) table)
length-select_dead subscription start [] = refl
length-select_dead subscription start ((key, row) ∷ table) =
    ground (arith, length-select_dead subscription start table)

-- Every machine of a subscription is counted in exactly one state: the counters of the alive, the
-- active and the dead machines add up to the total.
pub get_stats-total :
    (subscription : String) (start : ℕ) (table : Table)
    → (get_stats subscription start table).total_machines_count
      ≡ (get_stats subscription start table).alive_machines_count
        + (get_stats subscription start table).active_machines_count
        + (get_stats subscription start table).dead_machines_count
unfolding get_stats
get_stats-total subscription start table = length-select subscription start table

-- `get_machines` lists as many machines as `get_stats` counts, in each state and in total.
pub length-get_machines :
    (subscription : String) (start : ℕ) (table : Table)
    → (length (get_machines subscription start none table)
        ≡ (get_stats subscription start table).total_machines_count)
      × (length (get_machines subscription start (some alive) table)
          ≡ (get_stats subscription start table).alive_machines_count)
      × (length (get_machines subscription start (some active) table)
          ≡ (get_stats subscription start table).active_machines_count)
      × (length (get_machines subscription start (some dead) table)
          ≡ (get_stats subscription start table).dead_machines_count)
unfolding get_stats get_machines
length-get_machines subscription start table =
    (refl, refl, refl, length-select_dead subscription start table)
