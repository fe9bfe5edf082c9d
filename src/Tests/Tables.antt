-- ===== src/Tests/Tables.antt =====
-- The tables of the database and the heartbeat task, on concrete rows.
use openwec.Prelude.{
  ◌+◌, length, ℕ, String, Bool, true, false, not, Option, none, some, List, [], ◌∷◌, ◌++◌, ◌≡◌,
  refl, Result, ok, arith, ◌==◌, inl, inr, Bool-cases, nat_eq, ◌||◌, ◌&&◌,
}
use native.Mathlib.Decide.{ℕ_discrete}
use openwec.Prelude.Dict.{lookup, NodupKeys}
use openwec.Prelude.HashSet
use openwec.Database.Heartbeats.{
  HeartbeatKey, heartbeat_key_eq, HeartbeatValue, HeartbeatsCache, Row, Table, store_heartbeats,
  postgres_store_heartbeats,
}
use openwec.Database.Heartbeats.Merge.{lookup-store_heartbeats}
use openwec.Database.Heartbeats.Backends.{times, backends_times, backends_ip}
use openwec.Database.Bookmarks.{Bookmarks, get_bookmark, delete_bookmarks}
use openwec.Database.Bookmarks.Selection.{get-delete_bookmarks}
use openwec.Database.Schema.{Scripts, Schema, up, down, schema_is_up_to_date}
use openwec.Database.Schema.Migrations.{contains-up, contains-down, schema_is_up_to_date-up}
use openwec.Database.Stats.{alive, active, dead, get_stats, get_machines}
use openwec.Database.Stats.Partition.{length-get_machines}
use openwec.Server.Heartbeat.{WriteHeartbeatMessage, TaskEvent, received, tick, cancelled, run}
use openwec.Server.Heartbeat.Cache.{receive_all, lookup-receive_all}
use openwec.Server.Heartbeat.Direct
use openwec.Server.Heartbeat.Direct.{started, last_times-run}

abbrev key : HeartbeatKey
key = record { machine = "win10"; subscription = "logons" }

abbrev value : HeartbeatValue
value = record { ip = "10.0.0.2"; last_seen = 20; last_event_seen = none }

abbrev cache : HeartbeatsCache
cache = (key, value) ∷ []

abbrev row : Row
row = record { ip = "10.0.0.1"; first_seen = 5; last_seen = 10; last_event_seen = some 10 }

abbrev table : Table
table = (key, row) ∷ []

cache-NodupKeys : NodupKeys cache
unfolding lookup
cache-NodupKeys = (refl, tt)

merge_example :
    lookup key (store_heartbeats cache table)
    ≡ some (record { ip = "10.0.0.1"; first_seen = 5; last_seen = 20; last_event_seen = some 10 })
unfolding lookup openwec.Database.Heartbeats.HeartbeatKey-discrete openwec.Prelude.string_dec
merge_example = lookup-store_heartbeats key cache table cache-NodupKeys

times_example :
    times (lookup key (store_heartbeats cache table))
    ≡ times (lookup key (postgres_store_heartbeats cache table))
times_example = backends_times key cache table cache-NodupKeys

ip_example :
    (s : Row) × (p : Row) × (lookup key (store_heartbeats cache table) ≡ some s)
    × (lookup key (postgres_store_heartbeats cache table) ≡ some p)
    × (s.ip ≡ "10.0.0.1")
    × (p.ip ≡ "10.0.0.2")
unfolding lookup openwec.Database.Heartbeats.HeartbeatKey-discrete openwec.Prelude.string_dec
ip_example = backends_ip key value row cache table cache-NodupKeys refl refl

abbrev message : ℕ → Bool → WriteHeartbeatMessage
message now event = record {
  machine = "win10";
  ip = "10.0.0.2";
  subscription = "logons";
  timestamp = now;
  is_event = event;
}

receive_example :
    lookup key (receive_all (message 11 true ∷ message 12 false ∷ []) [])
    ≡ some (record { ip = "10.0.0.2"; last_seen = 12; last_event_seen = some 11 })
unfolding openwec.Database.Heartbeats.HeartbeatKey-discrete openwec.Prelude.string_dec
receive_example = lookup-receive_all key (message 11 true ∷ message 12 false ∷ [])

abbrev task_events : List TaskEvent
task_events = received (message 11 true) ∷ tick true ∷ received (message 12 false) ∷ []

run_example :
    Direct.last_times
      (lookup key (run (task_events ++ cancelled true ∷ []) (started [] table)).table)
    ≡ Direct.last_times (lookup key (Direct.direct task_events table))
run_example = last_times-run task_events table (tt, (refl, (tt, tt))) key

abbrev stored : Bookmarks
stored =
    (record { machine = "win10"; subscription = "logons" }, "b1")
    ∷ (record { machine = "win11"; subscription = "logons" }, "b2")
    ∷ []

delete_bookmarks_example :
    get_bookmark "win10" "logons" (delete_bookmarks (some "win10") none stored) ≡ none
unfolding openwec.Prelude.string_dec
delete_bookmarks_example = get-delete_bookmarks (some "win10") none "win10" "logons" stored

abbrev scripts : Scripts
scripts = record { up = λ v. ok tt; down = λ v. ok tt }

abbrev schema : Schema
schema = record { migrations = 1 ∷ 2 ∷ 3 ∷ []; migrated = 1 ∷ [] }

up_example : HashSet.contains 3 (up scripts (some 2) false schema).0.migrated ≡ false
unfolding HashSet.contains ℕ_discrete openwec.Database.Schema.within_range
up_example = contains-up scripts (some 2) schema 3 (λ v. refl)

down_example : HashSet.contains 1 (down scripts none false schema).0.migrated ≡ false
unfolding HashSet.contains ℕ_discrete openwec.Database.Schema.within_range
down_example = contains-down scripts none schema 1 (λ v. refl)

up_to_date_example : schema_is_up_to_date (up scripts none false schema).0 ≡ true
unfolding HashSet.contains
up_to_date_example = schema_is_up_to_date-up scripts schema (λ v. refl) (λ v h. ground arith)

machines_example :
    (length (get_machines "logons" 15 none table)
      ≡ (get_stats "logons" 15 table).total_machines_count)
    × (length (get_machines "logons" 15 (some alive) table)
        ≡ (get_stats "logons" 15 table).alive_machines_count)
    × (length (get_machines "logons" 15 (some active) table)
        ≡ (get_stats "logons" 15 table).active_machines_count)
    × (length (get_machines "logons" 15 (some dead) table)
        ≡ (get_stats "logons" 15 table).dead_machines_count)
machines_example = length-get_machines "logons" 15 table
