-- ===== src/Database/Schema.antt =====
-- The migrator of common/src/database/schema/mod.rs, with the table of applied migrations of
-- common/src/database/sqlite.rs and `schema_is_up_to_date` of common/src/database/mod.rs. Versions
-- are natural numbers here; a sorted set or map of versions is a list in ascending order.
pub mod Migrations
use openwec.Prelude.{
  ℕ, Bool, true, false, not, ◌&&◌, Option, none, some, List, [], ◌∷◌, ◌++◌, Result, ok, err, bail,
  nat_eq, ltb, leb, keep, any, if◌then◌else◌,
}
use openwec.Prelude.HashSet

abbrev pub Version : Type 0
Version = ℕ

-- Whether the script of a migration succeeds, up and down.
pub record Scripts : Type 0 where
  pub up : Version → Result (Unit {0})
  pub down : Version → Result (Unit {0})

-- The registered migrations, and the rows of the migration table.
pub record Schema : Type 0 where
  pub migrations : List Version
  pub migrated : List Version

-- `SELECT version … ORDER BY version DESC LIMIT 1`
abbrev pub current_version : List Version → Option Version
current_version [] = none
current_version (v ∷ vs) = elim (current_version vs) [
  | none ↦ some v
  | some latest ↦ some (if leb v latest then latest else v)
]

-- A migration must be registered; its script and the table change in one transaction.
unfoldable pub apply_migration : Scripts → Version → Schema → Schema × Result (Unit {0})
unfolding HashSet.contains
apply_migration scripts v s =
    if not (HashSet.contains v s.migrations)
    then (s, bail "Could not retrieve migration with version")
    else elim (scripts.up v) [
      | err e ↦ (s, err e)
      | ok _ ↦ (record s { migrated = v ∷ s.migrated }, ok tt)
    ]

unfoldable pub revert_migration : Scripts → Version → Schema → Schema × Result (Unit {0})
unfolding HashSet.contains HashSet.remove
revert_migration scripts v s =
    if not (HashSet.contains v s.migrations)
    then (s, bail "Could not retrieve migration with version")
    else elim (scripts.down v) [
      | err e ↦ (s, err e)
      | ok _ ↦ (record s { migrated = HashSet.remove v s.migrated }, ok tt)
    ]

unfoldable pub within_range : Version → Option Version → Option Version → Bool
within_range version none none = true
within_range version (some low) none = ltb low version
within_range version none (some high) = leb version high
within_range version (some low) (some high) = ltb low version && leb version high

-- The loops over the targets: the set of the versions handled, and what was done on an error.
unfoldable pub apply_all :
    Scripts → Bool → List Version → Schema → List Version → Schema × Result (List Version)
unfolding apply_migration HashSet.insert
apply_all scripts no_op [] s applied = (s, ok applied)
apply_all scripts no_op (v ∷ vs) s applied =
    let applied' = HashSet.insert v applied in
    elim no_op [
      | true ↦ apply_all scripts no_op vs s applied'
      | false ↦
          let (s', r) = apply_migration scripts v s in
          elim r [ ok _ ↦ apply_all scripts no_op vs s' applied' | err e ↦ (s', err e) ]
    ]

unfoldable pub revert_all :
    Scripts → Bool → List Version → Schema → List Version → Schema × Result (List Version)
unfolding revert_migration HashSet.insert
revert_all scripts no_op [] s reverted = (s, ok reverted)
revert_all scripts no_op (v ∷ vs) s reverted =
    let reverted' = HashSet.insert v reverted in
    elim no_op [
      | true ↦ revert_all scripts no_op vs s reverted'
      | false ↦
          let (s', r) = revert_migration scripts v s in
          elim r [ ok _ ↦ revert_all scripts no_op vs s' reverted' | err e ↦ (s', err e) ]
    ]

abbrev pub reverse : List Version → List Version
reverse [] = []
reverse (v ∷ vs) = reverse vs ++ v ∷ []

unfoldable pub up : Scripts → Option Version → Bool → Schema → Schema × Result (List Version)
unfolding within_range HashSet.contains apply_all
up scripts to no_op s =
    apply_all scripts no_op
      (keep (λ v. not (HashSet.contains v s.migrated))
        (keep (λ v. within_range v none to) s.migrations))
      s []

unfoldable pub down : Scripts → Option Version → Bool → Schema → Schema × Result (List Version)
unfolding within_range HashSet.contains revert_all
down scripts to no_op s = elim (current_version s.migrated) [
  | none ↦ (s, ok [])
  | some from ↦
      revert_all scripts no_op
        (keep (λ v. HashSet.contains v s.migrated)
          (keep (λ v. within_range v to (some from)) (reverse s.migrations)))
        s []
]

-- `migrated_versions == migrations`, as sets.
unfoldable pub schema_is_up_to_date : Schema → Bool
unfolding HashSet.contains
schema_is_up_to_date s =
    not (any (λ v. not (HashSet.contains v s.migrations)) s.migrated)
    && not (any (λ v. not (HashSet.contains v s.migrated)) s.migrations)
