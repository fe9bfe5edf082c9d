-- ===== src/Subscription/Filter.antt =====
-- Client filters: `ClientFilter` of common/src/subscription.rs.
-- The crate `glob` and Unicode lower case are parameters: a record of their functions, and a
-- function on texts. A `HashSet<String>` is a list in one iteration order.
pub mod Operation
pub mod Kind
pub mod Flags
pub mod Decision
pub mod Collected
pub mod Storage
pub mod Loss
use openwec.Prelude.{
  ℕ, ◌/◌, ◌%◌, String, Bool, true, false, not, ◌&&◌, Option, none, some, List, [], ◌∷◌, ◌++◌, map,
  Result, ok, bail, some_or, try_map, ◌>>=◌, string_eq, ◌==◌, any, position, remove_at, is_empty,
  if◌then◌else◌,
}
use openwec.Prelude.HashSet
use Operation.{ClientFilterOperation, only, except}
use Kind.{ClientFilterType, kerberos_princ, machine_id}
use Flags.{ClientFilterFlags}
use openwec.Prelude.Text.{eq_ignore_ascii_case, split, join}

-- The crate `glob`: `Pattern::new`, `Pattern::as_str` and `Pattern::matches_with`, whose Boolean is
-- `MatchOptions::case_sensitive`.
pub record Glob (Pattern : Type 0) : Type 0 where
  pub new : String → Result Pattern
  pub as_str : Pattern → String
  pub matches_with : Pattern → String → Bool → Bool

pub data ClientFilterTargets (Pattern : Type 0) : Type 0 where
  exact : List String → ClientFilterTargets Pattern
  glob : List Pattern → ClientFilterTargets Pattern

pub record ClientFilter (Pattern : Type 0) : Type 0 where
  pub operation : ClientFilterOperation
  pub kind : ClientFilterType
  pub flags : ClientFilterFlags
  pub targets : ClientFilterTargets Pattern

unfoldable pub new_legacy : {P : Type 0} → ClientFilterOperation → List String → ClientFilter P
new_legacy operation targets = record {
  operation = operation;
  kind = kerberos_princ;
  flags = Flags.empty;
  targets = exact targets;
}

module _ {P : Type 0} (crate : Glob P) (to_lowercase : String → String) where
  -- The `targets` that `try_new` and `from` build, from the items of an iterator.
  unfoldable pub collect_targets : ClientFilterFlags → List String → Result (ClientFilterTargets P)
  unfolding HashSet.extend
  collect_targets flags targets =
      if flags.glob_pattern
      then (do patterns ← try_map crate.new targets; ok (glob patterns))
      else if flags.case_insensitive
      then ok (exact (HashSet.from_iter (map to_lowercase targets)))
      else ok (exact (HashSet.from_iter targets))

  unfoldable pub try_new :
      ClientFilterOperation
      → ClientFilterType
      → ClientFilterFlags
      → List String
      → Result (ClientFilter P)
  try_new operation kind flags targets = do
    clients ← collect_targets flags targets
    ok (record { operation = operation; kind = kind; flags = flags; targets = clients })

  abbrev no_targets : ClientFilterFlags → ClientFilterTargets P
  no_targets flags = if flags.glob_pattern then glob [] else exact []

  -- The column of the targets: no text, or texts that commas separate.
  unfoldable pub parse_targets : ClientFilterFlags → Option String → Result (ClientFilterTargets P)
  unfolding collect_targets
  parse_targets flags none = ok (no_targets flags)
  parse_targets flags (some text) = collect_targets flags (split "," text)

  -- From the columns of the table `subscriptions`.
  unfoldable pub from : String → String → Option ℕ → Option String → Result (ClientFilter P)
  unfolding parse_targets
  from operation kind bits targets = do
    flags ←
        some_or (Flags.from_bits (elim bits [ none ↦ 0 | some b ↦ b ]))
          "unknown bits are set in client filter flags"
    clients ← parse_targets flags targets
    op ← Operation.parse operation
    k ← Kind.parse kind
    ok (record { operation = op; kind = k; flags = flags; targets = clients })

  unfoldable pub matches : ClientFilter P → String → Bool
  matches f target = elim f.targets [
    | exact targets ↦
        HashSet.contains (if f.flags.case_insensitive then to_lowercase target else target) targets
    | glob patterns ↦ any (λ p. crate.matches_with p target (not f.flags.case_insensitive)) patterns
  ]

  -- What the filter's operation makes of a match.
  abbrev pub decide_operation : ClientFilterOperation → Bool → Bool
  decide_operation only b = b
  decide_operation except b = not b

  -- The text that a kind of filter looks at.
  abbrev pub subject : ClientFilterType → String → Option String → Option String
  subject machine_id client machine = machine
  subject _ client machine = some client

  unfoldable pub eval : ClientFilter P → String → Option String → Bool
  unfolding matches
  eval f client machine = elim (subject f.kind client machine) [
    | none ↦ false
    | some target ↦ decide_operation f.operation (matches f target)
  ]

  -- `targets`: a set of texts. Each set that is collected iterates in an order of its own, which
  -- `order` picks.
  unfoldable pub target_texts : (List String → List String) → ClientFilterTargets P → List String
  unfolding HashSet.extend
  target_texts order (exact targets) = order (HashSet.from_iter targets)
  target_texts order (glob patterns) = order (HashSet.from_iter (map crate.as_str patterns))

  unfoldable pub targets_to_string : (List String → List String) → ClientFilter P → String
  unfolding target_texts
  targets_to_string order f = join "," (target_texts order f.targets)

  abbrev pub no_target : ClientFilterTargets P → Bool
  no_target (exact targets) = is_empty targets
  no_target (glob patterns) = is_empty patterns

  unfoldable pub targets_to_opt_string :
      (List String → List String) → ClientFilter P → Option String
  unfolding targets_to_string
  targets_to_opt_string order f =
      if no_target f.targets then none else some (targets_to_string order f)

  unfoldable pub add_to : String → ClientFilterTargets P → Result (ClientFilterTargets P)
  unfolding HashSet.insert
  add_to target (exact targets) = ok (exact (HashSet.insert target targets))
  add_to target (glob patterns) = do p ← crate.new target; ok (glob (patterns ++ p ∷ []))

  unfoldable pub add_target : ClientFilter P → String → Result (ClientFilter P)
  unfolding add_to
  add_target f target = do targets ← add_to target f.targets; ok (record f { targets = targets })

  abbrev pub remove_found : Option ℕ → List P → List P
  remove_found none patterns = patterns
  remove_found (some i) patterns = remove_at patterns i

  unfoldable pub delete_from : String → ClientFilterTargets P → ClientFilterTargets P
  unfolding HashSet.remove
  delete_from target (exact targets) = exact (HashSet.remove target targets)
  delete_from target (glob patterns) =
      glob (remove_found (position (λ p. crate.as_str p == target) patterns) patterns)

  unfoldable pub delete_target : ClientFilter P → String → ClientFilter P
  unfolding delete_from
  delete_target f target = record f { targets = delete_from target f.targets }

  unfoldable pub replace : List String → ClientFilterTargets P → Result (ClientFilterTargets P)
  replace targets (exact _) = ok (exact targets)
  replace targets (glob _) = do patterns ← try_map crate.new targets; ok (glob patterns)

  unfoldable pub set_targets : ClientFilter P → List String → Result (ClientFilter P)
  unfolding replace
  set_targets f targets = do
    clients ← replace targets f.targets
    ok (record f { targets = clients })

unfoldable pub set_operation :
    {P : Type 0} → ClientFilter P → ClientFilterOperation → ClientFilter P
set_operation f operation = record f { operation = operation }
