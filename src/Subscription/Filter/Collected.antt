-- ===== src/Subscription/Filter/Collected.antt =====
-- The targets that `try_new` makes of a set of texts, whatever the order in which the set gives them,
-- and what a filter decides by them.
use openwec.Prelude.{
  String, Bool, true, false, Option, List, [], ◌∷◌, map, ◌≡◌, refl, sym, ap, ◌∙◌, ok, try_map,
  string_eq, All, if◌then◌else◌, Option-cases, inl, inr,
}
use openwec.Prelude.HashSet.{Distinct, from_iter-Distinct}
use openwec.Prelude.Permutation.{All-Permᴰ, any-Permᴰ, contains-Permᴰ, Distinct-Permᴰ, Permᴰ-map}
use mathlib.Core.List.{Permᴰ}
use openwec.Subscription.Filter.Flags
use openwec.Subscription.Filter.{
  Glob, ClientFilter, ClientFilterTargets, exact, glob, collect_targets, target_texts, matches,
  eval, subject, decide_operation,
}

-- An order of iteration: the items of the set.
abbrev pub IsOrder : (List String → List String) → Type 0
IsOrder order = (texts : List String) → Permᴰ (order texts) texts

-- The same targets, in perhaps another order.
abbrev pub SameTargets : {P : Type 0} → ClientFilterTargets P → ClientFilterTargets P → Type 0
SameTargets (exact old) (exact new) = Permᴰ new old
SameTargets (glob old) (glob new) = Permᴰ new old
SameTargets (exact old) (glob new) = ⊥
SameTargets (glob old) (exact new) = ⊥

-- Filters that differ in the order of their targets only.
abbrev pub SameFilter : {P : Type 0} → ClientFilter P → ClientFilter P → Type 0
SameFilter old new =
    (new.operation ≡ old.operation)
    × (new.kind ≡ old.kind)
    × (new.flags ≡ old.flags)
    × SameTargets old.targets new.targets

module _ {P : Type 0} (crate : Glob P) (to_lowercase : String → String) where
  -- What `try_new` makes of a set of targets.
  abbrev pub IsCollected : Bool → Bool → ClientFilterTargets P → Type 0
  IsCollected insensitive globbed (exact targets) =
      (globbed ≡ false)
      × Distinct targets
      × All (λ t. (if insensitive then to_lowercase t else t) ≡ t) targets
  IsCollected insensitive globbed (glob patterns) =
      (globbed ≡ true)
      × Distinct (map crate.as_str patterns)
      × All (λ p. crate.new (crate.as_str p) ≡ ok p) patterns

  map_fixed :
      (targets : List String)
      → All (λ t. to_lowercase t ≡ t) targets
      → map to_lowercase targets ≡ targets
  map_fixed [] h = refl
  map_fixed (t ∷ ts) (e, h) = cc (e, map_fixed ts h)

  try_map-as_str :
      (patterns : List P)
      → All (λ p. crate.new (crate.as_str p) ≡ ok p) patterns
      → try_map crate.new (map crate.as_str patterns) ≡ ok patterns
  try_map-as_str [] h = refl
  try_map-as_str (p ∷ ps) (e, h) = rw (e, try_map-as_str ps h)

  -- The targets of a flag pair, from the texts that were joined.
  pub collect_exact :
      (insensitive : Bool) (targets : List String)
      → Distinct targets
      → All (λ t. (if insensitive then to_lowercase t else t) ≡ t) targets
      → collect_targets crate to_lowercase
          (record { case_insensitive = insensitive; glob_pattern = false })
          targets
        ≡ ok (exact targets)
  unfolding collect_targets
  collect_exact true targets d low = rw (map_fixed targets low, from_iter-Distinct targets d)
  collect_exact false targets d low = rw (from_iter-Distinct targets d)

  pub collect_glob :
      (insensitive : Bool) (patterns : List P)
      → All (λ p. crate.new (crate.as_str p) ≡ ok p) patterns
      → collect_targets crate to_lowercase
          (record { case_insensitive = insensitive; glob_pattern = true })
          (map crate.as_str patterns)
        ≡ ok (glob patterns)
  unfolding collect_targets
  collect_glob insensitive patterns parsed = rw (try_map-as_str patterns parsed)

  -- The texts of targets.
  abbrev pub texts_of : ClientFilterTargets P → List String
  texts_of (exact targets) = targets
  texts_of (glob patterns) = map crate.as_str patterns

  flags_eta :
      (flags : Flags.ClientFilterFlags) (insensitive globbed : Bool)
      → flags.case_insensitive ≡ insensitive
      → flags.glob_pattern ≡ globbed
      → flags ≡ record { case_insensitive = insensitive; glob_pattern = globbed }
  flags_eta flags insensitive globbed a b = rw (a, b) refl

  -- Targets are made again from their texts in any order, with their order changed alike.
  pub collect_targets-same :
      (flags : Flags.ClientFilterFlags) (targets : ClientFilterTargets P) (texts : List String)
      → IsCollected flags.case_insensitive flags.glob_pattern targets
      → Permᴰ texts (texts_of targets)
      → (again : ClientFilterTargets P) × (collect_targets crate to_lowercase flags texts
          ≡ ok again)
        × SameTargets targets again
  collect_targets-same flags (exact targets) texts (off, distinct, low) same = (
    exact texts,
    ap (λ f. collect_targets crate to_lowercase f texts)
          (flags_eta flags flags.case_insensitive false refl off)
        ∙ collect_exact flags.case_insensitive texts (Distinct-Permᴰ same distinct)
            (All-Permᴰ _ same low),
    same,
  )
  collect_targets-same flags (glob patterns) texts (on, distinct, parsed) same =
      let (again, texts_again, order) = Permᴰ-map crate.as_str patterns same refl in
      (
        glob again,
        ap (λ f. collect_targets crate to_lowercase f texts)
              (flags_eta flags flags.case_insensitive true refl on)
            ∙ ap (collect_targets crate to_lowercase _) (sym texts_again)
            ∙ collect_glob flags.case_insensitive again (All-Permᴰ _ order parsed),
        order,
      )

  pub target_texts-order :
      (order : List String → List String) (flags : Flags.ClientFilterFlags)
      (targets : ClientFilterTargets P)
      → IsOrder order
      → IsCollected flags.case_insensitive flags.glob_pattern targets
      → Permᴰ (target_texts crate to_lowercase order targets) (texts_of targets)
  unfolding target_texts
  target_texts-order order flags (exact targets) permutes (off, distinct, low) =
      rw (from_iter-Distinct targets distinct) (permutes targets)
  target_texts-order order flags (glob patterns) permutes (on, distinct, parsed) =
      rw (from_iter-Distinct (map crate.as_str patterns) distinct)
        (permutes (map crate.as_str patterns))

  matches-SameFilter :
      (old new : ClientFilter P) (a b : ClientFilterTargets P) (target : String)
      → old.targets ≡ a
      → new.targets ≡ b
      → new.flags ≡ old.flags
      → SameTargets a b
      → matches crate to_lowercase new target ≡ matches crate to_lowercase old target
  unfolding matches
  matches-SameFilter old new (exact xs) (exact ys) target e f flags same =
      rw (e, f, flags) (contains-Permᴰ _ same)
  matches-SameFilter old new (glob xs) (glob ys) target e f flags same =
      rw (e, f, flags) (any-Permᴰ _ same)
  matches-SameFilter old new (exact xs) (glob ys) target e f flags same = elim same [ ]
  matches-SameFilter old new (glob xs) (exact ys) target e f flags same = elim same [ ]

  -- The order of the targets does not change what a filter decides.
  pub eval-SameFilter :
      (old new : ClientFilter P) (client : String) (machine : Option String)
      → SameFilter old new
      → eval crate to_lowercase new client machine ≡ eval crate to_lowercase old client machine
  unfolding eval
  eval-SameFilter old new client machine (op, kind, flags, same) =
      elim (Option-cases (subject crate to_lowercase old.kind client machine)) [
        | inl nothing ↦ rw (kind, nothing, eval) refl
        | inr (target, found) ↦
            rw (kind, found, op, eval)
              (ap (decide_operation crate to_lowercase old.operation)
                (matches-SameFilter old new old.targets new.targets target refl refl flags same))
      ]
