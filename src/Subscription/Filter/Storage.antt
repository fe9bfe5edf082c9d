-- ===== src/Subscription/Filter/Storage.antt =====
-- A client filter through the columns of the table `subscriptions`: `store_subscription` writes the
-- texts of the operation and the kind, the bits of the flags and the joined targets, and
-- `row_to_subscription` calls `ClientFilter::from` on them.
use openwec.Prelude.{
  String, Bool, true, false, Option, none, some, List, [], ◌∷◌, map, ◌≡◌, refl, sym, ap, ◌∙◌,
  Result, ok, arith, string_eq, All, is_empty, if◌then◌else◌, Bool-cases, inl, inr,
}
use openwec.Prelude.HashSet.{Distinct}
use openwec.Prelude.Permutation.{All-Permᴰ, any-Permᴰ}
use openwec.Prelude.Text.{has_char, join, split-join}
use mathlib.Core.List.{Permᴰ}
use openwec.Subscription.Filter.Operation
use openwec.Subscription.Filter.Kind
use openwec.Subscription.Filter.Flags
use openwec.Subscription.Filter.{
  Glob, ClientFilter, ClientFilterTargets, exact, glob, collect_targets, parse_targets, from,
  targets_to_opt_string, targets_to_string, target_texts, no_target, eval,
}
use openwec.Subscription.Filter.Collected.{
  IsOrder, SameTargets, SameFilter, IsCollected, texts_of, collect_targets-same, target_texts-order,
  eval-SameFilter,
}

module _ {P : Type 0} (crate : Glob P) (to_lowercase : String → String) where
  -- The columns that `store_subscription` writes, read again.
  unfoldable pub reload : (List String → List String) → ClientFilter P → Result (ClientFilter P)
  unfolding from
  reload order f =
      from crate to_lowercase (Operation.to_string f.operation) (Kind.to_string f.kind)
        (some (Flags.bits f.flags)) (targets_to_opt_string crate to_lowercase order f)

  -- What `try_new` builds from a set of texts without commas.
  abbrev pub IsStorable : Bool → Bool → ClientFilterTargets P → Type 0
  IsStorable insensitive globbed (exact targets) =
      (globbed ≡ false)
      × Distinct targets
      × All (λ t. has_char "," t ≡ false) targets
      × All (λ t. (if insensitive then to_lowercase t else t) ≡ t) targets
  IsStorable insensitive globbed (glob patterns) =
      (globbed ≡ true)
      × Distinct (map crate.as_str patterns)
      × All (λ p. has_char "," (crate.as_str p) ≡ false) patterns
      × All (λ p. crate.new (crate.as_str p) ≡ ok p) patterns

  All-map :
      (patterns : List P)
      → All (λ p. has_char "," (crate.as_str p) ≡ false) patterns
      → All (λ t. has_char "," t ≡ false) (map crate.as_str patterns)
  All-map [] h = tt
  All-map (p ∷ ps) (e, h) = (e, All-map ps h)

  -- The commas of a text that joins pieces without commas tell them apart.
  parse_targets-joined :
      (flags : Flags.ClientFilterFlags) (texts : List String)
      → is_empty texts ≡ false
      → All (λ t. has_char "," t ≡ false) texts
      → parse_targets crate to_lowercase flags (some (join "," texts))
        ≡ collect_targets crate to_lowercase flags texts
  unfolding parse_targets
  parse_targets-joined flags [] filled free = cc
  parse_targets-joined flags (t ∷ ts) filled free =
      ap (collect_targets crate to_lowercase flags) (split-join "," t ts free)

  some_texts :
      (texts given : List String)
      → Permᴰ texts given
      → is_empty given ≡ false
      → is_empty texts ≡ false
  some_texts [] [] same filled = filled
  some_texts [] (t ∷ ts) same filled = ground (arith, any-Permᴰ (λ t. true) same)
  some_texts (t ∷ ts) given same filled = refl

  IsStorable-free :
      (insensitive globbed : Bool) (targets : ClientFilterTargets P)
      → IsStorable insensitive globbed targets
      → All (λ t. has_char "," t ≡ false) (texts_of crate to_lowercase targets)
  IsStorable-free insensitive globbed (exact targets) (off, distinct, free, low) = free
  IsStorable-free insensitive globbed (glob patterns) (on, distinct, free, parsed) =
      All-map patterns free

  IsStorable-IsCollected :
      (insensitive globbed : Bool) (targets : ClientFilterTargets P)
      → IsStorable insensitive globbed targets
      → IsCollected crate to_lowercase insensitive globbed targets
  IsStorable-IsCollected insensitive globbed (exact targets) (off, distinct, free, low) =
      (off, distinct, low)
  IsStorable-IsCollected insensitive globbed (glob patterns) (on, distinct, free, parsed) =
      (on, distinct, parsed)

  -- A column without a text is read as no targets, as it was written.
  parse_targets-none :
      (flags : Flags.ClientFilterFlags) (targets : ClientFilterTargets P)
      → IsStorable flags.case_insensitive flags.glob_pattern targets
      → no_target crate to_lowercase targets ≡ true
      → (again : ClientFilterTargets P) × (parse_targets crate to_lowercase flags none ≡ ok again)
        × SameTargets targets again
  unfolding parse_targets
  parse_targets-none flags (exact []) (off, _, _, _) nothing = (exact [], rw off refl, Permᴰ.nil)
  parse_targets-none flags (glob []) (on, _, _, _) nothing = (glob [], rw on refl, Permᴰ.nil)
  parse_targets-none flags (exact (t ∷ ts)) h nothing = cc
  parse_targets-none flags (glob (p ∷ ps)) h nothing = cc

  no_target-texts_of :
      (targets : ClientFilterTargets P)
      → no_target crate to_lowercase targets ≡ is_empty (texts_of crate to_lowercase targets)
  no_target-texts_of (exact targets) = refl
  no_target-texts_of (glob []) = refl
  no_target-texts_of (glob (p ∷ ps)) = refl

  parse_targets-stored :
      (order : List String → List String) (f : ClientFilter P)
      → IsOrder order
      → IsStorable f.flags.case_insensitive f.flags.glob_pattern f.targets
      → (again : ClientFilterTargets P) × (parse_targets crate to_lowercase f.flags
            (targets_to_opt_string crate to_lowercase order f)
          ≡ ok again)
        × SameTargets f.targets again
  unfolding targets_to_opt_string targets_to_string
  parse_targets-stored order f permutes h =
      elim (Bool-cases (no_target crate to_lowercase f.targets)) [
        | inl nothing ↦ rw nothing (parse_targets-none f.flags f.targets h nothing)
        | inr filled ↦
            let collected =
              IsStorable-IsCollected f.flags.case_insensitive f.flags.glob_pattern f.targets h in
            let same =
              target_texts-order crate to_lowercase order f.flags f.targets permutes collected in
            let texts = target_texts crate to_lowercase order f.targets in
            let (again, made, alike) =
              collect_targets-same crate to_lowercase f.flags f.targets texts collected same in
            rw filled (
              again,
              parse_targets-joined f.flags texts
                    (some_texts texts (texts_of crate to_lowercase f.targets) same
                      (sym (no_target-texts_of f.targets) ∙ filled))
                    (All-Permᴰ _ same
                      (IsStorable-free f.flags.case_insensitive f.flags.glob_pattern f.targets h))
                  ∙ made,
              alike,
            )
      ]

  -- A filter whose targets are distinct, hold no comma, are lower case where it ignores case, and
  -- whose patterns parse back is read from its columns, in whatever order the texts were joined, as a
  -- filter with the same operation, kind, flags and targets up to their order, and it lets the same
  -- clients through.
  pub reload_lem :
      (order : List String → List String) (f : ClientFilter P)
      → IsOrder order
      → IsStorable f.flags.case_insensitive f.flags.glob_pattern f.targets
      → (g : ClientFilter P) × (reload order f ≡ ok g)
        × SameFilter f g
        × ((client : String) (machine : Option String)
            → eval crate to_lowercase g client machine ≡ eval crate to_lowercase f client machine)
  unfolding reload
  reload_lem order f permutes h =
      let (again, parsed, alike) = parse_targets-stored order f permutes h in
      let g : ClientFilter P = record f { targets = again } in
      (
        g,
        rw (
          Flags.from_bits-bits f.flags,
          parsed,
          Operation.parse-to_string f.operation,
          Kind.parse-to_string f.kind,
        ),
        (refl, refl, refl, alike),
        λ client machine.
            eval-SameFilter crate to_lowercase f g client machine (refl, refl, refl, alike),
      )
