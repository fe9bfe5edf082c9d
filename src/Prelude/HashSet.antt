-- ===== src/Prelude/HashSet.antt =====
-- `HashSet`: a list without repetitions, in one iteration order of the set.
use openwec.Prelude.Tests.{if◌then◌else◌, Bool-cases}
use openwec.Prelude.Lists.{All, All-snoc}
use openwec.Prelude.Equality.{Eq, ◌==◌}
use mathlib.Core.Path.{◌≡◌, refl, sym, ◌∙◌}
use mathlib.Core.Logic.{inl, inr}
use mathlib.Core.Bool.{Bool, false, ◌||◌}
use mathlib.Core.List.{List, [], ◌∷◌, ◌++◌, append-nil, append_assoc}
use native.Mathlib.Omega.{arith}

module _ {ℓ} {A : Type ℓ} ⦃e : Eq A⦄ where
  unfoldable pub contains : A → List A → Bool
  contains a [] = false
  contains a (x ∷ xs) = a == x || contains a xs

  unfoldable pub insert : A → List A → List A
  unfolding contains
  insert a xs = if contains a xs then xs else xs ++ a ∷ []

  -- `collect` into a set.
  unfoldable pub extend : List A → List A → List A
  unfolding insert
  extend set [] = set
  extend set (x ∷ xs) = extend (insert x set) xs

  abbrev pub from_iter : List A → List A
  from_iter = extend []

  unfoldable pub remove : A → List A → List A
  remove a [] = []
  remove a (x ∷ xs) = let rest = remove a xs in if a == x then rest else x ∷ rest

  pub contains-append :
      (a : A) (xs ys : List A) → contains a (xs ++ ys) ≡ (contains a xs || contains a ys)
  unfolding contains
  contains-append a [] ys = refl
  contains-append a (x ∷ xs) ys = ground (arith, contains-append a xs ys)

  pub contains-insert :
      (a b : A) (xs : List A) → contains a (insert b xs) ≡ (a == b || contains a xs)
  unfolding insert
  contains-insert a b xs = elim (Bool-cases (contains b xs)) [
    | inl old ↦ ground arith
    | inr new ↦ rw new (ground (arith, contains-append a xs (b ∷ [])))
  ]

  pub contains-extend :
      (a : A) (set xs : List A) → contains a (extend set xs) ≡ (contains a set || contains a xs)
  unfolding extend contains
  contains-extend a set [] = ground arith
  contains-extend a set (x ∷ xs) =
      ground (arith, contains-extend a (insert x set) xs, contains-insert a x set)

  pub contains-remove :
      (a b : A) (xs : List A) → contains a (remove b xs) ≡ (if a == b then false else contains a xs)
  unfolding remove contains
  contains-remove a b [] = ground arith
  contains-remove a b (x ∷ xs) = ground (arith, contains-remove a b xs)

  abbrev pub Distinct : List A → Type 0
  Distinct [] = Unit
  Distinct (x ∷ xs) = (contains x xs ≡ false) × Distinct xs

  absent_from_nil : (xs : List A) → All (λ x. contains x [] ≡ false) xs
  unfolding contains
  absent_from_nil [] = tt
  absent_from_nil (x ∷ xs) = (refl, absent_from_nil xs)

  still_absent :
      (set : List A) (x : A) (xs : List A)
      → contains x xs ≡ false
      → All (λ y. contains y set ≡ false) xs
      → All (λ y. contains y (set ++ x ∷ []) ≡ false) xs
  unfolding contains
  still_absent set x [] fresh h = tt
  still_absent set x (y ∷ ys) fresh (absent, h) =
      (ground (arith, contains-append y set (x ∷ [])), still_absent set x ys (ground arith) h)

  -- Items that are new and distinct are added in their order.
  extend-append :
      (set xs : List A)
      → Distinct xs
      → All (λ x. contains x set ≡ false) xs
      → extend set xs ≡ set ++ xs
  unfolding extend insert
  extend-append set [] d h = sym (append-nil set)
  extend-append set (x ∷ xs) (fresh, d) (absent, h) = rw absent (
      extend-append (set ++ x ∷ []) xs d (still_absent set x xs fresh h)
      ∙ append_assoc set (x ∷ []) xs)

  pub from_iter-Distinct : (xs : List A) → Distinct xs → from_iter xs ≡ xs
  from_iter-Distinct xs d = extend-append [] xs d (absent_from_nil xs)

  pub contains-from_iter : (a : A) (xs : List A) → contains a (from_iter xs) ≡ contains a xs
  unfolding contains
  contains-from_iter a xs = contains-extend a [] xs

  append_one-Distinct :
      (set : List A) (x : A) → Distinct set → contains x set ≡ false → Distinct (set ++ x ∷ [])
  unfolding contains
  append_one-Distinct [] x d fresh = (refl, tt)
  append_one-Distinct (y ∷ ys) x (absent, d) fresh =
      (ground (arith, contains-append y ys (x ∷ [])), append_one-Distinct ys x d (ground arith))

  insert-Distinct : (x : A) (set : List A) → Distinct set → Distinct (insert x set)
  unfolding insert
  insert-Distinct x set d = elim (Bool-cases (contains x set)) [
    | inl old ↦ rw old d
    | inr new ↦ rw new (append_one-Distinct set x d new)
  ]

  extend-Distinct : (set xs : List A) → Distinct set → Distinct (extend set xs)
  unfolding extend
  extend-Distinct set [] d = d
  extend-Distinct set (x ∷ xs) d = extend-Distinct (insert x set) xs (insert-Distinct x set d)

  -- A set has no repetitions.
  pub Distinct-from_iter : (xs : List A) → Distinct (from_iter xs)
  Distinct-from_iter xs = extend-Distinct [] xs tt

  insert-All {κ} : (Q : A → Type κ) (x : A) (set : List A) → Q x → All Q set → All Q (insert x set)
  unfolding insert
  insert-All Q x set q h = elim (Bool-cases (contains x set)) [
    | inl old ↦ rw old h
    | inr new ↦ rw new (All-snoc Q set x h q)
  ]

  pub extend-All {κ} :
      (Q : A → Type κ) (set xs : List A) → All Q set → All Q xs → All Q (extend set xs)
  unfolding extend
  extend-All Q set [] h q = h
  extend-All Q set (x ∷ xs) h (qx, q) = extend-All Q (insert x set) xs (insert-All Q x set qx h) q
