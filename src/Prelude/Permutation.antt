-- ===== src/Prelude/Permutation.antt =====
-- Lists in another order, over the permutations of the library: what does not depend on the order.
use openwec.Prelude.Tests.{Bool-cases}
use openwec.Prelude.Lists.{All, any}
use openwec.Prelude.Equality.{Eq, ◌==◌, eq_of_==, ==-refl}
use openwec.Prelude.HashSet.{contains, Distinct}
use mathlib.Core.Path.{◌≡◌, refl, sym, ◌∙◌, subst}
use mathlib.Core.Logic.{inl, inr}
use mathlib.Core.Bool.{Bool, false}
use mathlib.Core.List.{List, [], ◌∷◌, map, Permᴰ}
use native.Mathlib.Omega.{arith}

module _ {A : Type 0} where
  pub All-Permᴰ : (Q : A → Type 0) {xs ys : List A} → Permᴰ xs ys → All Q ys → All Q xs
  All-Permᴰ Q Permᴰ.nil h = h
  All-Permᴰ Q (Permᴰ.cons e p) (q, h) = (subst Q (sym e) q, All-Permᴰ Q p h)
  All-Permᴰ Q (Permᴰ.swap e d) (q, (r, h)) = (subst Q (sym e) r, (subst Q (sym d) q, h))
  All-Permᴰ Q (Permᴰ.trans p q) h = All-Permᴰ Q p (All-Permᴰ Q q h)

  pub any-Permᴰ : (p : A → Bool) {xs ys : List A} → Permᴰ xs ys → any p xs ≡ any p ys
  any-Permᴰ p Permᴰ.nil = refl
  any-Permᴰ p (Permᴰ.cons e r) = rw (e, any-Permᴰ p r) refl
  any-Permᴰ p (Permᴰ.swap e d) = rw (e, d) (ground arith)
  any-Permᴰ p (Permᴰ.trans r s) = any-Permᴰ p r ∙ any-Permᴰ p s

-- A permutation of images comes from one of the list.
pub Permᴰ-map :
    {A B : Type 0} (f : A → B) {ys zs : List B} (xs : List A)
    → Permᴰ ys zs
    → zs ≡ map f xs
    → (ws : List A) × (map f ws ≡ ys) × Permᴰ ws xs
Permᴰ-map f [] Permᴰ.nil h = ([], refl, Permᴰ.nil)
Permᴰ-map f (x ∷ xs) Permᴰ.nil h = cc
Permᴰ-map f [] (Permᴰ.cons e p) h = cc
Permᴰ-map f (x ∷ xs) (Permᴰ.cons e p) h =
    let (ws, images, same) = Permᴰ-map f xs p (cc h) in
    (x ∷ ws, cc (e, h, images), Permᴰ.cons refl same)
Permᴰ-map f [] (Permᴰ.swap e d) h = cc
Permᴰ-map f (x ∷ []) (Permᴰ.swap e d) h = cc
Permᴰ-map f (x ∷ y ∷ xs) (Permᴰ.swap e d) h = (y ∷ x ∷ xs, cc (e, d, h), Permᴰ.swap refl refl)
Permᴰ-map f xs (Permᴰ.trans p q) h =
    let (ws, images, same) = Permᴰ-map f xs q h in
    let (vs, others, again) = Permᴰ-map f ws p (sym images) in (vs, others, Permᴰ.trans again same)

module _ {A : Type 0} ⦃e : Eq A⦄ where
  pub contains-Permᴰ : (a : A) {xs ys : List A} → Permᴰ xs ys → contains a xs ≡ contains a ys
  unfolding contains
  contains-Permᴰ a Permᴰ.nil = refl
  contains-Permᴰ a (Permᴰ.cons {a = x} same p) = rw (same, contains-Permᴰ a p) refl
  contains-Permᴰ a (Permᴰ.swap same other) = rw (same, other) (ground arith)
  contains-Permᴰ a (Permᴰ.trans p q) = contains-Permᴰ a p ∙ contains-Permᴰ a q

  apart :
      (x y : A) (l : List A)
      → contains x (y ∷ l) ≡ false
      → contains y l ≡ false
      → (contains y (x ∷ l) ≡ false) × (contains x l ≡ false)
  unfolding contains
  apart x y l absent fresh = elim (Bool-cases (y == x)) [
    | inl same ↦ ground (arith, absent, eq_of_== y x same, ==-refl x)
    | inr other ↦ ground (arith, absent, fresh, other)
  ]

  pub Distinct-Permᴰ : {xs ys : List A} → Permᴰ xs ys → Distinct ys → Distinct xs
  unfolding contains
  Distinct-Permᴰ Permᴰ.nil d = d
  Distinct-Permᴰ (Permᴰ.cons same p) (absent, d) =
      (rw (same, contains-Permᴰ _ p) absent, Distinct-Permᴰ p d)
  Distinct-Permᴰ (Permᴰ.swap {a = p} {b = q} {a' = x} {b' = y} {l = l} same other)
        (absent, (fresh, d)) =
      let (first, second) = apart x y l absent fresh in
      (
        subst (λ z. contains z (q ∷ l) ≡ false) (sym same)
            (subst (λ z. contains y (z ∷ l) ≡ false) (sym other) first),
        (subst (λ z. contains z l ≡ false) (sym other) second, d),
      )
  Distinct-Permᴰ (Permᴰ.trans p q) d = Distinct-Permᴰ p (Distinct-Permᴰ q d)
