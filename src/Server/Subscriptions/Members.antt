-- ===== src/Server/Subscriptions/Members.antt =====
-- Members of a list, and how the tests of a reload find them.
use openwec.Prelude.{
  Bool, true, ◌&&◌, some, List, [], ◌∷◌, ◌≡◌, ◌≢◌, ◌⊎◌, inl, inr, refl, arith, All, any, ◌==◌, find,
  Bool-cases, sym, ap, ◌∙◌,
}
use mathlib.Core.Path.{subst}
use openwec.Prelude.Dict.{lookup, values}
use openwec.Prelude.HashSet
use openwec.Subscription.Data.{
  SubscriptionData, SubscriptionUuid, InternalVersion, subscription_uuid_eq, internal_version_eq,
}
use openwec.Server.Subscriptions.{Subscription, Subscriptions, internal_versions}
use openwec.Server.Subscriptions.Prune.{IsKeyed, IsKeyed-tail}
use openwec.Server.Subscriptions.Loop.{DistinctUuids}

abbrev pub Among : {A : Type 0} → A → List A → Type 0
Among x [] = ⊥
Among x (y ∷ ys) = (x ≡ y) ⊎ Among x ys

module _ {A : Type 0} (p : A → Bool) where
  pub find-Among : (xs : List A) (x : A) → find p xs ≡ some x → (p x ≡ true) × Among x xs
  find-Among [] x h = cc
  find-Among (y ∷ ys) x h = elim (Bool-cases (p y)) [
    | inl here ↦ (ground arith, inl (ground arith))
    | inr later ↦ let (holds, there) = find-Among ys x (ground arith) in (holds, inr there)
  ]

  pub any-Among : (xs : List A) → any p xs ≡ true → (x : A) × Among x xs × (p x ≡ true)
  any-Among [] h = cc
  any-Among (y ∷ ys) h = elim (Bool-cases (p y)) [
    | inl here ↦ (y, inl refl, here)
    | inr later ↦ let (x, there, holds) = any-Among ys (ground arith) in (x, inr there, holds)
  ]

  pub any_of_Among : (xs : List A) (x : A) → Among x xs → p x ≡ true → any p xs ≡ true
  any_of_Among [] x m h = absurd m
  any_of_Among (y ∷ ys) x (inl e) h = ground arith
  any_of_Among (y ∷ ys) x (inr m) h = ground (arith, any_of_Among ys x m h)

module _ {P : Type 0} (test : SubscriptionData P → Bool) where
  All-Among :
      (u : SubscriptionUuid) (ss : List (SubscriptionData P)) (s : SubscriptionData P)
      → All (λ t. t.uuid ≢ u) ss
      → Among s ss
      → s.uuid ≢ u
  All-Among u [] s h m = absurd m
  All-Among u (t ∷ ts) s (other, h) (inl e) =
      λ q. other (ap (λ (x : SubscriptionData P). x.uuid) (sym e) ∙ q)
  All-Among u (t ∷ ts) s (other, h) (inr m) = All-Among u ts s h m

  -- With distinct identifiers a member that passes the test is the one that is found.
  find_unique :
      (ss : List (SubscriptionData P)) (s : SubscriptionData P)
      → DistinctUuids ss
      → Among s ss
      → test s ≡ true
      → find (λ t. test t && s.uuid == t.uuid) ss ≡ some s
  find_unique [] s d m h = absurd m
  find_unique (t ∷ ts) s (other, d) (inl e) h = ground arith
  find_unique (t ∷ ts) s (other, d) (inr m) h =
      let differs : s.uuid ≢ t.uuid = All-Among t.uuid ts s other m in
      ground (arith, find_unique ts s d m h)

  pub find_at :
      (ss : List (SubscriptionData P)) (s : SubscriptionData P) (u : SubscriptionUuid)
      → DistinctUuids ss
      → Among s ss
      → test s ≡ true
      → s.uuid ≡ u
      → find (λ t. test t && u == t.uuid) ss ≡ some s
  find_at ss s u d m h e =
      subst (λ w. find (λ t. test t && w == t.uuid) ss ≡ some s) e (find_unique ss s d m h)

module _ {P K R : Type 0} where
  pub known_version :
      (mem : Subscriptions P K R) (v : InternalVersion)
      → IsKeyed mem
      → HashSet.contains v (internal_versions (values mem)) ≡ true
      → (u : SubscriptionUuid) × (b : Subscription P K R) × (lookup u mem ≡ some b)
        × (b.subscription_data.internal_version ≡ v)
  unfolding HashSet.contains lookup
  known_version [] v k h = cc
  known_version ((w, b) ∷ mem) v k h =
      elim (Bool-cases (v == b.subscription_data.internal_version)) [
        | inl here ↦ (w, b, ground arith, ground arith)
        | inr later ↦
            let (u, c, found, e) = known_version mem v (IsKeyed-tail w b mem k) (ground arith) in
            let absent = k.distinct.0 in (u, c, ground arith, e)
      ]
