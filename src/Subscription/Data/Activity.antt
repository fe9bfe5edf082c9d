-- ===== src/Subscription/Data/Activity.antt =====
-- When a subscription serves a client.
use openwec.Prelude.{
  ℕ, zero, suc, String, true, Option, some, List, [], ◌∷◌, ◌≡◌, refl, ◌↔◌, arith, any, get_elem?,
  Bool-cases, inl, inr,
}
use openwec.Subscription.Output.{SubscriptionOutput}
use openwec.Subscription.Filter.{Glob}
use openwec.Subscription.Data.{SubscriptionData, filter_allows, is_active_for}

abbrev pub HasEnabled : List SubscriptionOutput → Type 0
HasEnabled outputs =
    (i : ℕ) × (output : SubscriptionOutput) × (get_elem? outputs i ≡ some output)
    × (output.enabled ≡ true)

any→HasEnabled :
    (outputs : List SubscriptionOutput)
    → any (λ output. output.enabled) outputs ≡ true
    → HasEnabled outputs
any→HasEnabled [] h = cc
any→HasEnabled (o ∷ os) h = elim (Bool-cases o.enabled) [
  | inl on ↦ (0, o, refl, on)
  | inr off ↦ let (i, output, at, on) = any→HasEnabled os (ground arith) in (suc i, output, at, on)
]

HasEnabled→any :
    (outputs : List SubscriptionOutput) (i : ℕ) (output : SubscriptionOutput)
    → get_elem? outputs i ≡ some output
    → output.enabled ≡ true
    → any (λ output. output.enabled) outputs ≡ true
HasEnabled→any [] i output at on = cc
HasEnabled→any (o ∷ os) zero output at on = ground arith
HasEnabled→any (o ∷ os) (suc i) output at on = ground (arith, HasEnabled→any os i output at on)

module _ {P : Type 0} (crate : Glob P) (to_lowercase : String → String) where
  -- A subscription serves a client exactly when it is enabled, one of its outputs is enabled, and
  -- its filter, if it has one, lets the client through.
  pub is_active_for_iff :
      (s : SubscriptionData P) (client : String) (machine : Option String)
      → (is_active_for crate to_lowercase s client machine ≡ true) ↔ (
          (s.enabled ≡ true)
          × HasEnabled s.outputs
          × (filter_allows crate to_lowercase s.client_filter client machine ≡ true))
  unfolding is_active_for
  is_active_for_iff s client machine = (
    λ h. (ground arith, any→HasEnabled s.outputs (ground arith), ground arith),
    λ h. ground (arith, HasEnabled→any s.outputs h.1.0 h.1.1 h.1.2 h.1.3),
  )
