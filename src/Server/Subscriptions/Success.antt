-- ===== src/Server/Subscriptions/Success.antt =====
-- When a reload runs to its end.
use openwec.Prelude.{ℕ, Bool, true, List, [], ◌∷◌, ◌≡◌, refl, Result, ok, All, Bool-cases, inl, inr}
use openwec.Prelude.Dict.{values}
use openwec.Prelude.HashSet
use openwec.Subscription.Data.{
  SubscriptionData, SubscriptionParameters, InternalVersion, internal_version_eq, is_active,
}
use openwec.Server.Drivers.{Clients}
use openwec.Server.Output.{OutputDriversContext, initialize_missing}
use openwec.Server.Subscriptions.{
  Subscription, Subscriptions, Memory, internal_versions, from_data, reload_one, reload_all,
  reload_locked, forget, reload_subscriptions,
}

module _ {P K R : Type 0} (clients : Clients K R) (hash : SubscriptionParameters → Result ℕ) where
  -- Each active subscription can be built.
  abbrev pub Buildable : OutputDriversContext K → List (SubscriptionData P) → Type 0
  Buildable context = All (λ s.
      is_active s ≡ true
      → (built : Subscription P K R) × (from_data clients hash s context ≡ ok built))

  module _ (known : List InternalVersion) (context : OutputDriversContext K) where
    reload_one-ok :
        (s : SubscriptionData P) (mem : Subscriptions P K R) (active : List InternalVersion)
        → (is_active s ≡ true
            → (built : Subscription P K R) × (from_data clients hash s context ≡ ok built))
        → (active' : List InternalVersion) × ((reload_one clients hash known context s mem active).1
            ≡ ok active')
    unfolding reload_one
    reload_one-ok s mem active h = elim (Bool-cases (is_active s)) [
      | inr off ↦ (active, rw (off, reload_one) refl)
      | inl on ↦ elim (Bool-cases (HashSet.contains s.internal_version known)) [
        | inl old ↦ (HashSet.insert s.internal_version active, rw (on, old, reload_one) refl)
        | inr fresh ↦
            let (built, made) = h on in
            (HashSet.insert s.internal_version active, rw (on, fresh, made, reload_one) refl)
      ]
    ]

    reload_all-ok :
        (ss : List (SubscriptionData P)) (mem : Subscriptions P K R) (active : List InternalVersion)
        → Buildable context ss
        → (active' : List InternalVersion) × ((reload_all clients hash known context ss mem
              active).1
            ≡ ok active')
    unfolding reload_all
    reload_all-ok [] mem active h = (active, refl)
    reload_all-ok (s ∷ ss) mem active (here, h) =
        let (between, one) = reload_one-ok s mem active here in
        let (last, more) =
          reload_all-ok ss (reload_one clients hash known context s mem active).0 between h in
        (last, rw (one, reload_all) more)

  reload_locked-ok :
      (db : List (SubscriptionData P)) (m : Memory P K R)
      → Buildable m.context db
      → (reload_locked clients hash db m).1 ≡ ok tt
  unfolding reload_locked
  reload_locked-ok db m buildable =
      let (active, looped) =
        reload_all-ok (HashSet.from_iter (internal_versions (values m.subscriptions))) m.context db
          m.subscriptions [] buildable in
      rw (looped, reload_locked) refl

  -- A reload succeeds when the contexts of the output drivers can be initialized and each active
  -- subscription of the database can be built from them.
  pub reload_subscriptions-ok :
      (db : List (SubscriptionData P)) (keep_already_existing : Bool) (m : Memory P K R)
      (context : OutputDriversContext K)
      → initialize_missing clients db m.context ≡ (context, ok tt)
      → Buildable
          (forget clients hash keep_already_existing (record m { context = context })).context
          db
      → (reload_subscriptions clients hash (ok db) keep_already_existing m).1 ≡ ok tt
  unfolding reload_subscriptions
  reload_subscriptions-ok db keep m context initialized buildable =
      rw (initialized, initialized, reload_subscriptions)
        (reload_locked-ok db (forget clients hash keep (record m { context = context })) buildable)
