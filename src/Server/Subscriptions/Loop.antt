-- ===== src/Server/Subscriptions/Loop.antt =====
-- The whole loop over the subscriptions of the database.
use openwec.Prelude.{
  Bool, ◌&&◌, ◌||◌, none, List, [], ◌∷◌, ◌≡◌, ◌≢◌, refl, arith, All, any, Result, ok, err, ℕ, ◌==◌,
  find,
}
use openwec.Prelude.HashSet
use openwec.Subscription.Data.{
  SubscriptionData, SubscriptionParameters, SubscriptionUuid, InternalVersion, subscription_uuid_eq,
  internal_version_eq, is_active,
}
use openwec.Server.Drivers.{Clients}
use openwec.Server.Output.{OutputDriversContext}
use openwec.Server.Subscriptions.{Subscriptions, reload_one, reload_all}
use openwec.Server.Subscriptions.Prune.{IsKeyed, data_at}
use openwec.Server.Subscriptions.Step.{pending, or_else, Stepped, reload_one-Stepped}

-- The key of the table `subscriptions`.
abbrev pub DistinctUuids : {P : Type 0} → List (SubscriptionData P) → Type 0
DistinctUuids [] = Unit
DistinctUuids (s ∷ ss) = All (λ t. t.uuid ≢ s.uuid) ss × DistinctUuids ss

module _ {P : Type 0} where
  pub find_other :
      (test : SubscriptionData P → Bool) (u : SubscriptionUuid) (ss : List (SubscriptionData P))
      → All (λ t. t.uuid ≢ u) ss
      → find (λ t. test t && u == t.uuid) ss ≡ none
  find_other test u [] h = refl
  find_other test u (t ∷ ts) (other, h) = ground (arith, find_other test u ts h)

module _ {P K R : Type 0} where
  pub record Looped (known : List InternalVersion) (ss : List (SubscriptionData P))
      (mem mem' : Subscriptions P K R) (active active' : List InternalVersion) : Type 0 where
    pub data_after :
        (u : SubscriptionUuid)
        → data_at u mem' ≡ or_else (find (λ s. pending known s && u == s.uuid) ss) (data_at u mem)
    pub active_after :
        (v : InternalVersion)
        → HashSet.contains v active'
          ≡ (any (λ s. is_active s && v == s.internal_version) ss || HashSet.contains v active)
    pub keyed_after : IsKeyed mem → IsKeyed mem'

  Looped-cons :
      (known : List InternalVersion) (s : SubscriptionData P) (ss : List (SubscriptionData P))
      (mem mem' mem'' : Subscriptions P K R) (active active' active'' : List InternalVersion)
      → All (λ t. t.uuid ≢ s.uuid) ss
      → Stepped known s mem mem' active active'
      → Looped known ss mem' mem'' active' active''
      → Looped known (s ∷ ss) mem mem'' active active''
  Looped-cons known s ss mem mem' mem'' active active' active'' other first rest = record {
    data_after = λ u.
        ground (
          arith,
          first.data_after u,
          rest.data_after u,
          find_other (pending known) s.uuid ss other,
        );
    active_after = λ v. ground (arith, first.active_after v, rest.active_after v);
    keyed_after = λ k. rest.keyed_after (first.keyed_after k);
  }

module _ {P K R : Type 0} (clients : Clients K R) (hash : SubscriptionParameters → Result ℕ)
    (known : List InternalVersion) (context : OutputDriversContext K) where
  pub reload_all-Looped :
      (ss : List (SubscriptionData P)) (mem : Subscriptions P K R)
      (active active' : List InternalVersion)
      → DistinctUuids ss
      → (reload_all clients hash known context ss mem active).1 ≡ ok active'
      → Looped known ss mem (reload_all clients hash known context ss mem active).0 active active'
  unfolding reload_all
  reload_all-Looped [] mem active active' d h = record {
    data_after = λ u. refl;
    active_after = λ v. ground arith;
    keyed_after = λ k. k;
  }
  reload_all-Looped (s ∷ ss) mem active active' (other, d) h =
      by_result (reload_one clients hash known context s mem active).1 refl (λ between.
        reload_all-Looped ss (reload_one clients hash known context s mem active).0 between active'
          d)
    where
      by_result :
          (r : Result (List InternalVersion))
          → (reload_one clients hash known context s mem active).1 ≡ r
          → ((between : List InternalVersion)
              → (reload_all clients hash known context ss
                  (reload_one clients hash known context s mem active).0
                  between).1
                ≡ ok active'
              → Looped known ss
                  (reload_one clients hash known context s mem active).0
                  (reload_all clients hash known context ss
                    (reload_one clients hash known context s mem active).0
                    between).0
                  between
                  active')
          → Looped known
              (s ∷ ss)
              mem
              (reload_all clients hash known context (s ∷ ss) mem active).0
              active
              active'
      by_result (ok between) e ih =
          rw (e, reload_all)
            (Looped-cons known s ss mem _ _ active between active' other
              (reload_one-Stepped clients hash known context s mem active between e)
              (ih between (rw (e, reload_all) at h)))
      by_result (err x) e ih = absurd (ground arith)
