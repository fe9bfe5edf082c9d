-- ===== src/Server/Subscriptions/Soundness.antt =====
-- The invariant of the map in memory, under the steps of a reload.
use openwec.Prelude.{
  Bool, true, false, some, List, [], ◌∷◌, ◌≡◌, refl, arith, Result, ok, err, ℕ, ◌==◌, find,
  Bool-cases, Option-cases, inl, inr,
}
use mathlib.Core.Path.{subst}
use openwec.Prelude.Dict
use openwec.Prelude.Dict.{values, lookup, lookup-insert, lookup-remove}
use openwec.Prelude.HashSet
use openwec.Subscription.Data.{
  SubscriptionData, SubscriptionParameters, SubscriptionUuid, InternalVersion, subscription_uuid_eq,
  internal_version_eq, is_active,
}
use openwec.Server.Drivers.{Clients}
use openwec.Server.Output.{OutputDriversContext, initialize_missing}
use openwec.Server.Subscriptions.{
  Subscription, Subscriptions, Memory, internal_versions, from_data, remove_old, remove_all,
  reload_one, reload_all, prune, reload_locked, forget, reload_subscriptions,
}
use openwec.Server.Subscriptions.Build.{IsBuilt, from_data-IsBuilt}
use openwec.Server.Subscriptions.Prune.{
  IsKeyed, IsKeyed-nil, IsKeyed-insert, IsKeyed-remove, stale_uuids,
}
use openwec.Server.Subscriptions.Step.{has_uuid}

-- Each subscription stands under its own identifier, once, and is what `from_data` makes of its data.
pub record IsSound {P K R : Type 0} (hash : SubscriptionParameters → Result ℕ)
    (mem : Subscriptions P K R) : Type 0 where
  pub keyed : IsKeyed mem
  pub built :
      (u : SubscriptionUuid) (b : Subscription P K R) → lookup u mem ≡ some b → IsBuilt hash b

module _ {P K R : Type 0} (hash : SubscriptionParameters → Result ℕ) where
  IsSound-nil : IsSound {P = P} {K = K} {R = R} hash []
  unfolding lookup
  IsSound-nil = record { keyed = IsKeyed-nil; built = λ u b h. cc }

  IsSound-remove :
      (mem : Subscriptions P K R) (w : SubscriptionUuid)
      → IsSound hash mem
      → IsSound hash (Dict.remove w mem)
  IsSound-remove mem w s = record {
    keyed = IsKeyed-remove mem w s.keyed;
    built = λ u b h. s.built u b (ground (arith, lookup-remove u w mem));
  }

  IsSound-remove_all :
      (uuids : List SubscriptionUuid) (mem : Subscriptions P K R)
      → IsSound hash mem
      → IsSound hash (remove_all uuids mem)
  IsSound-remove_all [] mem s = s
  IsSound-remove_all (w ∷ ws) mem s =
      IsSound-remove_all ws (Dict.remove w mem) (IsSound-remove mem w s)

  IsSound-prune :
      (active : List InternalVersion) (mem : Subscriptions P K R)
      → IsSound hash mem
      → IsSound hash (prune active mem)
  unfolding prune
  IsSound-prune active mem s =
      IsSound-remove_all (HashSet.from_iter (stale_uuids active (values mem))) mem s

  IsSound-remove_old :
      (w : SubscriptionUuid) (mem : Subscriptions P K R)
      → IsSound hash mem
      → IsSound hash (remove_old w mem)
  unfolding remove_old
  IsSound-remove_old w mem s = elim (Option-cases (find (has_uuid w) (values mem))) [
    | inl nothing ↦ rw (nothing, remove_old) s
    | inr (old, found) ↦ rw (found, remove_old) (IsSound-remove mem old.subscription_data.uuid s)
  ]

  inserted :
      (mem : Subscriptions P K R) (b c : Subscription P K R) (u w : SubscriptionUuid)
      → IsSound hash mem
      → IsBuilt hash b
      → lookup u (Dict.insert w b mem) ≡ some c
      → IsBuilt hash c
  inserted mem b c u w s fresh h = elim (Bool-cases (u == w)) [
    | inl same ↦ subst (IsBuilt hash) (ground (arith, lookup-insert u w b mem)) fresh
    | inr other ↦ s.built u c (ground (arith, lookup-insert u w b mem))
  ]

module _ {P K R : Type 0} (clients : Clients K R) (hash : SubscriptionParameters → Result ℕ)
    (known : List InternalVersion) (context : OutputDriversContext K) where
  build_sound :
      (s : SubscriptionData P) (mem : Subscriptions P K R) (active : List InternalVersion)
      (r : Result (Subscription P K R))
      → from_data clients hash s context ≡ r
      → is_active s ≡ true
      → HashSet.contains s.internal_version known ≡ false
      → IsSound hash mem
      → IsSound hash (reload_one clients hash known context s mem active).0
  unfolding reload_one
  build_sound s mem active (ok b) made on new i =
      let map_after : (reload_one clients hash known context s mem active).0
          ≡ Dict.insert b.subscription_data.uuid b (remove_old s.uuid mem) =
        ground arith in
      let cleaned = IsSound-remove_old hash s.uuid mem i in
      let (same, fresh) = from_data-IsBuilt clients context hash s b made in
      rw map_after (record {
        keyed = IsKeyed-insert (remove_old s.uuid mem) b cleaned.keyed;
        built = λ u c h.
            inserted hash (remove_old s.uuid mem) b c u b.subscription_data.uuid cleaned fresh h;
      })
  build_sound s mem active (err e) made on new i =
      let map_after : (reload_one clients hash known context s mem active).0
          ≡ remove_old s.uuid mem =
        ground arith in
      rw map_after (IsSound-remove_old hash s.uuid mem i)

  reload_one-IsSound :
      (s : SubscriptionData P) (mem : Subscriptions P K R) (active : List InternalVersion)
      → IsSound hash mem
      → IsSound hash (reload_one clients hash known context s mem active).0
  unfolding reload_one
  reload_one-IsSound s mem active i = elim (Bool-cases (is_active s)) [
    | inl on ↦ elim (Bool-cases (HashSet.contains s.internal_version known)) [
      | inl old ↦
          let same : (reload_one clients hash known context s mem active).0 ≡ mem = ground arith in
          rw same i
      | inr new ↦ build_sound s mem active _ refl on new i
    ]
    | inr off ↦
        let same : (reload_one clients hash known context s mem active).0 ≡ mem = ground arith in
        rw same i
  ]

  reload_all-IsSound :
      (ss : List (SubscriptionData P)) (mem : Subscriptions P K R) (active : List InternalVersion)
      → IsSound hash mem
      → IsSound hash (reload_all clients hash known context ss mem active).0
  unfolding reload_all
  reload_all-IsSound [] mem active i = i
  reload_all-IsSound (s ∷ ss) mem active i =
      by_result (reload_one clients hash known context s mem active).1 refl (λ between.
        reload_all-IsSound ss (reload_one clients hash known context s mem active).0 between
          (reload_one-IsSound s mem active i))
    where
      by_result :
          (r : Result (List InternalVersion))
          → (reload_one clients hash known context s mem active).1 ≡ r
          → ((between : List InternalVersion)
              → IsSound hash
                  (reload_all clients hash known context ss
                    (reload_one clients hash known context s mem active).0
                    between).0)
          → IsSound hash (reload_all clients hash known context (s ∷ ss) mem active).0
      by_result (ok between) e ih = rw (e, reload_all) (ih between)
      by_result (err x) e ih = rw (e, reload_all) (reload_one-IsSound s mem active i)

module _ {P K R : Type 0} (clients : Clients K R) (hash : SubscriptionParameters → Result ℕ) where
  locked-IsSound :
      (db : List (SubscriptionData P)) (m : Memory P K R)
      → IsSound hash m.subscriptions
      → IsSound hash (reload_locked clients hash db m).0.subscriptions
  unfolding reload_locked
  locked-IsSound db m i = by_result (looped).1 refl
    where
      looped : Subscriptions P K R × Result (List InternalVersion)
      looped =
          reload_all clients hash (HashSet.from_iter (internal_versions (values m.subscriptions)))
            m.context db m.subscriptions []

      by_result :
          (r : Result (List InternalVersion))
          → looped.1 ≡ r
          → IsSound hash (reload_locked clients hash db m).0.subscriptions
      by_result (ok active) e =
          rw (e, reload_locked)
            (IsSound-prune hash active looped.0
              (reload_all-IsSound clients hash _ m.context db m.subscriptions [] i))
      by_result (err x) e =
          rw (e, reload_locked)
            (reload_all-IsSound clients hash _ m.context db m.subscriptions [] i)

  forget-IsSound :
      (keep : Bool) (m : Memory P K R)
      → IsSound hash m.subscriptions
      → IsSound hash (forget clients hash keep m).subscriptions
  forget-IsSound true m i = i
  forget-IsSound false m i = IsSound-nil hash

  -- However a reload ends, with an error at any point or with success, each subscription in memory
  -- stands under its own identifier, once, and has the public version, outputs and formats of its
  -- data.
  pub reload_subscriptions-IsSound :
      (db : Result (List (SubscriptionData P))) (keep_already_existing : Bool) (m : Memory P K R)
      → IsSound hash m.subscriptions
      → IsSound hash (reload_subscriptions clients hash db keep_already_existing m).0.subscriptions
  unfolding reload_subscriptions
  reload_subscriptions-IsSound (err e) keep m i = i
  reload_subscriptions-IsSound (ok db) keep m i =
      by_context (initialize_missing clients db m.context).1 refl
    where
      ready : Memory P K R
      ready = record m { context = (initialize_missing clients db m.context).0 }

      by_context :
          (r : Result (Unit {0}))
          → (initialize_missing clients db m.context).1 ≡ r
          → IsSound hash (reload_subscriptions clients hash (ok db) keep m).0.subscriptions
      by_context (ok _) e =
          rw (e, reload_subscriptions)
            (locked-IsSound db (forget clients hash keep ready) (forget-IsSound keep ready i))
      by_context (err x) e = rw (e, reload_subscriptions) i
