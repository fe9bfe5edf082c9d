-- ===== src/Server/Subscriptions/Refinement.antt =====
-- `reload_subscriptions` against the database: what memory holds afterwards, and what it keeps.
use openwec.Prelude.{Bool, true, false, List, [], ◌≡◌, refl, arith, Result, ok, err, ℕ}
use openwec.Prelude.Dict.{values, lookup}
use openwec.Prelude.HashSet
use openwec.Subscription.Data.{
  SubscriptionData, SubscriptionParameters, SubscriptionUuid, InternalVersion, subscription_uuid_eq,
  internal_version_eq,
}
use openwec.Server.Drivers.{Clients}
use openwec.Server.Output.{OutputDriversContext, initialize_missing}
use openwec.Server.Subscriptions.{
  Subscriptions, Memory, internal_versions, reload_all, reload_locked, forget, reload_subscriptions,
}
use openwec.Server.Subscriptions.Prune.{IsKeyed, IsKeyed-nil, data_at}
use openwec.Server.Subscriptions.Loop.{reload_all-Looped}
use openwec.Server.Subscriptions.Reload.{IsConsistent, active_in, data_at-prune}

module _ {P K R : Type 0} where
  IsConsistent-nil :
      (db : List (SubscriptionData P)) (mem : Subscriptions P K R)
      → IsConsistent db mem
      → IsConsistent {P = P} {K = K} {R = R} db []
  unfolding lookup
  IsConsistent-nil db mem c = record { uuids = c.uuids; content = λ u b s h. cc }

module _ {P K R : Type 0} (clients : Clients K R) (hash : SubscriptionParameters → Result ℕ) where
  locked-active :
      (db : List (SubscriptionData P)) (m : Memory P K R) (u : SubscriptionUuid)
      (r : Result (List InternalVersion))
      → IsKeyed m.subscriptions
      → IsConsistent db m.subscriptions
      → (reload_all clients hash
          (HashSet.from_iter (internal_versions (values m.subscriptions)))
          m.context
          db
          m.subscriptions
          []).1
        ≡ r
      → (reload_locked clients hash db m).1 ≡ ok tt
      → data_at u (reload_locked clients hash db m).0.subscriptions ≡ active_in db u
  unfolding reload_locked
  locked-active db m u (ok active) k c e h =
      let known = HashSet.from_iter (internal_versions (values m.subscriptions)) in
      let looped =
        reload_all-Looped clients hash known m.context db m.subscriptions [] active c.uuids e in
      rw (e, reload_locked)
        (data_at-prune db m.subscriptions _ active u k c looped (looped.keyed_after k))
  locked-active db m u (err x) k c e h = absurd (ground arith)

  forgotten :
      (db : List (SubscriptionData P)) (keep : Bool) (m : Memory P K R)
      → IsKeyed m.subscriptions
      → IsConsistent db m.subscriptions
      → IsKeyed (forget clients hash keep m).subscriptions
        × IsConsistent db (forget clients hash keep m).subscriptions
  forgotten db true m k c = (k, c)
  forgotten db false m k c = (IsKeyed-nil, IsConsistent-nil db m.subscriptions c)

  -- After a reload that succeeds, on the timer or on SIGHUP, memory holds under each identifier
  -- exactly the active subscription that the database has for it, if it has one. Before the reload
  -- every subscription stands under its own identifier, the identifiers in the database are distinct,
  -- and an internal version that is in memory and in the database stands for one content.
  pub reload_subscriptions-active :
      (db : List (SubscriptionData P)) (keep_already_existing : Bool) (m : Memory P K R)
      (u : SubscriptionUuid)
      → IsKeyed m.subscriptions
      → IsConsistent db m.subscriptions
      → (reload_subscriptions clients hash (ok db) keep_already_existing m).1 ≡ ok tt
      → data_at u
          (reload_subscriptions clients hash (ok db) keep_already_existing m).0.subscriptions
        ≡ active_in db u
  unfolding reload_subscriptions
  reload_subscriptions-active db keep m u k c h =
      by_context (initialize_missing clients db m.context).1 refl
    where
      context : OutputDriversContext K
      context = (initialize_missing clients db m.context).0

      by_context :
          (r : Result (Unit {0}))
          → (initialize_missing clients db m.context).1 ≡ r
          → data_at u (reload_subscriptions clients hash (ok db) keep m).0.subscriptions
            ≡ active_in db u
      by_context (ok _) e =
          let ready : Memory P K R = record m { context = context } in
          let (k', c') = forgotten db keep ready k c in
          rw (e, reload_subscriptions)
            (locked-active db (forget clients hash keep ready) u _ k' c' refl
              (rw (e, reload_subscriptions) at h))
      by_context (err x) e = let failed = rw (e, reload_subscriptions) at h in cc
