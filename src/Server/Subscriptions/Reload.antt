-- ===== src/Server/Subscriptions/Reload.antt =====
-- The map in memory after the loop and the removals, against the database.
use openwec.Prelude.{
  true, false, ◌&&◌, Option, none, some, List, [], ◌≡◌, inl, inr, sym, ◌∙◌, ap, arith, ◌==◌, find,
  Bool-cases, Option-cases,
}
use mathlib.Core.Path.{subst}
use openwec.Prelude.Dict.{lookup, values}
use openwec.Prelude.HashSet
use openwec.Prelude.HashSet.{contains-from_iter}
use openwec.Subscription.Data.{
  SubscriptionData, SubscriptionUuid, InternalVersion, subscription_uuid_eq, internal_version_eq,
  is_active,
}
use openwec.Server.Subscriptions.{Subscription, Subscriptions, internal_versions, prune}
use openwec.Server.Subscriptions.Prune.{IsKeyed, data_at, lookup-prune}
use openwec.Server.Subscriptions.Step.{pending, or_else}
use openwec.Server.Subscriptions.Loop.{DistinctUuids, Looped}
use openwec.Server.Subscriptions.Members.{
  Among, find-Among, any-Among, any_of_Among, find_at, known_version,
}

-- What ties memory to the database: identifiers are distinct in the database, and an internal version
-- stands for one content, in the database and in memory.
pub record IsConsistent {P K R : Type 0} (db : List (SubscriptionData P))
    (mem : Subscriptions P K R) : Type 0 where
  pub uuids : DistinctUuids db
  pub content :
      (u : SubscriptionUuid) (b : Subscription P K R) (s : SubscriptionData P)
      → lookup u mem ≡ some b
      → Among s db
      → b.subscription_data.internal_version ≡ s.internal_version
      → b.subscription_data ≡ s

-- The active subscription of the database with an identifier.
abbrev pub active_in :
    {P : Type 0} → List (SubscriptionData P) → SubscriptionUuid → Option (SubscriptionData P)
active_in db u = find (λ s. is_active s && u == s.uuid) db

module _ {P K R : Type 0} (db : List (SubscriptionData P)) (mem mem' : Subscriptions P K R)
    (active : List InternalVersion) (u : SubscriptionUuid) (keyed : IsKeyed mem)
    (consistent : IsConsistent db mem)
    (looped : Looped
      (HashSet.from_iter (internal_versions (values mem)))
      db
      mem
      mem'
      []
      active) where
  abbrev known : List InternalVersion
  known = HashSet.from_iter (internal_versions (values mem))

  active_found :
      (s : SubscriptionData P)
      → Among s db
      → is_active s ≡ true
      → HashSet.contains s.internal_version active ≡ true
  unfolding HashSet.contains
  active_found s m on = ground (
    arith,
    looped.active_after s.internal_version,
    any_of_Among (λ t. is_active t && s.internal_version == t.internal_version) db s m
        (ground arith),
  )

  -- A subscription of the database with the version of one in memory is that one's data, and stands
  -- in memory under its identifier.
  kept :
      (s : SubscriptionData P)
      → Among s db
      → s.uuid ≡ u
      → HashSet.contains s.internal_version known ≡ true
      → data_at u mem ≡ some s
  kept s m own old =
      let (w, b, found, same) =
        known_version mem s.internal_version keyed
          (sym (contains-from_iter s.internal_version (internal_versions (values mem))) ∙ old) in
      let e : b.subscription_data ≡ s = consistent.content w b s found m same in
      let key : b.subscription_data.uuid ≡ w = keyed.own w b found in
      let at : w ≡ u = cc in
      let here : lookup u mem ≡ some b = subst (λ x. lookup x mem ≡ some b) at found in
      rw here (ap some e)

  pending_test :
      (s : SubscriptionData P)
      → is_active s ≡ true
      → HashSet.contains s.internal_version known ≡ false
      → pending known s ≡ true
  pending_test s on new = ground arith

  -- What the loop builds is an active subscription of the database.
  pending_found :
      (s : SubscriptionData P)
      → find (λ t. pending known t && u == t.uuid) db ≡ some s
      → (active_in db u ≡ some s) × (HashSet.contains s.internal_version known ≡ false)
  pending_found s h =
      let (holds, m) = find-Among (λ t. pending known t && u == t.uuid) db s h in
      (find_at is_active db s u consistent.uuids m (ground arith) (ground arith), ground arith)

  -- An active subscription of the database is in memory after the loop.
  present : (s : SubscriptionData P) → active_in db u ≡ some s → data_at u mem' ≡ some s
  present s h =
      let (holds, m) = find-Among (λ t. is_active t && u == t.uuid) db s h in
      let own : s.uuid ≡ u = ground arith in
      let on : is_active s ≡ true = ground arith in
      elim (Bool-cases (HashSet.contains s.internal_version known)) [
        | inr new ↦
            looped.data_after u
            ∙ ap (λ o. or_else o (data_at u mem))
                (find_at (pending known) db s u consistent.uuids m (pending_test s on new) own)
        | inl old ↦ elim (Option-cases (find (λ t. pending known t && u == t.uuid) db)) [
          | inl nothing ↦
              looped.data_after u ∙ ap (λ o. or_else o (data_at u mem)) nothing ∙ kept s m own old
          | inr (t, found) ↦ let (active_t, new) = pending_found t found in absurd (ground arith)
        ]
      ]

  -- A subscription that stays in memory with an active version is active in the database.
  active_version :
      (b : Subscription P K R)
      → lookup u mem ≡ some b
      → HashSet.contains b.subscription_data.internal_version active ≡ true
      → active_in db u ≡ some b.subscription_data
  unfolding HashSet.contains
  active_version b here listed =
      let v = b.subscription_data.internal_version in
      let (s, m, test) =
        any-Among (λ t. is_active t && v == t.internal_version) db
          (ground (arith, looped.active_after v)) in
      let e : b.subscription_data ≡ s = consistent.content u b s here m (ground arith) in
      let own : s.uuid ≡ u = ap (λ (t : SubscriptionData P). t.uuid) (sym e) ∙ keyed.own u b here in
      find_at is_active db s u consistent.uuids m (ground arith) own ∙ ap some (sym e)

  -- Without an active subscription in the database, the loop leaves the identifier as it was.
  untouched : active_in db u ≡ none → data_at u mem' ≡ data_at u mem
  untouched h = elim (Option-cases (find (λ t. pending known t && u == t.uuid) db)) [
    | inl nothing ↦ looped.data_after u ∙ ap (λ o. or_else o (data_at u mem)) nothing
    | inr (t, found) ↦ let (active_t, new) = pending_found t found in absurd (ground arith)
  ]

  stale :
      (b' : Subscription P K R)
      → active_in db u ≡ none
      → lookup u mem' ≡ some b'
      → HashSet.contains b'.subscription_data.internal_version active ≡ false
  stale b' h here' = elim (Option-cases (lookup u mem)) [
    | inl nothing ↦ absurd (ground (arith, untouched h))
    | inr (b, here) ↦
        let e : b'.subscription_data ≡ b.subscription_data = ground (arith, untouched h) in
        elim (Bool-cases (HashSet.contains b'.subscription_data.internal_version active)) [
          | inr fine ↦ fine
          | inl listed ↦
              let listed' : HashSet.contains b.subscription_data.internal_version active ≡ true =
                ap (λ (t : SubscriptionData P). HashSet.contains t.internal_version active) (sym e)
                ∙ listed in
              absurd (ground (arith, active_version b here listed'))
        ]
  ]

  pub data_at-prune : IsKeyed mem' → data_at u (prune active mem') ≡ active_in db u
  data_at-prune k = elim (Option-cases (active_in db u)) [
    | inl nothing ↦ elim (Option-cases (lookup u mem')) [
      | inl gone ↦ ground (arith, lookup-prune u active mem' k)
      | inr (b, here) ↦ ground (arith, lookup-prune u active mem' k, stale b nothing here)
    ]
    | inr (s, found) ↦ elim (Option-cases (lookup u mem')) [
      | inl gone ↦ absurd (ground (arith, present s found))
      | inr (b, here) ↦
          let (holds, m) = find-Among (λ t. is_active t && u == t.uuid) db s found in
          let e : b.subscription_data ≡ s = ground (arith, present s found) in
          let listed : HashSet.contains b.subscription_data.internal_version active ≡ true =
            ap (λ (t : SubscriptionData P). HashSet.contains t.internal_version active) e
            ∙ active_found s m (ground arith) in
          ground (arith, lookup-prune u active mem' k)
    ]
  ]
