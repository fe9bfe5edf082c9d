-- ===== src/Server/Subscriptions/Step.antt =====
-- The loop over the subscriptions of the database, seen by identifiers and internal versions.
use openwec.Prelude.{
  Bool, true, false, not, ◌&&◌, ◌||◌, Option, none, some, List, [], ◌∷◌, ◌≡◌, ◌≢◌, refl, arith,
  Result, ok, err, ℕ, ◌==◌, find, if◌then◌else◌, Bool-cases, Option-cases, inl, inr,
}
use openwec.Prelude.Dict
use openwec.Prelude.Dict.{values, lookup, lookup-insert, lookup-remove}
use openwec.Prelude.HashSet
use openwec.Prelude.HashSet.{contains-insert}
use openwec.Subscription.Data.{
  SubscriptionData, SubscriptionParameters, SubscriptionUuid, InternalVersion, subscription_uuid_eq,
  internal_version_eq, is_active,
}
use openwec.Server.Drivers.{Clients}
use openwec.Server.Output.{OutputDriversContext}
use openwec.Server.Subscriptions.{Subscription, Subscriptions, from_data, remove_old, reload_one}
use openwec.Server.Subscriptions.Build.{from_data-IsBuilt}
use openwec.Server.Subscriptions.Prune.{IsKeyed, IsKeyed-insert, IsKeyed-remove, data_at}

-- The subscriptions that the loop builds: active, and of an internal version not yet in memory.
abbrev pub pending : {P : Type 0} → List InternalVersion → SubscriptionData P → Bool
pending known s = is_active s && not (HashSet.contains s.internal_version known)

abbrev pub or_else {ℓ} : {A : Type ℓ} → Option A → Option A → Option A
or_else none b = b
or_else (some a) b = some a

find-holds {ℓ} : {A : Type ℓ} (p : A → Bool) (xs : List A) (x : A) → find p xs ≡ some x → p x ≡ true
find-holds p [] x h = cc
find-holds p (y ∷ ys) x h = ground (arith, find-holds p ys x)

module _ {P K R : Type 0} where
  abbrev pub has_uuid : SubscriptionUuid → Subscription P K R → Bool
  has_uuid w old = w == old.subscription_data.uuid

  -- Removing the old subscription of an identifier concerns no other identifier.
  lookup-remove_old :
      (u w : SubscriptionUuid) (mem : Subscriptions P K R)
      → u ≢ w
      → lookup u (remove_old w mem) ≡ lookup u mem
  unfolding remove_old
  lookup-remove_old u w mem other = elim (Option-cases (find (has_uuid w) (values mem))) [
    | inl none_found ↦ rw (none_found, remove_old)
    | inr (old, found) ↦
        rw (found, remove_old)
          (ground (
            arith,
            lookup-remove u old.subscription_data.uuid mem,
            find-holds (has_uuid w) (values mem) old found,
          ))
  ]

  pub IsKeyed-remove_old :
      (w : SubscriptionUuid) (mem : Subscriptions P K R) → IsKeyed mem → IsKeyed (remove_old w mem)
  unfolding remove_old
  IsKeyed-remove_old w mem k = elim (Option-cases (find (has_uuid w) (values mem))) [
    | inl none_found ↦ rw (none_found, remove_old) k
    | inr (old, found) ↦ rw (found, remove_old) (IsKeyed-remove mem old.subscription_data.uuid k)
  ]

  -- What a round makes of the map and of the set of the active versions.
  pub record Stepped (known : List InternalVersion) (s : SubscriptionData P)
      (mem mem' : Subscriptions P K R) (active active' : List InternalVersion) : Type 0 where
    pub data_after :
        (u : SubscriptionUuid)
        → data_at u mem' ≡ (if pending known s && u == s.uuid then some s else data_at u mem)
    pub active_after :
        (v : InternalVersion)
        → HashSet.contains v active'
          ≡ ((is_active s && v == s.internal_version) || HashSet.contains v active)
    pub keyed_after : IsKeyed mem → IsKeyed mem'

module _ {P K R : Type 0} (clients : Clients K R) (hash : SubscriptionParameters → Result ℕ)
    (known : List InternalVersion) (context : OutputDriversContext K) where
  inserted :
      (s : SubscriptionData P) (b : Subscription P K R) (mem : Subscriptions P K R)
      (active : List InternalVersion)
      → pending known s ≡ true
      → b.subscription_data ≡ s
      → Stepped known s mem
          (Dict.insert b.subscription_data.uuid b (remove_old s.uuid mem))
          active
          (HashSet.insert s.internal_version active)
  inserted s b mem active new e = record {
    data_after = λ u. ground (
      arith,
      lookup-insert u b.subscription_data.uuid b (remove_old s.uuid mem),
      lookup-remove_old u s.uuid mem,
    );
    active_after = λ v. ground (arith, contains-insert v s.internal_version active);
    keyed_after = λ k. IsKeyed-insert _ b (IsKeyed-remove_old s.uuid mem k);
  }

  built_step :
      (s : SubscriptionData P) (mem : Subscriptions P K R) (active active' : List InternalVersion)
      (r : Result (Subscription P K R))
      → from_data clients hash s context ≡ r
      → is_active s ≡ true
      → HashSet.contains s.internal_version known ≡ false
      → (reload_one clients hash known context s mem active).1 ≡ ok active'
      → Stepped known s mem (reload_one clients hash known context s mem active).0 active active'
  unfolding reload_one
  built_step s mem active active' (ok b) made on new h =
      let result : HashSet.insert s.internal_version active ≡ active' = ground arith in
      let map_after : (reload_one clients hash known context s mem active).0
          ≡ Dict.insert b.subscription_data.uuid b (remove_old s.uuid mem) =
        ground arith in
      rw (map_after, ← result)
        (inserted s b mem active (ground arith) (from_data-IsBuilt clients context hash s b made).0)
  built_step s mem active active' (err e) made on new h = ground arith

  pub reload_one-Stepped :
      (s : SubscriptionData P) (mem : Subscriptions P K R) (active active' : List InternalVersion)
      → (reload_one clients hash known context s mem active).1 ≡ ok active'
      → Stepped known s mem (reload_one clients hash known context s mem active).0 active active'
  unfolding reload_one
  reload_one-Stepped s mem active active' h = elim (Bool-cases (is_active s)) [
    | inl on ↦ elim (Bool-cases (HashSet.contains s.internal_version known)) [
      | inl old ↦
          let result : HashSet.insert s.internal_version active ≡ active' = ground arith in
          let map_after : (reload_one clients hash known context s mem active).0 ≡ mem =
            ground arith in
          rw (map_after, ← result)
            (record {
              data_after = λ u. ground arith;
              active_after = λ v. ground (arith, contains-insert v s.internal_version active);
              keyed_after = λ k. k;
            })
      | inr new ↦ built_step s mem active active' _ refl on new h
    ]
    | inr off ↦
        let result : active ≡ active' = ground arith in
        let map_after : (reload_one clients hash known context s mem active).0 ≡ mem =
          ground arith in
        rw (map_after, ← result)
          (record {
            data_after = λ u. ground arith;
            active_after = λ v. ground arith;
            keyed_after = λ k. k;
          })
  ]
