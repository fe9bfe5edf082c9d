-- ===== src/Server/Subscriptions/Prune.antt =====
-- The map in memory seen by its identifiers, and what the removals leave of it.
use openwec.Prelude.{
  Bool, false, not, Option, none, some, List, [], ◌∷◌, map, ◌≡◌, refl, arith, keep, if◌then◌else◌,
}
use openwec.Prelude.Dict
use openwec.Prelude.Dict.{
  Dict, values, lookup, NodupKeys, lookup-insert, lookup-remove, insert-NodupKeys, remove-NodupKeys,
}
use openwec.Prelude.HashSet
use openwec.Prelude.HashSet.{contains-from_iter}
use openwec.Subscription.Data.{
  SubscriptionData, SubscriptionUuid, InternalVersion, subscription_uuid_eq, internal_version_eq,
}
use openwec.Server.Subscriptions.{Subscription, Subscriptions, remove_all, prune}

module _ {P K R : Type 0} where
  -- Each subscription stands under its own identifier, once.
  pub record IsKeyed (mem : Subscriptions P K R) : Type 0 where
    pub distinct : NodupKeys mem
    pub own :
        (uuid : SubscriptionUuid) (s : Subscription P K R)
        → lookup uuid mem ≡ some s
        → s.subscription_data.uuid ≡ uuid

  -- The data under an identifier.
  abbrev pub data_of : Option (Subscription P K R) → Option (SubscriptionData P)
  data_of none = none
  data_of (some s) = some s.subscription_data

  abbrev pub data_at : SubscriptionUuid → Subscriptions P K R → Option (SubscriptionData P)
  data_at uuid mem = data_of (lookup uuid mem)

  pub IsKeyed-nil : IsKeyed []
  unfolding lookup
  IsKeyed-nil = record { distinct = tt; own = λ uuid s h. cc }

  pub IsKeyed-insert :
      (mem : Subscriptions P K R) (s : Subscription P K R)
      → IsKeyed mem
      → IsKeyed (Dict.insert s.subscription_data.uuid s mem)
  IsKeyed-insert mem s k = record {
    distinct = insert-NodupKeys s.subscription_data.uuid s mem k.distinct;
    own =
        λ uuid t h. ground (arith, lookup-insert uuid s.subscription_data.uuid s mem, k.own uuid t);
  }

  pub IsKeyed-remove :
      (mem : Subscriptions P K R) (uuid : SubscriptionUuid)
      → IsKeyed mem
      → IsKeyed (Dict.remove uuid mem)
  IsKeyed-remove mem uuid k = record {
    distinct = remove-NodupKeys uuid mem k.distinct;
    own = λ u t h. ground (arith, lookup-remove u uuid mem, k.own u t);
  }

  pub IsKeyed-remove_all :
      (uuids : List SubscriptionUuid) (mem : Subscriptions P K R)
      → IsKeyed mem
      → IsKeyed (remove_all uuids mem)
  IsKeyed-remove_all [] mem k = k
  IsKeyed-remove_all (u ∷ us) mem k =
      IsKeyed-remove_all us (Dict.remove u mem) (IsKeyed-remove mem u k)

  lookup-remove_all :
      (u : SubscriptionUuid) (uuids : List SubscriptionUuid) (mem : Subscriptions P K R)
      → lookup u (remove_all uuids mem) ≡ (if HashSet.contains u uuids then none else lookup u mem)
  unfolding HashSet.contains
  lookup-remove_all u [] mem = refl
  lookup-remove_all u (w ∷ ws) mem =
      ground (arith, lookup-remove_all u ws (Dict.remove w mem), lookup-remove u w mem)

  abbrev pub stale_at : List InternalVersion → Option (Subscription P K R) → Bool
  stale_at active none = false
  stale_at active (some s) = not (HashSet.contains s.subscription_data.internal_version active)

  abbrev pub stale_uuids : List InternalVersion → List (Subscription P K R) → List SubscriptionUuid
  stale_uuids active ss =
      map (λ (s : Subscription P K R). s.subscription_data.uuid)
        (keep
          (λ (s : Subscription P K R).
            not (HashSet.contains s.subscription_data.internal_version active))
          ss)

  own_head :
      (w : SubscriptionUuid) (s : Subscription P K R) (mem : Subscriptions P K R)
      → IsKeyed ((w, s) ∷ mem)
      → s.subscription_data.uuid ≡ w
  unfolding lookup
  own_head w s mem k = k.own w s (ground arith)

  pub IsKeyed-tail :
      (w : SubscriptionUuid) (s : Subscription P K R) (mem : Subscriptions P K R)
      → IsKeyed ((w, s) ∷ mem)
      → IsKeyed mem
  unfolding lookup
  IsKeyed-tail w s mem k = record {
    distinct = k.distinct.1;
    own = λ u t h. let absent = k.distinct.0 in k.own u t (ground arith);
  }

  contains-stale :
      (u : SubscriptionUuid) (active : List InternalVersion) (mem : Subscriptions P K R)
      → IsKeyed mem
      → HashSet.contains u (stale_uuids active (values mem)) ≡ stale_at active (lookup u mem)
  unfolding lookup HashSet.contains
  contains-stale u active [] k = refl
  contains-stale u active ((w, s) ∷ mem) k =
      let absent = k.distinct.0 in
      ground (arith, contains-stale u active mem (IsKeyed-tail w s mem k), own_head w s mem k)

  -- Of the map there stay the subscriptions whose internal version is active.
  pub lookup-prune :
      (u : SubscriptionUuid) (active : List InternalVersion) (mem : Subscriptions P K R)
      → IsKeyed mem
      → lookup u (prune active mem)
        ≡ (if stale_at active (lookup u mem) then none else lookup u mem)
  unfolding prune
  lookup-prune u active mem k = ground (
    arith,
    lookup-remove_all u (HashSet.from_iter (stale_uuids active (values mem))) mem,
    contains-from_iter u (stale_uuids active (values mem)),
    contains-stale u active mem k,
  )
