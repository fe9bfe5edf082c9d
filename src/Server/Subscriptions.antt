-- ===== src/Server/Subscriptions.antt =====
-- The subscriptions in memory and their reload from the database: server/src/subscription.rs.
-- `Arc` and the read-write lock are not modelled: a reload runs under the write lock.
pub mod Build
pub mod Step
pub mod Prune
pub mod Loop
pub mod Members
pub mod Reload
pub mod Refinement
pub mod Soundness
pub mod Task
pub mod Success
use openwec.Prelude.{
  String, Bool, true, false, not, ◌&&◌, Option, none, some, List, [], ◌∷◌, map, Result, ok, err,
  Error, ◌>>=◌, ℕ, ◌==◌, find, keep, if◌then◌else◌,
}
use openwec.Prelude.Dict
use openwec.Prelude.Dict.{Dict, values}
use openwec.Prelude.HashSet
use openwec.Subscription.Output.{SubscriptionOutput, SubscriptionOutputFormat, format_eq}
use openwec.Subscription.Data.{
  SubscriptionData, SubscriptionParameters, SubscriptionUuid, InternalVersion, PublicVersion,
  subscription_uuid_eq, internal_version_eq, public_version, is_active,
}
use openwec.Server.Drivers.{Clients}
use openwec.Server.Output.{
  OutputDriversContext, DriverOutput, new_output, initialize_missing, clear,
}

pub record Subscription (P K R : Type 0) : Type 0 where
  pub subscription_data : SubscriptionData P
  pub public_version : PublicVersion
  pub outputs : List (DriverOutput K R)
  pub formats : List SubscriptionOutputFormat

abbrev pub Subscriptions : Type 0 → Type 0 → Type 0 → Type 0
Subscriptions P K R = Dict SubscriptionUuid (Subscription P K R)

-- The set of the formats of all outputs, enabled or not.
unfoldable pub collect_formats : List SubscriptionOutput → List SubscriptionOutputFormat
unfolding HashSet.extend
collect_formats outputs = HashSet.from_iter (map (λ output. output.format) outputs)

module _ {P K R : Type 0} where
  abbrev pub internal_versions : List (Subscription P K R) → List InternalVersion
  internal_versions = map (λ s. s.subscription_data.internal_version)

  -- The old subscription with the identifier, if there is one, leaves the map.
  unfoldable pub remove_old : SubscriptionUuid → Subscriptions P K R → Subscriptions P K R
  unfolding Dict.remove
  remove_old uuid mem = elim (find (λ old. uuid == old.subscription_data.uuid) (values mem)) [
    | none ↦ mem
    | some old ↦ Dict.remove old.subscription_data.uuid mem
  ]

  abbrev pub remove_all : List SubscriptionUuid → Subscriptions P K R → Subscriptions P K R
  remove_all [] mem = mem
  remove_all (uuid ∷ uuids) mem = remove_all uuids (Dict.remove uuid mem)

  -- The subscriptions whose internal version is not active leave the map.
  unfoldable pub prune : List InternalVersion → Subscriptions P K R → Subscriptions P K R
  unfolding Dict.remove HashSet.contains HashSet.extend
  prune active mem =
      let stale =
        keep
          (λ (s : Subscription P K R).
            not (HashSet.contains s.subscription_data.internal_version active))
          (values mem) in
      remove_all
        (HashSet.from_iter (map (λ (s : Subscription P K R). s.subscription_data.uuid) stale)) mem

module _ {K R : Type 0} (clients : Clients K R) where
  unfoldable pub create_outputs :
      List SubscriptionOutput → OutputDriversContext K → Result (List (DriverOutput K R))
  unfolding new_output
  create_outputs [] context = ok []
  create_outputs (o ∷ os) context =
      if o.enabled
      then (do
        output ← new_output clients o.format o.driver context
        outputs ← create_outputs os context
        ok (output ∷ outputs))
      else create_outputs os context

module _ {P K R : Type 0} (clients : Clients K R) (hash : SubscriptionParameters → Result ℕ) where
  unfoldable pub from_data :
      SubscriptionData P → OutputDriversContext K → Result (Subscription P K R)
  unfolding create_outputs collect_formats public_version
  from_data s context = do
    outputs ← create_outputs clients s.outputs context
    version ← public_version hash s
    ok (record {
      subscription_data = s;
      public_version = version;
      outputs = outputs;
      formats = collect_formats s.outputs;
    })

  -- One round of the loop over the subscriptions of the database: the map, and the set of the
  -- active internal versions. `known` holds the internal versions in memory at the start.
  unfoldable pub reload_one :
      List InternalVersion
      → OutputDriversContext K
      → SubscriptionData P
      → Subscriptions P K R
      → List InternalVersion
      → Subscriptions P K R × Result (List InternalVersion)
  unfolding from_data remove_old HashSet.insert HashSet.contains Dict.insert is_active
  reload_one known context s mem active =
      let active' = HashSet.insert s.internal_version active in
      let cleaned = remove_old s.uuid mem in
      if not (is_active s)
      then (mem, ok active)
      else if HashSet.contains s.internal_version known
      then (mem, ok active')
      else elim (from_data s context) [
        | err e ↦ (cleaned, err e)
        | ok built ↦ (Dict.insert built.subscription_data.uuid built cleaned, ok active')
      ]

  -- An error ends the loop; what was done to the map before stays done.
  unfoldable pub reload_all :
      List InternalVersion
      → OutputDriversContext K
      → List (SubscriptionData P)
      → Subscriptions P K R
      → List InternalVersion
      → Subscriptions P K R × Result (List InternalVersion)
  reload_all known context [] mem active = (mem, ok active)
  reload_all known context (s ∷ ss) mem active =
      let (mem', r) = reload_one known context s mem active in
      elim r [ ok active' ↦ reload_all known context ss mem' active' | err e ↦ (mem', err e) ]

pub record Memory (P K R : Type 0) : Type 0 where
  pub subscriptions : Subscriptions P K R
  pub context : OutputDriversContext K

module _ {P K R : Type 0} (clients : Clients K R) (hash : SubscriptionParameters → Result ℕ) where
  -- From the lock on: the loop over the database's subscriptions, then the removals.
  unfoldable pub reload_locked :
      List (SubscriptionData P) → Memory P K R → Memory P K R × Result (Unit {0})
  unfolding reload_all prune HashSet.extend
  reload_locked subscriptions m =
      let known = HashSet.from_iter (internal_versions (values m.subscriptions)) in
      let (mem, r) = reload_all clients hash known m.context subscriptions m.subscriptions [] in
      elim r [
        | err e ↦ (record m { subscriptions = mem }, err e)
        | ok active ↦ (record m { subscriptions = prune active mem }, ok tt)
      ]

  abbrev pub forget : Bool → Memory P K R → Memory P K R
  forget true m = m
  forget false m = record { subscriptions = []; context = clear m.context }

  -- The first argument is what `get_subscriptions` returned.
  unfoldable pub reload_subscriptions :
      Result (List (SubscriptionData P)) → Bool → Memory P K R → Memory P K R × Result (Unit {0})
  unfolding reload_locked initialize_missing clear
  reload_subscriptions (err e) keep_already_existing m = (m, err e)
  reload_subscriptions (ok subscriptions) keep_already_existing m =
      let (context, r) = initialize_missing clients subscriptions m.context in
      let ready = record m { context = context } in
      elim r [
        | err e ↦ (ready, err (Error.context "Failed to initialize output drivers context" e))
        | ok _ ↦ reload_locked subscriptions (forget keep_already_existing ready)
      ]
