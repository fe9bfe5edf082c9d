-- ===== src/Server/Subscriptions/Build.antt =====
-- What the constructor of a subscription in memory computes.
use openwec.Prelude.{
  true, List, [], ◌∷◌, map, ◌≡◌, refl, Result, ok, >>=-eq-ok, ok-injective, arith, ap, ◌∙◌, ℕ, All,
  All-imp, keep, Bool-cases, inl, inr,
}
use openwec.Prelude.HashSet
use openwec.Prelude.HashSet.{contains-from_iter}
use openwec.Subscription.Output.{
  SubscriptionOutput, SubscriptionOutputFormat, SubscriptionOutputDriver, format_eq,
}
use openwec.Subscription.Data.{
  SubscriptionData, SubscriptionParameters, PublicVersion, public_version,
}
use openwec.Server.Drivers.{Clients}
use openwec.Server.Output.{OutputDriversContext, DriverOutput, new_output, new_driver}
use openwec.Server.Subscriptions.{Subscription, collect_formats, create_outputs, from_data}

-- What holds of a subscription in memory: its public version and formats are those of its data, its
-- outputs are the enabled ones in their order, and the format of each is among the formats.
pub record IsBuilt {P K R : Type 0} (hash : SubscriptionParameters → Result ℕ)
    (s : Subscription P K R) : Type 0 where
  pub version : public_version hash s.subscription_data ≡ ok s.public_version
  pub drivers :
      map (λ (o : DriverOutput K R). o.subscription_output_driver) s.outputs
      ≡ map
          (λ (o : SubscriptionOutput). o.driver)
          (keep (λ (o : SubscriptionOutput). o.enabled) s.subscription_data.outputs)
  pub formats :
      (format : SubscriptionOutputFormat)
      → HashSet.contains format s.formats
        ≡ HashSet.contains format
            (map (λ (o : SubscriptionOutput). o.format) s.subscription_data.outputs)
  pub covered : All (λ (o : DriverOutput K R). HashSet.contains o.format s.formats ≡ true) s.outputs

module _ {K R : Type 0} (clients : Clients K R) (context : OutputDriversContext K) where
  new_output_fields :
      (o : SubscriptionOutput) (built : DriverOutput K R)
      → new_output clients o.format o.driver context ≡ ok built
      → (built.format ≡ o.format) × (built.subscription_output_driver ≡ o.driver)
  unfolding new_output
  new_output_fields o built h =
      let (driver, made, whole) = >>=-eq-ok (new_driver clients o.driver context) _ h in
      ground arith

  abbrev drivers_of : List (DriverOutput K R) → List SubscriptionOutputDriver
  drivers_of = map (λ o. o.subscription_output_driver)

  create_outputs-drivers :
      (os : List SubscriptionOutput) (built : List (DriverOutput K R))
      → create_outputs clients os context ≡ ok built
      → map (λ (o : DriverOutput K R). o.subscription_output_driver) built
        ≡ map
            (λ (o : SubscriptionOutput). o.driver)
            (keep (λ (o : SubscriptionOutput). o.enabled) os)
  unfolding create_outputs
  create_outputs-drivers [] built h = ground arith
  create_outputs-drivers (o ∷ os) built h = elim (Bool-cases o.enabled) [
    | inl on ↦
        let (first, made, rest) =
          >>=-eq-ok (new_output clients o.format o.driver context) _ (rw on at h) in
        let (others, more, whole) = >>=-eq-ok (create_outputs clients os context) _ rest in
        let e : drivers_of (first ∷ others) ≡ drivers_of built =
          ap drivers_of (ok-injective _ _ whole) in
        rw (on, ← e)
          (cc ((new_output_fields o first made).1, create_outputs-drivers os others more))
    | inr off ↦ rw off (create_outputs-drivers os built (rw off at h))
  ]

  abbrev Covered : List SubscriptionOutput → DriverOutput K R → Type 0
  Covered os o = HashSet.contains o.format (map (λ (p : SubscriptionOutput). p.format) os) ≡ true

  Covered-cons :
      (p : SubscriptionOutput) (os : List SubscriptionOutput) (o : DriverOutput K R)
      → Covered os o
      → Covered (p ∷ os) o
  unfolding HashSet.contains
  Covered-cons p os o h = ground arith

  Covered-head :
      (p : SubscriptionOutput) (os : List SubscriptionOutput) (o : DriverOutput K R)
      → o.format ≡ p.format
      → Covered (p ∷ os) o
  unfolding HashSet.contains
  Covered-head p os o h = ground arith

  create_outputs-Covered :
      (os : List SubscriptionOutput) (built : List (DriverOutput K R))
      → create_outputs clients os context ≡ ok built
      → All (Covered os) built
  unfolding create_outputs
  create_outputs-Covered [] built h = rw (← ok-injective _ _ h) tt
  create_outputs-Covered (o ∷ os) built h = elim (Bool-cases o.enabled) [
    | inl on ↦
        let (first, made, rest) =
          >>=-eq-ok (new_output clients o.format o.driver context) _ (rw on at h) in
        let (others, more, whole) = >>=-eq-ok (create_outputs clients os context) _ rest in
        rw (← ok-injective _ _ whole) (
          Covered-head o os first (new_output_fields o first made).0,
          All-imp others (Covered-cons o os) (create_outputs-Covered os others more),
        )
    | inr off ↦ All-imp built (Covered-cons o os) (create_outputs-Covered os built (rw off at h))
  ]

  module _ {P : Type 0} (hash : SubscriptionParameters → Result ℕ) where
    IsBuilt-fields :
        (s : SubscriptionData P) (outputs : List (DriverOutput K R)) (version : PublicVersion)
        → create_outputs clients s.outputs context ≡ ok outputs
        → public_version hash s ≡ ok version
        → IsBuilt {P = P} {K = K} {R = R} hash (record {
          subscription_data = s;
          public_version = version;
          outputs = outputs;
          formats = collect_formats s.outputs;
        })
    unfolding collect_formats
    IsBuilt-fields s outputs version created hashed = record {
      version = hashed;
      drivers = create_outputs-drivers s.outputs outputs created;
      formats = λ format. contains-from_iter format _;
      covered =
          All-imp outputs (λ o h. contains-from_iter o.format _ ∙ h)
            (create_outputs-Covered s.outputs outputs created);
    }

    -- A subscription that is built in memory keeps its data, has the public version of its data, an
    -- output for each enabled output of the data in their order, and every format of the data's
    -- outputs, among them that of each output.
    pub from_data-IsBuilt :
        (s : SubscriptionData P) (b : Subscription P K R)
        → from_data clients hash s context ≡ ok b
        → (b.subscription_data ≡ s) × IsBuilt hash b
    unfolding from_data
    from_data-IsBuilt s b h =
        let (outputs, created, rest) = >>=-eq-ok (create_outputs clients s.outputs context) _ h in
        let (version, hashed, whole) = >>=-eq-ok (public_version hash s) _ rest in
        rw (← ok-injective _ _ whole) (refl, IsBuilt-fields s outputs version created hashed)
