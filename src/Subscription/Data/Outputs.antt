-- ===== src/Subscription/Data/Outputs.antt =====
-- The outputs of a subscription after the indexed operations.
use openwec.Prelude.{
  ℕ, zero, suc, ◌<◌, ◌≤◌, Bool, some, List, [], ◌∷◌, ◌≡◌, refl, ok, err, anyhow, arith, length,
  get_elem?, set, remove_at, ltb, eqb, if◌then◌else◌,
}
use openwec.Subscription.Output.{SubscriptionOutput}
use openwec.Subscription.Data.{Uuid, SubscriptionData, delete_output, set_output_enabled}

get_elem?-remove_at {ℓ} :
    {A : Type ℓ} (xs : List A) (i j : ℕ)
    → get_elem? (remove_at xs i) j ≡ (if ltb j i then get_elem? xs j else get_elem? xs (suc j))
get_elem?-remove_at [] i j = ground arith
get_elem?-remove_at (x ∷ xs) zero j = ground arith
get_elem?-remove_at (x ∷ xs) (suc i) zero = ground arith
get_elem?-remove_at (x ∷ xs) (suc i) (suc j) = ground (arith, get_elem?-remove_at xs i j)

get_elem?-some {ℓ} :
    {A : Type ℓ} (xs : List A) (i : ℕ) → i < length xs → (x : A) × (get_elem? xs i ≡ some x)
get_elem?-some [] i h = elim h [ ]
get_elem?-some (x ∷ xs) zero h = (x, refl)
get_elem?-some (x ∷ xs) (suc i) h = get_elem?-some xs i (omega arith)

get_elem?-set {ℓ} :
    {A : Type ℓ} (xs : List A) (i j : ℕ) (v : A)
    → i < length xs
    → get_elem? (set xs i v) j ≡ (if eqb i j then some v else get_elem? xs j)
get_elem?-set [] i j v h = elim h [ ]
get_elem?-set (x ∷ xs) zero zero v h = ground arith
get_elem?-set (x ∷ xs) zero (suc j) v h = ground arith
get_elem?-set (x ∷ xs) (suc i) zero v h = ground arith
get_elem?-set (x ∷ xs) (suc i) (suc j) v h = ground (arith, get_elem?-set xs i j v)

module _ {P : Type 0} (s : SubscriptionData P) (index : ℕ) (fresh : Uuid) where
  -- At an index in range, deleting an output draws a new internal version, keeps the outputs before
  -- the index and moves those behind it down by one.
  pub get_elem?-delete_output :
      index < length s.outputs
      → (t : SubscriptionData P) × (delete_output index fresh s ≡ ok t)
        × (t.internal_version.uuid ≡ fresh)
        × ((j : ℕ)
            → get_elem? t.outputs j
              ≡ (if ltb j index then get_elem? s.outputs j else get_elem? s.outputs (suc j)))
  unfolding delete_output
  get_elem?-delete_output h = (
    record s { internal_version = record { uuid = fresh }; outputs = remove_at s.outputs index },
    ground arith,
    refl,
    λ j. get_elem?-remove_at s.outputs index j,
  )

  -- At an index in range, enabling or disabling an output draws a new internal version, sets the
  -- flag of that output and changes nothing else of it, nor any other output.
  pub get_elem?-set_output_enabled :
      (value : Bool)
      → index < length s.outputs
      → (t : SubscriptionData P) × (output : SubscriptionOutput) × (set_output_enabled index value
            fresh s
          ≡ ok t)
        × (t.internal_version.uuid ≡ fresh)
        × (get_elem? s.outputs index ≡ some output)
        × ((j : ℕ)
            → get_elem? t.outputs j ≡ (
                if eqb index j
                then some (record output { enabled = value })
                else get_elem? s.outputs j))
  unfolding set_output_enabled
  get_elem?-set_output_enabled value h =
      let (output, found) = get_elem?-some s.outputs index h in
      (
        record s {
          internal_version = record { uuid = fresh };
          outputs = set s.outputs index (record output { enabled = value });
        },
        output,
        ground arith,
        refl,
        found,
        λ j. get_elem?-set s.outputs index j (record output { enabled = value }) h,
      )

  -- Out of range both operations fail.
  pub outputs_out_of_range :
      (value : Bool)
      → length s.outputs ≤ index
      → (delete_output index fresh s ≡ err (anyhow "Index out of range"))
        × (set_output_enabled index value fresh s ≡ err (anyhow "Index out of range"))
  unfolding delete_output set_output_enabled
  outputs_out_of_range value h = ground arith
