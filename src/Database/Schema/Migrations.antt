-- ===== src/Database/Schema/Migrations.antt =====
-- Which migrations are applied after `up` and `down`.
use openwec.Prelude.{
  Bool, true, false, not, ◌&&◌, ◌||◌, Option, none, some, List, [], ◌∷◌, ◌≡◌, refl, arith, ok, leb,
  nat_eq, ◌==◌, eq_of_==, ==-refl, ap, ◌≤◌, keep, any, Bool-cases, Option-cases, inl, inr,
}
use openwec.Prelude.HashSet
use openwec.Prelude.HashSet.{contains, contains-append, contains-remove}
use openwec.Database.Schema.{
  Version, Scripts, Schema, current_version, apply_migration, revert_migration, within_range,
  apply_all, revert_all, reverse, up, down, schema_is_up_to_date,
}

contains-keep :
    (p : Version → Bool) (v : Version) (vs : List Version)
    → contains v (keep p vs) ≡ (contains v vs && p v)
unfolding contains
contains-keep p v [] = refl
contains-keep p v (x ∷ xs) = elim (Bool-cases (v == x)) [
  | inl same ↦ ground (arith, contains-keep p v xs, ap p (eq_of_== v x same))
  | inr other ↦ ground (arith, contains-keep p v xs)
]

contains-reverse : (v : Version) (vs : List Version) → contains v (reverse vs) ≡ contains v vs
unfolding contains
contains-reverse v [] = refl
contains-reverse v (x ∷ xs) =
    ground (arith, contains-append v (reverse xs) (x ∷ []), contains-reverse v xs)

-- All the versions are registered.
abbrev Registered : List Version → Schema → Type 0
Registered vs s = (v : Version) → contains v vs ≡ true → contains v s.migrations ≡ true

Registered-head :
    (v : Version) (vs : List Version) (s : Schema)
    → Registered (v ∷ vs) s
    → contains v s.migrations ≡ true
unfolding contains
Registered-head v vs s r = r v (ground (arith, ==-refl v))

Registered-tail :
    (v : Version) (vs : List Version) (s : Schema) → Registered (v ∷ vs) s → Registered vs s
unfolding contains
Registered-tail v vs s r w c = r w (ground (arith, c))

module _ (scripts : Scripts) where
  module _ (works : (v : Version) → scripts.up v ≡ ok tt) where
    contains-apply_all :
        (v : Version) (vs : List Version) (s : Schema) (applied : List Version)
        → Registered vs s
        → contains v (apply_all scripts false vs s applied).0.migrated
          ≡ (contains v s.migrated || contains v vs)
    unfolding contains apply_all apply_migration
    contains-apply_all v [] s applied r = ground arith
    contains-apply_all v (x ∷ xs) s applied r =
        let here = Registered-head x xs s r in
        let s' : Schema = record s { migrated = x ∷ s.migrated } in
        rw (here, works x, here, works x, apply_all, apply_migration)
          (ground (
            arith,
            contains-apply_all v xs s' (HashSet.insert x applied) (Registered-tail x xs s r),
          ))

    migrations-apply_all :
        (vs : List Version) (s : Schema) (applied : List Version)
        → Registered vs s
        → (apply_all scripts false vs s applied).0.migrations ≡ s.migrations
    unfolding apply_all apply_migration
    migrations-apply_all [] s applied r = refl
    migrations-apply_all (x ∷ xs) s applied r =
        let here = Registered-head x xs s r in
        let s' : Schema = record s { migrated = x ∷ s.migrated } in
        rw (here, works x, here, works x, apply_all, apply_migration)
          (migrations-apply_all xs s' (HashSet.insert x applied) (Registered-tail x xs s r))

  module _ (works : (v : Version) → scripts.down v ≡ ok tt) where
    contains-revert_all :
        (v : Version) (vs : List Version) (s : Schema) (reverted : List Version)
        → Registered vs s
        → contains v (revert_all scripts false vs s reverted).0.migrated
          ≡ (contains v s.migrated && not (contains v vs))
    unfolding contains revert_all revert_migration
    contains-revert_all v [] s reverted r = ground arith
    contains-revert_all v (x ∷ xs) s reverted r =
        let here = Registered-head x xs s r in
        let s' : Schema = record s { migrated = HashSet.remove x s.migrated } in
        rw (here, works x, here, works x, revert_all, revert_migration)
          (ground (
            arith,
            contains-revert_all v xs s' (HashSet.insert x reverted) (Registered-tail x xs s r),
            contains-remove v x s.migrated,
          ))

-- The migrations that a bound and a test select are registered.
Registered-keep : (p q : Version → Bool) (s : Schema) → Registered (keep p (keep q s.migrations)) s
Registered-keep p q s v c =
    ground (arith, c, contains-keep p v (keep q s.migrations), contains-keep q v s.migrations)

Registered-reverse :
    (p q : Version → Bool) (s : Schema) → Registered (keep p (keep q (reverse s.migrations))) s
Registered-reverse p q s v c = ground (
  arith,
  c,
  contains-keep p v (keep q (reverse s.migrations)),
  contains-keep q v (reverse s.migrations),
  contains-reverse v s.migrations,
)

current_version-none :
    (v : Version) (vs : List Version) → current_version vs ≡ none → contains v vs ≡ false
unfolding contains
current_version-none v [] h = refl
current_version-none v (x ∷ xs) h = elim (Option-cases (current_version xs)) [
  | inl nothing ↦ ground (arith, nothing, h)
  | inr (l, e) ↦ ground (arith, e, h)
]

current_version-max :
    (v latest : Version) (vs : List Version)
    → current_version vs ≡ some latest
    → contains v vs ≡ true
    → v ≤ latest
unfolding contains
current_version-max v latest [] h c = cc
current_version-max v latest (x ∷ xs) h c = elim (Option-cases (current_version xs)) [
  | inl nothing ↦ ground (arith, nothing, h, c, current_version-none v xs nothing, eq_of_== v x)
  | inr (l, e) ↦ ground (arith, e, h, c, current_version-max v l xs e, eq_of_== v x)
]

-- A version is not above the bound, if there is one; and it is above it.
abbrev pub is_up_to : Version → Option Version → Bool
is_up_to v none = true
is_up_to v (some bound) = leb v bound

abbrev pub is_above : Version → Option Version → Bool
is_above v none = true
is_above v (some bound) = not (leb v bound)

within_range-is_up_to : (v : Version) (to : Option Version) → within_range v none to ≡ is_up_to v to
unfolding within_range
within_range-is_up_to v none = refl
within_range-is_up_to v (some bound) = refl

within_range-is_above : (v : Version) (to : Option Version) → within_range v to none ≡ is_above v to
unfolding within_range
within_range-is_above v none = refl
within_range-is_above v (some bound) = ground arith

-- When the scripts succeed, exactly the migrations that were applied before, and the registered ones
-- up to the version given, its own included, are applied after `up`.
pub contains-up :
    (scripts : Scripts) (to : Option Version) (s : Schema) (v : Version)
    → ((v : Version) → scripts.up v ≡ ok tt)
    → contains v (up scripts to false s).0.migrated
      ≡ (contains v s.migrated || (contains v s.migrations && is_up_to v to))
unfolding up
contains-up scripts to s v works = ground (
  arith,
  contains-apply_all scripts works v
      (keep (λ v. not (contains v s.migrated)) (keep (λ v. within_range v none to) s.migrations)) s
      [] (Registered-keep (λ v. not (contains v s.migrated)) (λ v. within_range v none to) s),
  contains-keep (λ v. not (contains v s.migrated)) v
      (keep (λ v. within_range v none to) s.migrations),
  contains-keep (λ v. within_range v none to) v s.migrations,
  within_range-is_up_to v to,
)

within_range-high :
    (v latest : Version) (to : Option Version)
    → v ≤ latest
    → within_range v to (some latest) ≡ within_range v to none
unfolding within_range
within_range-high v latest none h = ground (arith, h)
within_range-high v latest (some low) h = ground (arith, h)

contains-down_from :
    (scripts : Scripts) (to : Option Version) (latest : Version) (s : Schema) (v : Version)
    → ((v : Version) → scripts.down v ≡ ok tt)
    → current_version s.migrated ≡ some latest
    → contains v
        (revert_all scripts false
          (keep
            (λ v. contains v s.migrated)
            (keep (λ v. within_range v to (some latest)) (reverse s.migrations)))
          s
          []).0.migrated
      ≡ (contains v s.migrated && not (contains v s.migrations && within_range v to none))
contains-down_from scripts to latest s v works e =
    let inner = keep (λ v. within_range v to (some latest)) (reverse s.migrations) in
    let reverted =
      contains-revert_all scripts works v (keep (λ v. contains v s.migrated) inner) s [] (
        Registered-reverse (λ v. contains v s.migrated) (λ v. within_range v to (some latest)) s) in
    let first = contains-keep (λ v. contains v s.migrated) v inner in
    let second = contains-keep (λ v. within_range v to (some latest)) v (reverse s.migrations) in
    elim (Bool-cases (contains v s.migrated)) [
      | inr absent ↦ ground (arith, absent, reverted)
      | inl present ↦ ground (
        arith,
        present,
        reverted,
        first,
        second,
        contains-reverse v s.migrations,
        within_range-high v latest to (current_version-max v latest s.migrated e present),
      )
    ]

-- When the scripts succeed, `down` leaves exactly the migrations that were applied before and are
-- not both registered and above the version given, which itself stays; with no version given, all registered ones go.
pub contains-down :
    (scripts : Scripts) (to : Option Version) (s : Schema) (v : Version)
    → ((v : Version) → scripts.down v ≡ ok tt)
    → contains v (down scripts to false s).0.migrated
      ≡ (contains v s.migrated && not (contains v s.migrations && is_above v to))
unfolding down
contains-down scripts to s v works = elim (Option-cases (current_version s.migrated)) [
  | inl nothing ↦ rw (nothing, down) (ground (arith, current_version-none v s.migrated nothing))
  | inr (latest, e) ↦
      rw (e, down, ← within_range-is_above v to) (contains-down_from scripts to latest s v works e)
]

any-false :
    (p : Version → Bool) (vs : List Version)
    → ((v : Version) → contains v vs ≡ true → p v ≡ false)
    → any p vs ≡ false
unfolding contains
any-false p [] h = refl
any-false p (x ∷ xs) h =
    ground (arith, h x, ==-refl x, any-false p xs (λ v c. h v (ground (arith, c))))

migrations-up :
    (scripts : Scripts) (s : Schema)
    → ((v : Version) → scripts.up v ≡ ok tt)
    → (up scripts none false s).0.migrations ≡ s.migrations
unfolding up
migrations-up scripts s works =
    migrations-apply_all scripts works _ s []
      (Registered-keep (λ v. not (contains v s.migrated)) (λ v. within_range v none none) s)

-- When the scripts succeed and no migration is applied that is not registered, the schema is up to
-- date after `up` with no bound.
pub schema_is_up_to_date-up :
    (scripts : Scripts) (s : Schema)
    → ((v : Version) → scripts.up v ≡ ok tt)
    → ((v : Version) → contains v s.migrated ≡ true → contains v s.migrations ≡ true)
    → schema_is_up_to_date (up scripts none false s).0 ≡ true
unfolding schema_is_up_to_date within_range
schema_is_up_to_date-up scripts s works registered =
    let after = (up scripts none false s).0 in
    let same = migrations-up scripts s works in
    rw
      (
        any-false (λ v. not (contains v after.migrations)) after.migrated
            (λ v c. ground (arith, same, c, contains-up scripts none s v works, registered v)),
        any-false (λ v. not (contains v after.migrated)) after.migrations
            (λ v c. ground (arith, same, c, contains-up scripts none s v works)),
      )
      refl
