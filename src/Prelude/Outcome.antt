-- ===== src/Prelude/Outcome.antt =====
-- `anyhow::Result`: a value, or an error with its chain of contexts. The texts are the source's
-- format strings, without the values that they interpolate.
use Prim.Native.String.{String}
use mathlib.Core.Path.{◌≡◌, refl}
use mathlib.Core.Option.{Option, none, some}
use mathlib.Core.Logic.{◌⊎◌, inl, inr}
use mathlib.Core.List.{List, [], ◌∷◌}

pub data Error : Type 0 where
  anyhow : String → Error
  context : String → Error → Error

pub data Result {u} (T : Type u) : Type u where
  err : Error → Result T
  ok : T → Result T

-- `?`: an error ends the function.
infixl 5 ◌>>=◌
abbrev pub ◌>>=◌ {u v} : {T : Type u} {U : Type v} → Result T → (T → Result U) → Result U
err failure >>= next = err failure
ok value >>= next = next value

-- `bail!`
abbrev pub bail {ℓ} : {A : Type ℓ} → String → Result A
bail text = err (anyhow text)

-- `Result::context`
abbrev pub with_context {ℓ} : {A : Type ℓ} → String → Result A → Result A
with_context text (ok a) = ok a
with_context text (err e) = err (context text e)

-- `Option::context` and `ok_or_else`
abbrev pub some_or {ℓ} : {A : Type ℓ} → Option A → String → Result A
some_or none text = bail text
some_or (some a) text = ok a

-- `collect::<Result<Vec<_>, _>>`: stops at the first error.
abbrev pub try_map {ℓ κ} : {A : Type ℓ} {B : Type κ} → (A → Result B) → List A → Result (List B)
try_map f [] = ok []
try_map f (x ∷ xs) = f x >>= λ y. try_map f xs >>= λ ys. ok (y ∷ ys)

-- The result of the first step, where both steps succeed.
pub >>=-eq-ok {u v} :
    {T : Type u} {U : Type v} (first : Result T) (next : T → Result U) {result : U}
    → (first >>= next) ≡ ok result
    → (middle : T) × (first ≡ ok middle) × (next middle ≡ ok result)
>>=-eq-ok (err failure) next both = cc
>>=-eq-ok (ok value) next both = (value, refl, both)

pub ok-injective {ℓ} : {A : Type ℓ} (a b : A) → ok a ≡ ok b → a ≡ b
ok-injective a b h = cc

pub Result-cases {ℓ} :
    {A : Type ℓ} (r : Result A) → ((a : A) × (r ≡ ok a)) ⊎ ((e : Error) × (r ≡ err e))
Result-cases (ok a) = inl (a, refl)
Result-cases (err e) = inr (e, refl)
