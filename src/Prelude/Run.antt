-- ===== src/Prelude/Run.antt =====
-- What code that can panic comes to: a value, an error, or a panic, which nothing that follows
-- stops.
use mathlib.Core.Path.{◌≡◌, refl}
use Prim.Native.Nat.{ℕ, suc}
use Prim.Native.String.{String}
use mathlib.Core.Option.{Option, none, some}
use mathlib.Core.List.{List, [], ◌∷◌}
use openwec.Prelude.Outcome.{Error, context, Result, err, ok}

pub data Run {u} (A : Type u) : Type u where
  done : A → Run A
  failed : Error → Run A
  panics : Run A

infixl 5 ◌>>=◌
abbrev pub ◌>>=◌ {u v} : {A : Type u} {B : Type v} → Run A → (A → Run B) → Run B
done a >>= next = next a
failed e >>= next = failed e
panics >>= next = panics

-- `?` on a result of code that does not panic.
abbrev pub lift {ℓ} : {A : Type ℓ} → Result A → Run A
lift (ok a) = done a
lift (err e) = failed e

-- `unwrap`
abbrev pub unwrap {ℓ} : {A : Type ℓ} → Option A → Run A
unwrap (some a) = done a
unwrap none = panics

-- `expect`
abbrev pub expect {ℓ} : {A : Type ℓ} → Result A → Run A
expect (ok a) = done a
expect (err e) = panics

-- `collect::<Result<Vec<_>, _>>`: stops at the first error or panic.
abbrev pub run_map {ℓ κ} : {A : Type ℓ} {B : Type κ} → (A → Run B) → List A → Run (List B)
run_map f [] = done []
run_map f (x ∷ xs) = f x >>= λ y. run_map f xs >>= λ ys. done (y ∷ ys)

-- The same, of a function that takes the item's position too, counted from a number.
abbrev pub run_map_from {ℓ κ} :
    {A : Type ℓ} {B : Type κ} → ℕ → (ℕ → A → Run B) → List A → Run (List B)
run_map_from n f [] = done []
run_map_from n f (x ∷ xs) = f n x >>= λ y. run_map_from (suc n) f xs >>= λ ys. done (y ∷ ys)

-- `Result::context`
abbrev pub run_context {ℓ} : {A : Type ℓ} → String → Run A → Run A
run_context text (done a) = done a
run_context text (failed e) = failed (context text e)
run_context text panics = panics

-- The result of the first step of a run that is done.
pub >>=-eq-done {u v} :
    {A : Type u} {B : Type v} (first : Run A) (next : A → Run B) {b : B}
    → (first >>= next) ≡ done b
    → (a : A) × (first ≡ done a) × (next a ≡ done b)
>>=-eq-done (done a) next h = (a, refl, h)
>>=-eq-done (failed e) next h = cc
>>=-eq-done panics next h = cc

pub done_injective {ℓ} : {A : Type ℓ} (a b : A) → done a ≡ done b → a ≡ b
done_injective a b h = cc

pub lift-done {ℓ} : {A : Type ℓ} (r : Result A) (a : A) → lift r ≡ done a → r ≡ ok a
lift-done (ok b) a h = cc
lift-done (err e) a h = cc

pub run_context-done {ℓ} :
    {A : Type ℓ} (text : String) (r : Run A) (a : A) → run_context text r ≡ done a → r ≡ done a
run_context-done text (done b) a h = cc
run_context-done text (failed e) a h = cc
run_context-done text panics a h = cc
