-- ===== src/Server/Multipart/Search.antt =====
-- Where the boundaries of server/src/multipart.rs are found: a text without two dashes in a row
-- does not hide one.
use openwec.Prelude.{
  ℕ, ◌≡◌, refl, arith, Bool, true, not, ◌&&◌, none, some, ap, List, [], ◌∷◌, ◌++◌, eqb, all,
  Bool-cases, inl, inr, and_true,
}
use openwec.Server.Multipart.Laws.{strip, search, found_at, is_digit, is_visible}

pub strip-append : (token rest : List ℕ) → strip token (token ++ rest) ≡ some rest
strip-append [] rest = refl
strip-append (t ∷ token) rest = grind (arith, strip-append token rest)

-- No two dashes in a row, nor a dash at the end.
unfoldable pub no_dashes : List ℕ → Bool
no_dashes [] = true
no_dashes (b ∷ []) = not (eqb 45 b)
no_dashes (b ∷ c ∷ text) = not (eqb 45 b && eqb 45 c) && no_dashes (c ∷ text)

pub no_dashes-nil : no_dashes [] ≡ true
unfolding no_dashes
no_dashes-nil = refl

pub no_dashes-append :
    (a b : List ℕ) → no_dashes a ≡ true → no_dashes b ≡ true → no_dashes (a ++ b) ≡ true
unfolding no_dashes
no_dashes-append [] b h k = k
no_dashes-append (x ∷ []) [] h k = h
no_dashes-append (x ∷ []) (y ∷ b) h k = ground (arith, h, k)
no_dashes-append (x ∷ y ∷ a) b h k = ground (arith, h, no_dashes-append (y ∷ a) b)

pub digits_no_dashes : (text : List ℕ) → all is_digit text ≡ true → no_dashes text ≡ true
unfolding no_dashes
digits_no_dashes [] h = refl
digits_no_dashes (b ∷ []) h = ground (arith, h)
digits_no_dashes (b ∷ c ∷ text) h = ground (arith, h, digits_no_dashes (c ∷ text))

pub digits_visible : (text : List ℕ) → all is_digit text ≡ true → all is_visible text ≡ true
digits_visible [] h = refl
digits_visible (b ∷ text) h = ground (arith, h, digits_visible text)

pub search-no_dashes :
    (token text rest : List ℕ)
    → no_dashes text ≡ true
    → search (45 ∷ 45 ∷ token) (text ++ (45 ∷ 45 ∷ token) ++ rest) ≡ some (text, rest)
unfolding no_dashes
search-no_dashes token [] rest h = rw (strip-append token rest) refl
search-no_dashes token (b ∷ []) rest h = elim (Bool-cases (eqb 45 b)) [
  | inl dash ↦ ground (arith, h, dash)
  | inr other ↦ rw (other, strip-append token rest) refl
]
search-no_dashes token (b ∷ c ∷ text) rest h =
    let (apart, free) = and_true (not (eqb 45 b && eqb 45 c)) (no_dashes (c ∷ text)) h in
    let later = search-no_dashes token (c ∷ text) rest free in
    elim (Bool-cases (eqb 45 b)) [
      | inl dash ↦ elim (Bool-cases (eqb 45 c)) [
        | inl again ↦ ground (arith, apart, dash, again)
        | inr other ↦ rw (dash, other) (ap (found_at b none) (rw other at later))
      ]
      | inr other ↦ rw other (ap (found_at b none) later)
    ]
