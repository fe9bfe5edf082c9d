-- ===== src/Server/Sldc/Encoding.antt =====
-- The encoding that server/src/sldc.rs reads back, after ECMA-321: scheme 1 data symbols and the
-- control symbols around them, written as bits.
use Prim.Native.Nat.{◌-◌, ◌^◌}
use native.Mathlib.Nat.{pow-suc}
use openwec.Prelude.{
  ℕ, zero, suc, ◌+◌, ◌*◌, ◌<◌, ◌≤◌, ◌≡◌, refl, sym, ap, ◌∙◌, arith, Bool, true, false, not, List,
  [], ◌∷◌, ◌++◌, ltb, leb, length, length-append, any, if◌then◌else◌, Bool-cases, inl, inr,
}
use openwec.Server.BitReader.{value, bit, take_bits, drop_bits}
use openwec.Server.Sldc.{ctrlsymb_reset_1, ctrlsymb_end_of_record}
use openwec.Server.Sldc.Ring.{recalled}
use openwec.Server.Sldc.Progress.{passes_under, passed}

pub data Token : Type 0 where
  literal : ℕ → Token
  -- a match string: its size and the index of its first byte in the history
  match_string : ℕ → ℕ → Token

abbrev pub IsToken : Token → Type 0
IsToken (literal c) = c < 256
IsToken (match_string size k) = (2 ≤ size) × (size ≤ 271) × (k < 1024)

-- The output of tokens after an output, from the last byte on.
unfoldable pub expand : List Token → List ℕ → List ℕ
expand [] out = out
expand (literal c ∷ tokens) out = expand tokens (c ∷ out)
expand (match_string size k ∷ tokens) out = expand tokens (recalled size k out)

-- A number in `n` bits, the highest first.
unfoldable pub to_bits : ℕ → ℕ → List Bool
to_bits zero v = []
to_bits (suc n) v = leb (2 ^ n) v ∷ to_bits n (v - bit (leb (2 ^ n) v) * 2 ^ n)

unfoldable pub size_bits : ℕ → List Bool
unfolding to_bits
size_bits size =
    if ltb size 4
    then false ∷ to_bits 1 (size - 2)
    else if ltb size 8
    then true ∷ false ∷ to_bits 2 (size - 4)
    else if ltb size 16
    then true ∷ true ∷ false ∷ to_bits 3 (size - 8)
    else if ltb size 32
    then true ∷ true ∷ true ∷ false ∷ to_bits 4 (size - 16)
    else true ∷ true ∷ true ∷ true ∷ to_bits 8 (size - 32)

unfoldable pub token_bits : Token → List Bool
unfolding to_bits size_bits
token_bits (literal c) = false ∷ to_bits 8 c
token_bits (match_string size k) = true ∷ size_bits size ++ to_bits 10 k

-- Tokens up to the end of the record, and what stands behind it.
unfoldable pub tokens_bits : List Token → List Bool → List Bool
unfolding token_bits
tokens_bits [] padding = to_bits 13 ctrlsymb_end_of_record ++ padding
tokens_bits (t ∷ tokens) padding = token_bits t ++ tokens_bits tokens padding

unfoldable pub record_bits : List Token → List Bool → List Bool
unfolding tokens_bits
record_bits tokens padding = to_bits 13 ctrlsymb_reset_1 ++ tokens_bits tokens padding

pub length-to_bits : (n v : ℕ) → length (to_bits n v) ≡ n
unfolding to_bits
length-to_bits zero v = refl
length-to_bits (suc n) v = omega (arith, length-to_bits n (v - bit (leb (2 ^ n) v) * 2 ^ n))

leb-below : (m v : ℕ) → leb m v ≡ true → m ≤ v
leb-below m v h = ground arith

bit_taken :
    (m v : ℕ)
    → v < m * 2
    → (v - bit (leb m v) * m < m) × (bit (leb m v) * m + (v - bit (leb m v) * m) ≡ v)
bit_taken m v h = elim (Bool-cases (leb m v)) [
  | inl high ↦ rw high (omega (arith, leb-below m v high), omega (arith, leb-below m v high))
  | inr low ↦ rw low (ground arith, omega arith)
]

pub value-to_bits : (n v : ℕ) → v < 2 ^ n → value (to_bits n v) ≡ v
unfolding to_bits
value-to_bits zero v h = omega arith
value-to_bits (suc n) v h =
    let (small, exact) = bit_taken (2 ^ n) v (omega (arith, pow-suc 2 n)) in
    let rest : ℕ = v - bit (leb (2 ^ n) v) * 2 ^ n in
    rw (length-to_bits n rest, value-to_bits n rest small) exact

take-append : (xs rest : List Bool) → take_bits (length xs) (xs ++ rest) ≡ xs
take-append [] rest = refl
take-append (b ∷ xs) rest = ap (λ (t : List Bool). b ∷ t) (take-append xs rest)

drop-append : (xs rest : List Bool) → drop_bits (length xs) (xs ++ rest) ≡ rest
drop-append [] rest = refl
drop-append (b ∷ xs) rest = drop-append xs rest

pub take-to_bits : (n v : ℕ) (rest : List Bool) → take_bits n (to_bits n v ++ rest) ≡ to_bits n v
take-to_bits n v rest =
    ap (λ (k : ℕ). take_bits k (to_bits n v ++ rest)) (sym (length-to_bits n v))
    ∙ take-append (to_bits n v) rest

pub drop-to_bits : (n v : ℕ) (rest : List Bool) → drop_bits n (to_bits n v ++ rest) ≡ rest
drop-to_bits n v rest =
    ap (λ (k : ℕ). drop_bits k (to_bits n v ++ rest)) (sym (length-to_bits n v))
    ∙ drop-append (to_bits n v) rest

pub leb-to_bits : (n v : ℕ) (rest : List Bool) → leb n (length (to_bits n v ++ rest)) ≡ true
leb-to_bits n v rest = ground (arith, length-append (to_bits n v) rest, length-to_bits n v)

value-bound : (bits : List Bool) → value bits < 2 ^ length bits
value-bound [] = omega arith
value-bound (true ∷ bits) = omega (arith, value-bound bits, pow-suc 2 (length bits))
value-bound (false ∷ bits) = omega (arith, value-bound bits, pow-suc 2 (length bits))

-- Bits that are not all set are below the highest number of their length.
pub value-any : (bits : List Bool) → any not bits ≡ true → value bits + 1 < 2 ^ length bits
value-any [] h = cc
value-any (true ∷ bits) h = omega (arith, value-any bits h, pow-suc 2 (length bits))
value-any (false ∷ bits) h = omega (arith, value-bound bits, pow-suc 2 (length bits))

pub length-match :
    (size k : ℕ) (rest : List Bool) → 11 ≤ length (token_bits (match_string size k) ++ rest)
unfolding token_bits
length-match size k rest = omega (
  arith,
  length-append (size_bits size) (to_bits 10 k),
  length-append (size_bits size ++ to_bits 10 k) rest,
  length-to_bits 10 k,
)

-- A match string does not begin with the nine set bits of a control symbol.
pub match_free :
    (size k : ℕ) (rest : List Bool)
    → size ≤ 271
    → any not (take_bits 9 (token_bits (match_string size k) ++ rest)) ≡ true
unfolding token_bits size_bits to_bits passes_under
match_free size k rest small = elim (Bool-cases (ltb size 4)) [
  | inl a ↦ rw a refl
  | inr a ↦ elim (Bool-cases (ltb size 8)) [
    | inl b ↦ rw (a, b) refl
    | inr b ↦ elim (Bool-cases (ltb size 16)) [
      | inl c ↦ rw (a, b, c) refl
      | inr c ↦ elim (Bool-cases (ltb size 32)) [
        | inl d ↦ rw (a, b, c, d) refl
        | inr d ↦
            rw (a, b, c, d)
              (passed (λ w. any not (take_bits 4 (to_bits 8 w))) 240 (size - 32) (ground arith)
                refl)
      ]
    ]
  ]
]
