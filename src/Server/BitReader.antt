-- ===== src/Server/BitReader.antt =====
-- The bit reader that server/src/sldc.rs takes from the `bitreader` package: its operations as an
-- interface, and the package's documented behaviour as laws over the bits that are left.
use openwec.Prelude.{
  ℕ, zero, suc, ◌+◌, ◌*◌, ◌^◌, ◌≤◌, ◌≡◌, Bool, true, false, List, [], ◌∷◌, Error, Result, err, ok,
  length, leb, if◌then◌else◌,
}

pub record BitReader (R : Type 0) : Type 0 where
  pub remaining : R → ℕ
  pub peek_u16 : ℕ → R → Result ℕ
  pub read_u16 : ℕ → R → Result (ℕ × R)
  pub read_u8 : ℕ → R → Result (ℕ × R)
  pub read_bool : R → Result (Bool × R)
  pub skip : ℕ → R → Result R

abbrev pub bit : Bool → ℕ
bit true = 1
bit false = 0

-- The number that bits spell, the highest first.
abbrev pub value : List Bool → ℕ
value [] = 0
value (b ∷ bits) = bit b * 2 ^ length bits + value bits

abbrev pub take_bits : ℕ → List Bool → List Bool
take_bits zero bits = []
take_bits (suc n) [] = []
take_bits (suc n) (b ∷ bits) = b ∷ take_bits n bits

abbrev pub drop_bits : ℕ → List Bool → List Bool
drop_bits zero bits = bits
drop_bits (suc n) [] = []
drop_bits (suc n) (b ∷ bits) = drop_bits n bits

abbrev pub first_bit : List Bool → Bool
first_bit [] = false
first_bit (b ∷ bits) = b

-- A read of more bits than are left is an error. A number has at most the bits of its type.
pub record BitReaderLaws {R : Type 0} (reader : BitReader R) : Type 0 where
  pub bits : R → List Bool
  pub advance : ℕ → R → R
  pub not_enough_data : ℕ → R → Error
  pub bits-advance : (n : ℕ) (r : R) → bits (advance n r) ≡ drop_bits n (bits r)
  pub remaining-bits : (r : R) → reader.remaining r ≡ length (bits r)
  pub peek_u16-bits :
      (n : ℕ) (r : R)
      → n ≤ 16
      → reader.peek_u16 n r ≡ (
          if leb n (length (bits r))
          then ok (value (take_bits n (bits r)))
          else err (not_enough_data n r))
  pub read_u16-bits :
      (n : ℕ) (r : R)
      → n ≤ 16
      → reader.read_u16 n r ≡ (
          if leb n (length (bits r))
          then ok (value (take_bits n (bits r)), advance n r)
          else err (not_enough_data n r))
  pub read_u8-bits :
      (n : ℕ) (r : R)
      → n ≤ 8
      → reader.read_u8 n r ≡ (
          if leb n (length (bits r))
          then ok (value (take_bits n (bits r)), advance n r)
          else err (not_enough_data n r))
  pub read_bool-bits :
      (r : R)
      → reader.read_bool r ≡ (
          if leb 1 (length (bits r))
          then ok (first_bit (bits r), advance 1 r)
          else err (not_enough_data 1 r))
  pub skip-bits :
      (n : ℕ) (r : R)
      → reader.skip n r
        ≡ (if leb n (length (bits r)) then ok (advance n r) else err (not_enough_data n r))
