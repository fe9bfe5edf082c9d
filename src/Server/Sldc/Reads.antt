-- ===== src/Server/Sldc/Reads.antt =====
-- What is shown of a read in server/src/sldc.rs: its failure, and its success with the bits that
-- are left.
use Prim.Native.Nat.{bit_and, ◌^◌}
use openwec.Prelude.{
  ℕ, ◌+◌, ◌*◌, ◌≤◌, ◌<◌, ◌≡◌, refl, arith, Bool, true, false, Error, err, ok, leb, eqb, length,
  if◌then◌else◌,
}
use openwec.Server.BitReader.{BitReader, BitReaderLaws, value, take_bits, first_bit}
use openwec.Server.Sldc.{Run, done, failed, ◌>>=◌, lift, match_count}
use openwec.Server.Sldc.Progress.{length-drop_bits, value-below, mask_bounds, reserved_fields}

-- A property of a read and of what follows: of its failure, and of its success.
after_read {u} :
    {A B : Type 0} (P : Run B → Type u) (enough : Bool) (a : A) (e : Error) (rest : A → Run B)
    → ((e : Error) → P (failed e))
    → (enough ≡ true → P (rest a))
    → P (lift (if enough then ok a else err e) >>= rest)
after_read P true a e rest fails reads = reads refl
after_read P false a e rest fails reads = fails e

pub after_test {u} :
    {A : Type 0} (P : A → Type u) (test : Bool) (left right : A)
    → (test ≡ true → P left)
    → (test ≡ false → P right)
    → P (if test then left else right)
after_test P true left right on_left on_right = on_left refl
after_test P false left right on_left on_right = on_right refl

module _ {R : Type 0} (reader : BitReader R) (laws : BitReaderLaws reader) where
  abbrev pub size_left : R → ℕ
  size_left r = length (laws.bits r)

  size_left-advance :
      (n : ℕ) (r : R) → n ≤ size_left r → size_left (laws.advance n r) + n ≡ size_left r
  size_left-advance n r h = rw (laws.bits-advance n r) (length-drop_bits n (laws.bits r) h)

  pub after_peek {u} :
      {B : Type 0} (P : Run B → Type u) (n : ℕ) (r : R) (rest : ℕ → Run B)
      → n ≤ 16
      → ((e : Error) → P (failed e))
      → (n ≤ size_left r → (v : ℕ) → v < 2 ^ n → P (rest v))
      → P (lift (reader.peek_u16 n r) >>= rest)
  after_peek P n r rest fits fails reads = rw (laws.peek_u16-bits n r fits) (
      after_read P (leb n (size_left r)) (value (take_bits n (laws.bits r)))
        (laws.not_enough_data n r) rest fails
        λ enough. reads (ground arith) _ (value-below n (laws.bits r) (ground arith)))

  pub after_read_u16 {u} :
      {B : Type 0} (P : Run B → Type u) (n : ℕ) (r : R) (rest : ℕ × R → Run B)
      → n ≤ 16
      → ((e : Error) → P (failed e))
      → ((v : ℕ) (r' : R) → v < 2 ^ n → size_left r' + n ≡ size_left r → P (rest (v, r')))
      → P (lift (reader.read_u16 n r) >>= rest)
  after_read_u16 P n r rest fits fails reads = rw (laws.read_u16-bits n r fits) (
      after_read P (leb n (size_left r)) (value (take_bits n (laws.bits r)), laws.advance n r)
        (laws.not_enough_data n r) rest fails
        λ enough.
          reads _ _ (value-below n (laws.bits r) (ground arith))
            (size_left-advance n r (ground arith)))

  pub after_read_u8 {u} :
      {B : Type 0} (P : Run B → Type u) (n : ℕ) (r : R) (rest : ℕ × R → Run B)
      → n ≤ 8
      → ((e : Error) → P (failed e))
      → ((v : ℕ) (r' : R) → v < 2 ^ n → size_left r' + n ≡ size_left r → P (rest (v, r')))
      → P (lift (reader.read_u8 n r) >>= rest)
  after_read_u8 P n r rest fits fails reads = rw (laws.read_u8-bits n r fits) (
      after_read P (leb n (size_left r)) (value (take_bits n (laws.bits r)), laws.advance n r)
        (laws.not_enough_data n r) rest fails
        λ enough.
          reads _ _ (value-below n (laws.bits r) (ground arith))
            (size_left-advance n r (ground arith)))

  pub after_read_bool {u} :
      {B : Type 0} (P : Run B → Type u) (r : R) (rest : Bool × R → Run B)
      → ((e : Error) → P (failed e))
      → ((b : Bool) (r' : R) → size_left r' + 1 ≡ size_left r → P (rest (b, r')))
      → P (lift (reader.read_bool r) >>= rest)
  after_read_bool P r rest fails reads = rw (laws.read_bool-bits r) (
      after_read P (leb 1 (size_left r)) (first_bit (laws.bits r), laws.advance 1 r)
        (laws.not_enough_data 1 r) rest fails
        λ enough. reads _ _ (size_left-advance 1 r (ground arith)))

  pub after_skip {u} :
      {B : Type 0} (P : Run B → Type u) (n : ℕ) (r : R) (rest : R → Run B)
      → ((e : Error) → P (failed e))
      → ((r' : R) → size_left r' + n ≡ size_left r → P (rest r'))
      → P (lift (reader.skip n r) >>= rest)
  after_skip P n r rest fails reads = rw (laws.skip-bits n r) (
      after_read P (leb n (size_left r)) (laws.advance n r) (laws.not_enough_data n r) rest fails
        λ enough. reads _ (size_left-advance n r (ground arith)))

  -- A match count takes at least two bits, and enough of them for the size that it gives.
  pub after_match_count {u} :
      (P : Run (ℕ × R) → Type u) (r : R)
      → ((e : Error) → P (failed e))
      → ((size : ℕ) (r' : R) (m : ℕ)
          → size_left r' + m ≡ size_left r
          → 2 ≤ m
          → size ≤ 12 * m + 128
          → P (done (size, r')))
      → P (match_count reader r)
  unfolding match_count
  after_match_count P r fails counts = after_peek P 4 r _ (omega arith) fails λ enough v below.
      after_test P (eqb (bit_and v 8) 0) _ _
        (λ _.
          after_skip P 2 r _ fails
            λ r' left. counts _ r' 2 left (omega arith) (omega (arith, mask_bounds v below)))
        λ _.
          after_test P (eqb (bit_and v 4) 0) _ _
            (λ _.
              after_skip P 4 r _ fails
                λ r' left. counts _ r' 4 left (omega arith) (omega (arith, mask_bounds v below)))
            λ _.
              after_test P (eqb (bit_and v 2) 0) _ _
                (λ _. after_skip P 3 r _ fails λ r1 left1.
                  after_read_u16 P 3 r1 _ (omega arith) fails
                    λ field r' small left. counts _ r' 6 (omega arith) (omega arith) (omega arith))
                λ _.
                  after_test P (eqb (bit_and v 1) 0) _ _
                    (λ _. after_skip P 4 r _ fails λ r1 left1.
                      after_read_u16 P 4 r1 _ (omega arith) fails λ field r' small left.
                        counts _ r' 8 (omega arith) (omega arith) (omega arith))
                    λ _.
                      after_test P (eqb (bit_and v 1) 1) _ _
                        (λ _. after_skip P 4 r _ fails λ r1 left1.
                          after_read_u16 P 8 r1 _ (omega arith) fails λ field r' small left.
                            after_test P (eqb (bit_and field 0xf0) 0xf0) _ _ (λ _. fails _)
                              λ free.
                                counts _ r' 12 (omega arith) (omega arith)
                                  (omega (arith, reserved_fields field small free)))
                        λ _. fails _
