-- ===== src/Server/Sldc/Progress.antt =====
-- What one round of the SLDC loop (server/src/sldc.rs) does to the reader and to the state.
use Prim.Native.Nat.{bit_and, ◌/◌, ◌%◌, ◌^◌}
use native.Mathlib.Nat.{pow-suc}
use openwec.Prelude.{
  ℕ, zero, suc, ◌+◌, ◌*◌, ◌≤◌, ◌<◌, ◌≡◌, refl, arith, Bool, true, false, some, List, [], ◌∷◌, leb,
  eqb, length, length-append, get_elem?, set, if◌then◌else◌,
}
use openwec.Server.BitReader.{value, bit, take_bits, drop_bits}
use openwec.Server.Sldc

length-set : {A : Type 0} (xs : List A) (i : ℕ) (x : A) → length (set xs i x) ≡ length xs
length-set [] i x = refl
length-set (y ∷ ys) zero x = refl
length-set (y ∷ ys) (suc i) x = omega (arith, length-set ys i x)

length-zeros : (n : ℕ) → length (Sldc.zeros n) ≡ n
length-zeros zero = refl
length-zeros (suc n) = omega (arith, length-zeros n)

pub length-drop_bits :
    (n : ℕ) (bits : List Bool) → n ≤ length bits → length (drop_bits n bits) + n ≡ length bits
length-drop_bits zero bits h = omega arith
length-drop_bits (suc n) [] h = absurd (omega arith)
length-drop_bits (suc n) (b ∷ bits) h = omega (arith, length-drop_bits n bits (omega arith))

get_elem?-below {ℓ} :
    {A : Type ℓ} (xs : List A) (i : ℕ) → i < length xs → (x : A) × (get_elem? xs i ≡ some x)
get_elem?-below [] i h = absurd (omega arith)
get_elem?-below (x ∷ xs) zero h = (x, refl)
get_elem?-below (x ∷ xs) (suc i) h = get_elem?-below xs i (omega arith)

-- A test that holds on every number under a limit, as evaluation finds.
unfoldable pub passes_under : (ℕ → Bool) → ℕ → Bool
passes_under test (suc limit) = if passes_under test limit then test limit else false
passes_under test zero = true

pub passed :
    (test : ℕ → Bool) (limit v : ℕ) → v < limit → passes_under test limit ≡ true → test v ≡ true
unfolding passes_under
passed test (suc limit) v small all = ground (arith, passed test limit v)
passed test zero v small all = absurd (omega (arith, small))

-- The masks of a match count field.
pub mask_bounds : (x : ℕ) → x < 16 → (bit_and x 4 / 4 ≤ 1) × (bit_and x 3 ≤ 3)
unfolding passes_under
mask_bounds x h = (
  ground (arith, passed (λ x. leb (bit_and x 4 / 4) 1) 16 x h refl),
  ground (arith, passed (λ x. leb (bit_and x 3) 3) 16 x h refl),
)

pub reserved_fields : (x : ℕ) → x < 256 → eqb (bit_and x 0xf0) 0xf0 ≡ false → x ≤ 239
unfolding passes_under
reserved_fields x h free =
    ground (arith, passed (λ x. if eqb (bit_and x 0xf0) 0xf0 then true else leb x 239) 256 x h refl)

-- The history has 1024 bytes and the index is in range.
abbrev pub IsHistory : Sldc.State → Type 0
IsHistory s = (length s.history_buffer ≡ 1024) × (s.history_index < 1024)

pub new_history-IsHistory : length Sldc.new_history ≡ 1024
unfolding Sldc.new_history
new_history-IsHistory = length-zeros 1024

pub length-take_bits : (n : ℕ) (bits : List Bool) → n ≤ length bits → length (take_bits n bits) ≡ n
length-take_bits zero bits h = refl
length-take_bits (suc n) [] h = absurd (omega arith)
length-take_bits (suc n) (b ∷ bits) h = omega (arith, length-take_bits n bits (omega arith))

bit_bound : (b : Bool) (m : ℕ) → bit b * m ≤ m
bit_bound true m = omega arith
bit_bound false m = omega arith

pub value-below : (n : ℕ) (bits : List Bool) → n ≤ length bits → value (take_bits n bits) < 2 ^ n
value-below zero bits h = omega arith
value-below (suc n) [] h = absurd (omega arith)
value-below (suc n) (b ∷ bits) h = ground (
  arith,
  value-below n bits (omega arith),
  pow-suc 2 n,
  length-take_bits n bits,
  bit_bound b (2 ^ n),
)

pub store-done :
    (c : ℕ) (s : Sldc.State) → IsHistory s → Sldc.store c s ≡ Sldc.done (Sldc.stored c s)
unfolding Sldc.store
store-done c s (full, below) = ground arith

pub stored-IsHistory : (c : ℕ) (s : Sldc.State) → IsHistory s → IsHistory (Sldc.stored c s)
stored-IsHistory c s (full, below) =
    (omega (arith, length-set s.history_buffer s.history_index c), omega arith)

pub length-stored : (c : ℕ) (s : Sldc.State) → length (Sldc.stored c s).res ≡ length s.res + 1
length-stored c s = length-append s.res (c ∷ [])

-- A copy in range of the history adds as many bytes as its size says.
pub copy-done :
    (size k : ℕ) (s : Sldc.State)
    → IsHistory s
    → (after : Sldc.State) × (Sldc.copy size k s ≡ Sldc.done after)
      × IsHistory after
      × (length after.res ≡ length s.res + size)
unfolding Sldc.copy
copy-done zero k s h = (s, refl, h, omega arith)
copy-done (suc size) k s h =
    let (c, found) = get_elem?-below s.history_buffer (k % 1024) (omega (arith, h)) in
    let (after, copied, kept, grown) =
      copy-done size (k + 1) (Sldc.stored c s) (stored-IsHistory c s h) in
    (after, rw (found, store-done c s h) copied, kept, omega (arith, grown, length-stored c s))
