-- ===== src/Server/Sldc.antt =====
-- SLDC decompression: server/src/sldc.rs. An assignment to an element of a `Vec` panics out of
-- range, which `panics` stands for. The `while` loop is recursion on fuel; it starts with as much
-- as there are bits, and each round reads one at least.
pub mod Progress
pub mod Reads
pub mod Rounds
pub mod Ring
pub mod Encoding
pub mod Counts
pub mod RoundTrip
use Prim.Native.Nat.{bit_and}
use openwec.Prelude.{
  ℕ, zero, suc, ◌+◌, ◌*◌, ◌/◌, ◌%◌, Bool, true, false, not, Option, none, some, List, [], ◌∷◌, ◌++◌,
  Error, anyhow, context, Result, err, ok, ltb, eqb, length, get_elem?, set, if◌then◌else◌,
}
pub use openwec.Prelude.Run.{Run, done, failed, panics, ◌>>=◌, lift}
use openwec.Server.BitReader.{BitReader}

abbrev pub ctrlsymb_flush : ℕ
ctrlsymb_flush = 0x1ff0

abbrev pub ctrlsymb_scheme_1 : ℕ
ctrlsymb_scheme_1 = 0x1ff1

abbrev pub ctrlsymb_scheme_2 : ℕ
ctrlsymb_scheme_2 = 0x1ff2

abbrev pub ctrlsymb_file_mark : ℕ
ctrlsymb_file_mark = 0x1ff3

abbrev pub ctrlsymb_end_of_record : ℕ
ctrlsymb_end_of_record = 0x1ff4

abbrev pub ctrlsymb_reset_1 : ℕ
ctrlsymb_reset_1 = 0x1ff5

abbrev pub ctrlsymb_reset_2 : ℕ
ctrlsymb_reset_2 = 0x1ff6

abbrev pub ctrlsymb_end_marker : ℕ
ctrlsymb_end_marker = 0x1fff

abbrev pub zeros : ℕ → List ℕ
zeros zero = []
zeros (suc n) = 0 ∷ zeros n

-- `vec![0; 1024]`
unfoldable pub new_history : List ℕ
new_history = zeros 1024

pub record State : Type 0 where
  pub scheme_1 : Bool
  pub scheme_2 : Bool
  pub history_buffer : List ℕ
  pub history_index : ℕ
  pub res : List ℕ

unfoldable pub initial : State
unfolding new_history
initial = record {
  scheme_1 = false;
  scheme_2 = false;
  history_buffer = new_history;
  history_index = 0;
  res = [];
}

-- The byte is pushed to the result and stored in the rotating history buffer.
abbrev pub stored : ℕ → State → State
stored c s = record s {
  res = s.res ++ c ∷ [];
  history_buffer = set s.history_buffer s.history_index c;
  history_index = (s.history_index + 1) % 1024;
}

unfoldable pub store : ℕ → State → Run State
store c s = if ltb s.history_index (length s.history_buffer) then done (stored c s) else panics

abbrev pub from_history : Option ℕ → Run ℕ
from_history (some c) = done c
from_history none = failed (anyhow "Index not found in history buffer")

-- `for k in displacement_field..displacement_field + size`, `size` rounds of it.
unfoldable pub copy : ℕ → ℕ → State → Run State
unfolding store
copy zero k s = done s
copy (suc size) k s = do
  c ← from_history (get_elem? s.history_buffer (k % 1024))
  s ← store c s
  copy size (k + 1) s

-- A control symbol. `none` is the end of the record.
unfoldable pub control : ℕ → State → Run (Option State)
unfolding new_history
control symb s =
    if eqb symb ctrlsymb_flush
    then done (some s)
    else if eqb symb ctrlsymb_scheme_1
    then done (some (record s { scheme_1 = true }))
    else if eqb symb ctrlsymb_scheme_2
    then done (some (record s { scheme_2 = true }))
    else if eqb symb ctrlsymb_file_mark
    then done (some s)
    else if eqb symb ctrlsymb_end_of_record
    then done none
    else if eqb symb ctrlsymb_reset_1
    then done (some (record s { scheme_1 = true; history_buffer = new_history }))
    else if eqb symb ctrlsymb_reset_2
    then done (some (record s { scheme_2 = true; history_buffer = new_history }))
    else if eqb symb ctrlsymb_end_marker
    then done (some s)
    else failed (anyhow "Found invalid control symbol")

pub data Round (R : Type 0) : Type 0 where
  returns : List ℕ → Round R
  next : R → State → Round R

module _ {R : Type 0} (reader : BitReader R) where
  abbrev pub next_state : List ℕ → R → Option State → Run (Round R)
  next_state out r none = done (returns out)
  next_state out r (some s) = done (next r s)

  -- The size of the match string, from the match count field.
  unfoldable pub match_count : R → Run (ℕ × R)
  match_count r = do
    next_4_bits ← lift (reader.peek_u16 4 r)
    if eqb (bit_and next_4_bits 8) 0
        then (do r ← lift (reader.skip 2 r); done (2 + bit_and next_4_bits 4 / 4, r))
        else if eqb (bit_and next_4_bits 4) 0
        then (do r ← lift (reader.skip 4 r); done (4 + bit_and next_4_bits 3, r))
        else if eqb (bit_and next_4_bits 2) 0
        then (do
          r ← lift (reader.skip 3 r)
          (field, r) ← lift (reader.read_u16 3 r)
          done (8 + field, r))
        else if eqb (bit_and next_4_bits 1) 0
        then (do
          r ← lift (reader.skip 4 r)
          (field, r) ← lift (reader.read_u16 4 r)
          done (16 + field, r))
        else if eqb (bit_and next_4_bits 1) 1
        then (do
          r ← lift (reader.skip 4 r)
          (field, r) ← lift (reader.read_u16 8 r)
          if eqb (bit_and field 0xf0) 0xf0
              then failed (
                  anyhow
                    "Found a Reserved or a Control Symbol instead of a Copy Pointer Data Symbol")
              else done (32 + field, r))
        else failed (anyhow "Found invalid Match Count Field value")

  unfoldable pub literal_1 : R → State → Run (Round R)
  unfolding store
  literal_1 r s = do (c, r) ← lift (reader.read_u8 8 r); s ← store c s; done (next r s)

  unfoldable pub copy_pointer : R → State → Run (Round R)
  unfolding match_count copy
  copy_pointer r s = do
    (size, r) ← match_count r
    (displacement_field, r) ← lift (reader.read_u16 10 r)
    s ← copy size displacement_field s
    done (next r s)

  unfoldable pub symbol_1 : R → State → Run (Round R)
  unfolding literal_1 copy_pointer
  symbol_1 r s = do
    (copies, r) ← lift (reader.read_bool r)
    if copies then copy_pointer r s else literal_1 r s

  unfoldable pub symbol_2 : R → State → Run (Round R)
  unfolding store
  symbol_2 r s = do
    (c, r) ← lift (reader.read_u8 8 r)
    r ← (if eqb c 0xff then lift (reader.skip 1 r) else done r)
    s ← store c s
    done (next r s)

  -- One round of the `while` loop.
  unfoldable pub round : R → State → Run (Round R)
  unfolding control symbol_1 symbol_2
  round r s = do
    mark ← lift (reader.peek_u16 9 r)
    if eqb mark 0x1ff
        then (do
          (symb, r) ← lift (reader.read_u16 13 r)
          after ← control symb s
          next_state s.res r after)
        else if s.scheme_1
        then symbol_1 r s
        else if s.scheme_2
        then symbol_2 r s
        else failed (anyhow "Could not uncompress data")

  abbrev pub missing_end : Option (Run (List ℕ))
  missing_end = some (failed (anyhow "Missing END_OF_RECORD control symbol !"))

  -- The loop goes on after a round, or returns.
  abbrev pub after_round :
      (R → State → Option (Run (List ℕ))) → Run (Round R) → Option (Run (List ℕ))
  after_round continues (done (returns out)) = some (done out)
  after_round continues (done (next r s)) = continues r s
  after_round continues (failed e) = some (failed e)
  after_round continues panics = some panics

  -- `none` when the fuel is used up.
  unfoldable pub rounds : ℕ → R → State → Option (Run (List ℕ))
  unfolding round
  rounds zero r s = if eqb (reader.remaining r) 0 then missing_end else none
  rounds (suc fuel) r s =
      if eqb (reader.remaining r) 0
      then missing_end
      else after_round (λ r s. rounds fuel r s) (round r s)

  -- `decompress`, on a reader of the compressed bytes.
  unfoldable pub decompress : R → Option (Run (List ℕ))
  unfolding rounds initial
  decompress r = rounds (reader.remaining r) r initial
