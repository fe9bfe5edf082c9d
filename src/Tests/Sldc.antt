-- ===== src/Tests/Sldc.antt =====
-- SLDC decompression of concrete bits, with a bit reader that is the list of the bits left.
use openwec.Prelude.{
  ℕ, ◌≤◌, ◌≡◌, ◌≢◌, refl, arith, Bool, true, false, none, some, List, [], ◌∷◌, ok, Error, anyhow,
  err, length, leb, if◌then◌else◌,
}
use openwec.Server.BitReader.{BitReader, BitReaderLaws, value, take_bits, drop_bits, first_bit}
use openwec.Server.Sldc.{done, panics, failed, decompress}
use openwec.Server.Sldc.Encoding.{Token, literal, match_string, expand, record_bits}
use openwec.Server.Sldc.Ring.{recall, recalled}
use openwec.Server.Sldc.Rounds.{decompress-returns, length-decompress}
use openwec.Server.Sldc.RoundTrip.{decompress-record_bits}

abbrev not_enough : Error
not_enough = anyhow "Requested more bits than are left"

abbrev bit_list : BitReader (List Bool)
bit_list = record {
  remaining = length;
  peek_u16 = λ n r. if leb n (length r) then ok (value (take_bits n r)) else err not_enough;
  read_u16 =
      λ n r. if leb n (length r) then ok (value (take_bits n r), drop_bits n r) else err not_enough;
  read_u8 =
      λ n r. if leb n (length r) then ok (value (take_bits n r), drop_bits n r) else err not_enough;
  read_bool = λ r. if leb 1 (length r) then ok (first_bit r, drop_bits 1 r) else err not_enough;
  skip = λ n r. if leb n (length r) then ok (drop_bits n r) else err not_enough;
}

abbrev bit_list_laws : BitReaderLaws bit_list
bit_list_laws = record {
  bits = λ r. r;
  advance = drop_bits;
  not_enough_data = λ n r. not_enough;
  bits-advance = λ n r. refl;
  remaining-bits = λ r. refl;
  peek_u16-bits = λ n r h. refl;
  read_u16-bits = λ n r h. refl;
  read_u8-bits = λ n r h. refl;
  read_bool-bits = λ r. refl;
  skip-bits = λ n r. refl;
}

-- Two literals, and a match string that begins at the first of them and overlaps itself.
abbrev tokens : List Token
tokens = literal 97 ∷ literal 98 ∷ match_string 5 0 ∷ []

abbrev ababaab : List ℕ
ababaab = 97 ∷ 98 ∷ 97 ∷ 98 ∷ 97 ∷ 98 ∷ 97 ∷ []

decompress-tokens :
    decompress bit_list (record_bits tokens (true ∷ false ∷ [])) ≡ some (done ababaab)
unfolding decompress record_bits
decompress-tokens = refl

decompress_without_scheme :
    decompress bit_list (true ∷ false ∷ false ∷ false ∷ false ∷ false ∷ false ∷ false ∷ false ∷ [])
    ≡ some (failed (anyhow "Could not uncompress data"))
unfolding decompress
decompress_without_scheme = refl

record_bits_example :
    decompress bit_list (record_bits tokens (true ∷ false ∷ [])) ≡ some (done ababaab)
unfolding expand recalled recall
record_bits_example =
    decompress-record_bits bit_list bit_list_laws tokens (true ∷ false ∷ [])
      (record_bits tokens (true ∷ false ∷ []))
      (omega arith, (omega arith, ((omega arith, omega arith, omega arith), tt))) refl

returns_example :
    (decompress bit_list (record_bits tokens []) ≢ none)
    × (decompress bit_list (record_bits tokens []) ≢ some panics)
returns_example = decompress-returns bit_list bit_list_laws (record_bits tokens [])

length_example : 7 ≤ 732
unfolding record_bits
length_example =
    length-decompress bit_list bit_list_laws (record_bits tokens (true ∷ false ∷ [])) ababaab
      decompress-tokens
