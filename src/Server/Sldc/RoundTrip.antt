-- ===== src/Server/Sldc/RoundTrip.antt =====
-- server/src/sldc.rs reads back what the encoding writes.
use mathlib.Core.List.{reverse, append_assoc}
use openwec.Prelude.{
  ℕ, zero, suc, ◌<◌, ◌≤◌, ◌≡◌, refl, ap, ◌∙◌, arith, Bool, true, false, not, some, List, [], ◌∷◌,
  ◌++◌, ok, eqb, length, length-append, any, All,
}
use openwec.Server.BitReader.{BitReader, BitReaderLaws, take_bits}
use openwec.Server.Sldc.{
  done, State, next, stored, literal_1, copy_pointer, symbol_1, round, rounds, decompress, initial,
  new_history, control, ctrlsymb_end_of_record, ctrlsymb_reset_1,
}
use openwec.Server.Sldc.Progress.{length-take_bits, store-done}
use openwec.Server.Sldc.Ring.{recalled, Holds, initial-Holds, stored-Holds, copy-Holds}
use openwec.Server.Sldc.Encoding.{
  Token, literal, match_string, IsToken, expand, to_bits, size_bits, token_bits, tokens_bits,
  record_bits, length-to_bits, leb-to_bits, value-any, length-match, match_free, length-match,
  match_free,
}
use openwec.Server.Sldc.Counts.{
  peek_known, bits_after, read_known, read_u8_known, match_count_known,
}

some_bits : (tokens : List Token) (padding : List Bool) → 1 ≤ length (tokens_bits tokens padding)
unfolding tokens_bits token_bits to_bits
some_bits [] padding = omega arith
some_bits (literal c ∷ tokens) padding = omega arith
some_bits (match_string size k ∷ tokens) padding = omega arith

module _ {R : Type 0} (reader : BitReader R) (laws : BitReaderLaws reader) where
  -- A round reads a symbol: the loop goes on behind it, after the output that the symbol stands for.
  abbrev GoesOn : R → State → List ℕ → List Bool → Type 0
  GoesOn r s out rest =
      (r' : R) × (s' : State) × (round reader r s ≡ done (next r' s'))
      × (length (laws.bits r') < length (laws.bits r))
      × (laws.bits r' ≡ rest)
      × Holds out s'
      × (s'.scheme_1 ≡ true)

  peek_free :
      (r : R) (known : List Bool)
      → laws.bits r ≡ known
      → 9 ≤ length known
      → any not (take_bits 9 known) ≡ true
      → (mark : ℕ) × (reader.peek_u16 9 r ≡ ok mark) × (eqb mark 0x1ff ≡ false)
  peek_free r known e long free = (
    _,
    peek_known reader laws 9 r known e (omega arith) long,
    ground (arith, value-any (take_bits 9 known) free, length-take_bits 9 known long),
  )

  first_known :
      (b : Bool) (r : R) (rest : List Bool)
      → laws.bits r ≡ b ∷ rest
      → (reader.read_bool r ≡ ok (b, laws.advance 1 r)) × (laws.bits (laws.advance 1 r) ≡ rest)
  first_known b r rest e =
      (rw (laws.read_bool-bits r, e) (ground arith), laws.bits-advance 1 r ∙ rw e refl)

  round_scheme_1 :
      (r : R) (s : State) {mark : ℕ}
      → reader.peek_u16 9 r ≡ ok mark
      → eqb mark 0x1ff ≡ false
      → s.scheme_1 ≡ true
      → round reader r s ≡ symbol_1 reader r s
  unfolding round
  round_scheme_1 r s peeked free scheme = rw (peeked, free, scheme) refl

  round_literal :
      (c : ℕ) (r : R) (s : State) (out : List ℕ) (rest : List Bool)
      → c < 256
      → Holds out s
      → s.scheme_1 ≡ true
      → laws.bits r ≡ token_bits (literal c) ++ rest
      → GoesOn r s (c ∷ out) rest
  unfolding symbol_1 literal_1 token_bits to_bits
  round_literal c r s out rest small holds scheme e =
      let (mark, peeked, free) = peek_free r _ e (omega arith) refl in
      let (read, after) = first_known false r _ e in
      (
        laws.advance 8 (laws.advance 1 r),
        stored c s,
        round_scheme_1 r s peeked free scheme
            ∙ rw (read, read_u8_known reader laws c _ rest after small, store-done c s holds.1)
                refl,
        omega (arith, ap length e, ap length (bits_after reader laws 8 c _ rest after)),
        bits_after reader laws 8 c _ rest after,
        stored-Holds c out s holds,
        scheme,
      )

  round_match :
      (size k : ℕ) (r : R) (s : State) (out : List ℕ) (rest : List Bool)
      → IsToken (match_string size k)
      → Holds out s
      → s.scheme_1 ≡ true
      → laws.bits r ≡ token_bits (match_string size k) ++ rest
      → GoesOn r s (recalled size k out) rest
  unfolding symbol_1 copy_pointer token_bits
  round_match size k r s out rest (two, small, below) holds scheme e =
      let (mark, peeked, free) =
        peek_free r _ e (omega (arith, length-match size k rest)) (match_free size k rest small) in
      let (read, after) = first_known true r _ e in
      let (r', counted, left) =
        match_count_known reader laws size _ (to_bits 10 k ++ rest) two small
          (after ∙ append_assoc (size_bits size) (to_bits 10 k) rest)
          (ground (arith, leb-to_bits 10 k rest)) in
      let (s', copied, kept, same) = copy-Holds size k out s holds in
      (
        laws.advance 10 r',
        s',
        round_scheme_1 r s peeked free scheme
            ∙ rw
                (
                  read,
                  counted,
                  read_known reader laws 10 k r' rest left (omega arith) below,
                  copied,
                )
                refl,
        omega (
          arith,
          ap length e,
          ap length (bits_after reader laws 10 k r' rest left),
          length-append (size_bits size ++ to_bits 10 k) rest,
        ),
        bits_after reader laws 10 k r' rest left,
        kept,
        same ∙ scheme,
      )

  remaining_more : (r : R) → 1 ≤ length (laws.bits r) → eqb (reader.remaining r) 0 ≡ false
  remaining_more r h = ground (arith, laws.remaining-bits r)

  -- One more round of the loop.
  rounds_step :
      (fuel : ℕ) (r r' : R) (s s' : State)
      → length (laws.bits r) ≤ suc fuel
      → 1 ≤ length (laws.bits r)
      → round reader r s ≡ done (next r' s')
      → rounds reader (suc fuel) r s ≡ rounds reader fuel r' s'
  unfolding rounds
  rounds_step fuel r r' s s' enough some_left goes = rw (remaining_more r some_left, goes) refl

  round_end :
      (fuel : ℕ) (r : R) (s : State) (padding : List Bool)
      → laws.bits r ≡ to_bits 13 ctrlsymb_end_of_record ++ padding
      → rounds reader (suc fuel) r s ≡ some (done s.res)
  unfolding rounds round control to_bits
  round_end fuel r s padding e =
      rw
        (
          remaining_more r (omega (arith, ap length e)),
          peek_known reader laws 9 r _ e (omega arith) (omega arith),
          read_known reader laws 13 ctrlsymb_end_of_record r padding e (omega arith) (omega arith),
        )
        refl

  rounds_known :
      (tokens : List Token) (fuel : ℕ) (r : R) (s : State) (out : List ℕ) (padding : List Bool)
      → All IsToken tokens
      → Holds out s
      → s.scheme_1 ≡ true
      → laws.bits r ≡ tokens_bits tokens padding
      → length (laws.bits r) ≤ fuel
      → rounds reader fuel r s ≡ some (done (reverse (expand tokens out)))
  unfolding tokens_bits expand
  rounds_known tokens zero r s out padding all holds scheme e enough =
      absurd (omega (arith, ap length e, some_bits tokens padding))
  rounds_known [] (suc fuel) r s out padding all holds scheme e enough =
      round_end fuel r s padding e ∙ ap (λ (o : List ℕ). some (done o)) holds.3
  rounds_known (literal c ∷ tokens) (suc fuel) r s out padding (is_token, all) holds scheme e
        enough =
      let (r', s', goes, less, left, held, on) =
        round_literal c r s out _ is_token holds scheme e in
      rounds_step fuel r r' s s' enough (omega arith) goes
      ∙ rounds_known tokens fuel r' s' (c ∷ out) padding all held on left (omega arith)
  rounds_known (match_string size k ∷ tokens) (suc fuel) r s out padding (is_token, all) holds
        scheme e enough =
      let (r', s', goes, less, left, held, on) =
        round_match size k r s out _ is_token holds scheme e in
      rounds_step fuel r r' s s' enough (omega arith) goes
      ∙ rounds_known tokens fuel r' s' (recalled size k out) padding all held on left (omega arith)

  round_start :
      (fuel : ℕ) (r : R) (rest : List Bool)
      → laws.bits r ≡ to_bits 13 ctrlsymb_reset_1 ++ rest
      → (s : State) × (rounds reader (suc fuel) r initial
          ≡ rounds reader fuel (laws.advance 13 r) s)
        × (laws.bits (laws.advance 13 r) ≡ rest)
        × Holds [] s
        × (s.scheme_1 ≡ true)
  unfolding rounds round control to_bits initial
  round_start fuel r rest e = (
    record initial { scheme_1 = true; history_buffer = new_history },
    rw
        (
          remaining_more r (omega (arith, ap length e)),
          peek_known reader laws 9 r _ e (omega arith) (omega arith),
          read_known reader laws 13 ctrlsymb_reset_1 r rest e (omega arith) (omega arith),
        )
        refl,
    bits_after reader laws 13 ctrlsymb_reset_1 r rest e,
    initial-Holds (record initial { scheme_1 = true; history_buffer = new_history }) refl refl refl,
    refl,
  )

  run_known :
      (tokens : List Token) (padding : List Bool) (fuel : ℕ) (r : R)
      → All IsToken tokens
      → laws.bits r ≡ record_bits tokens padding
      → length (laws.bits r) ≤ fuel
      → rounds reader fuel r initial ≡ some (done (reverse (expand tokens [])))
  unfolding record_bits
  run_known tokens padding zero r all e enough = absurd (
      omega (
        arith,
        ap length e,
        length-append (to_bits 13 ctrlsymb_reset_1) (tokens_bits tokens padding),
        length-to_bits 13 ctrlsymb_reset_1,
      ))
  run_known tokens padding (suc fuel) r all e enough =
      let (s, starts, left, held, on) = round_start fuel r _ e in
      starts
      ∙ rounds_known tokens fuel (laws.advance 13 r) s [] padding all held on left (
          omega (
            arith,
            ap length e,
            ap length left,
            length-append (to_bits 13 ctrlsymb_reset_1) (tokens_bits tokens padding),
            length-to_bits 13 ctrlsymb_reset_1,
          ))

  -- A record of scheme 1 tokens, each of a byte, or of a match whose size and displacement have a
  -- code, decompresses to the bytes that the tokens stand for, whatever follows the mark of its end,
  -- when the bit reader obeys its laws.
  pub decompress-record_bits :
      (tokens : List Token) (padding : List Bool) (r : R)
      → All IsToken tokens
      → laws.bits r ≡ record_bits tokens padding
      → decompress reader r ≡ some (done (reverse (expand tokens [])))
  unfolding decompress
  decompress-record_bits tokens padding r all e =
      run_known tokens padding (reader.remaining r) r all e (omega (arith, laws.remaining-bits r))
