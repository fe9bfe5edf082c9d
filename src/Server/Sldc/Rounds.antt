-- ===== src/Server/Sldc/Rounds.antt =====
-- The rounds of the SLDC loop (server/src/sldc.rs): no panic, and the fuel and the output bounded
-- by the bits that are left.
use openwec.Prelude.{
  ℕ, zero, suc, ◌+◌, ◌*◌, ◌≤◌, ◌<◌, ◌≡◌, ◌≢◌, refl, ap, arith, Option, none, some, List, Error, eqb,
  length,
}
use openwec.Server.BitReader.{BitReader, BitReaderLaws}
use openwec.Server.Sldc.{
  Run, done, failed, panics, ◌>>=◌, lift, State, Round, returns, next, store, copy, control,
  literal_1, copy_pointer, symbol_1, symbol_2, round, rounds, initial, decompress, new_history,
  next_state, ctrlsymb_flush, ctrlsymb_scheme_1, ctrlsymb_scheme_2, ctrlsymb_file_mark,
  ctrlsymb_end_of_record, ctrlsymb_reset_1, ctrlsymb_reset_2, ctrlsymb_end_marker, after_round,
}
use openwec.Server.Sldc.Progress.{
  IsHistory, new_history-IsHistory, store-done, stored-IsHistory, length-stored, copy-done,
}
use openwec.Server.Sldc.Reads.{
  size_left, after_test, after_peek, after_read_u16, after_read_u8, after_read_bool, after_skip,
  after_match_count,
}

module _ {R : Type 0} (reader : BitReader R) (laws : BitReaderLaws reader) where
  -- What a round leaves: a reader of fewer bits, and an output that grew by at most 12 bytes per bit.
  abbrev Goes : R → State → Run (Round R) → Type 0
  Goes r s (failed e) = Unit
  Goes r s panics = ⊥
  Goes r s (done (returns out)) = out ≡ s.res
  Goes r s (done (next r' s')) =
      IsHistory s'
      × (size_left reader laws r' < size_left reader laws r)
      × (length s'.res + 12 * size_left reader laws r'
          ≤ length s.res + 12 * size_left reader laws r)

  literal_1-Goes :
      (r start : R) (s : State)
      → IsHistory s
      → size_left reader laws r + 1 ≡ size_left reader laws start
      → Goes start s (literal_1 reader r s)
  unfolding literal_1
  literal_1-Goes r start s h less =
      after_read_u8 reader laws (Goes start s) 8 r _ (omega arith) (λ _. tt)
        λ c r' small left.
          rw (store-done c s h)
            (stored-IsHistory c s h, omega arith, omega (arith, length-stored c s))

  copy_pointer-Goes :
      (r start : R) (s : State)
      → IsHistory s
      → size_left reader laws r + 1 ≡ size_left reader laws start
      → Goes start s (copy_pointer reader r s)
  unfolding copy_pointer
  copy_pointer-Goes r start s h less =
      after_match_count reader laws
        (λ count. Goes start s (
          count >>= λ (size, r). lift (reader.read_u16 10 r) >>= λ (displacement, r).
          copy size displacement s >>= λ s. done (next r s)))
        r (λ _. tt)
        λ size r1 m left1 two small.
          after_read_u16 reader laws (Goes start s) 10 r1 _ (omega arith) (λ _. tt)
            λ k r' below left.
              let (after, copied, kept, grown) = copy-done size k s h in
              rw copied (kept, omega arith, omega arith)

  symbol_1-Goes : (r : R) (s : State) → IsHistory s → Goes r s (symbol_1 reader r s)
  unfolding symbol_1
  symbol_1-Goes r s h =
      after_read_bool reader laws (Goes r s) r _ (λ _. tt)
        λ copies r1 left.
          after_test (Goes r s) copies _ _ (λ _. copy_pointer-Goes r1 r s h left)
            λ _. literal_1-Goes r1 r s h left

  symbol_2-Goes : (r : R) (s : State) → IsHistory s → Goes r s (symbol_2 reader r s)
  unfolding symbol_2
  symbol_2-Goes r s h =
      after_read_u8 reader laws (Goes r s) 8 r _ (omega arith) (λ _. tt)
        λ c r1 small left1.
          after_test (λ run. Goes r s (run >>= λ r. store c s >>= λ s. done (next r s)))
            (eqb c 0xff) _ _
            (λ _.
              after_skip reader laws (Goes r s) 1 r1 _ (λ _. tt)
                λ r2 left2.
                  rw (store-done c s h)
                    (stored-IsHistory c s h, omega arith, omega (arith, length-stored c s)))
            λ _.
              rw (store-done c s h)
                (stored-IsHistory c s h, omega arith, omega (arith, length-stored c s))

  -- A control symbol keeps the output, and a history that it resets has its size.
  after_control {u} :
      (P : Run (Option State) → Type u) (symb : ℕ) (s : State)
      → IsHistory s
      → ((e : Error) → P (failed e))
      → P (done none)
      → ((s' : State) → IsHistory s' → s'.res ≡ s.res → P (done (some s')))
      → P (control symb s)
  unfolding control
  after_control P symb s h fails ends goes =
      let reset : (length new_history ≡ 1024) × (s.history_index < 1024) =
        (new_history-IsHistory, h.1) in
      after_test P (eqb symb ctrlsymb_flush) _ _ (λ _. goes s h refl)
        λ _.
          after_test P (eqb symb ctrlsymb_scheme_1) _ _ (λ _. goes _ h refl)
            λ _.
              after_test P (eqb symb ctrlsymb_scheme_2) _ _ (λ _. goes _ h refl)
                λ _.
                  after_test P (eqb symb ctrlsymb_file_mark) _ _ (λ _. goes s h refl)
                    λ _.
                      after_test P (eqb symb ctrlsymb_end_of_record) _ _ (λ _. ends)
                        λ _.
                          after_test P (eqb symb ctrlsymb_reset_1) _ _ (λ _. goes _ reset refl)
                            λ _.
                              after_test P (eqb symb ctrlsymb_reset_2) _ _ (λ _. goes _ reset refl)
                                λ _.
                                  after_test P (eqb symb ctrlsymb_end_marker) _ _
                                    (λ _. goes s h refl) λ _. fails _

  control-Goes :
      (symb : ℕ) (r start : R) (s : State)
      → IsHistory s
      → size_left reader laws r < size_left reader laws start
      → Goes start s (control symb s >>= λ after. next_state reader s.res r after)
  control-Goes symb r start s h less =
      after_control (λ run. Goes start s (run >>= λ after. next_state reader s.res r after)) symb s
        h (λ _. tt) refl λ s' kept same. (kept, less, omega (arith, ap length same))

  round-Goes : (r : R) (s : State) → IsHistory s → Goes r s (round reader r s)
  unfolding round
  round-Goes r s h =
      after_peek reader laws (Goes r s) 9 r _ (omega arith) (λ _. tt)
        λ enough mark below.
          after_test (Goes r s) (eqb mark 0x1ff) _ _
            (λ _.
              after_read_u16 reader laws (Goes r s) 13 r _ (omega arith) (λ _. tt)
                λ symb r' small left. control-Goes symb r' r s h (omega arith))
            λ _.
              after_test (Goes r s) s.scheme_1 _ _ (λ _. symbol_1-Goes r s h)
                λ _. after_test (Goes r s) s.scheme_2 _ _ (λ _. symbol_2-Goes r s h) λ _. tt

  -- The loop comes to an end: not out of fuel, and without a panic.
  abbrev Ends : R → State → Option (Run (List ℕ)) → Type 0
  Ends r s none = ⊥
  Ends r s (some (done out)) = length out ≤ length s.res + 12 * size_left reader laws r
  Ends r s (some (failed e)) = Unit
  Ends r s (some panics) = ⊥

  Ends-trans :
      (r r' : R) (s s' : State) (result : Option (Run (List ℕ)))
      → length s'.res + 12 * size_left reader laws r' ≤ length s.res + 12 * size_left reader laws r
      → Ends r' s' result
      → Ends r s result
  Ends-trans r r' s s' (some (done out)) grown ends = omega arith
  Ends-trans r r' s s' (some (failed e)) grown ends = tt
  Ends-trans r r' s s' none grown ends = elim ends [ ]
  Ends-trans r r' s s' (some panics) grown ends = elim ends [ ]

  after_round-Ends :
      (fuel : ℕ) (r : R) (s : State) (result : Run (Round R))
      → size_left reader laws r ≤ suc fuel
      → ((r' : R) (s' : State)
          → IsHistory s'
          → size_left reader laws r' ≤ fuel
          → Ends r' s' (rounds reader fuel r' s'))
      → Goes r s result
      → Ends r s (after_round reader (λ r s. rounds reader fuel r s) result)
  after_round-Ends fuel r s (done (returns out)) h ih goes = omega (arith, ap length goes)
  after_round-Ends fuel r s (failed e) h ih goes = tt
  after_round-Ends fuel r s (done (next r' s')) h ih (kept, less, grown) =
      Ends-trans r r' s s' (rounds reader fuel r' s') grown (ih r' s' kept (omega arith))
  after_round-Ends fuel r s panics h ih goes = elim goes [ ]

  rounds-Ends :
      (fuel : ℕ) (r : R) (s : State)
      → IsHistory s
      → size_left reader laws r ≤ fuel
      → Ends r s (rounds reader fuel r s)
  unfolding rounds
  rounds-Ends zero r s h enough =
      rw (laws.remaining-bits r)
        (after_test (Ends r s) (eqb (size_left reader laws r) 0) _ _ (λ _. tt) λ left. ground arith)
  rounds-Ends (suc fuel) r s h enough =
      after_test (Ends r s) (eqb (reader.remaining r) 0) _ _ (λ _. tt)
        λ left.
          after_round-Ends fuel r s (round reader r s) enough
            (λ r' s' kept fits. rounds-Ends fuel r' s' kept fits) (round-Goes r s h)

  initial-IsHistory : IsHistory initial
  unfolding initial
  initial-IsHistory = (new_history-IsHistory, omega arith)

  decompress-Ends : (r : R) → Ends r initial (decompress reader r)
  unfolding decompress
  decompress-Ends r =
      rounds-Ends (reader.remaining r) r initial initial-IsHistory
        (omega (arith, laws.remaining-bits r))

  -- Decompression ends on every input: the fuel that it starts with is enough and it does not panic,
  -- so that it returns the bytes or an error, when the bit reader obeys its laws.
  pub decompress-returns :
      (r : R) → (decompress reader r ≢ none) × (decompress reader r ≢ some panics)
  decompress-returns r =
      (λ stuck. rw stuck at (decompress-Ends r), λ panic. rw panic at (decompress-Ends r))

  -- The output has at most 12 bytes for each bit of the compressed data, when the bit reader obeys
  -- its laws.
  pub length-decompress :
      (r : R) (out : List ℕ)
      → decompress reader r ≡ some (done out)
      → length out ≤ 12 * reader.remaining r
  unfolding initial
  length-decompress r out h =
      let bound : Ends r initial (some (done out)) = rw h at (decompress-Ends r) in
      omega (arith, bound, laws.remaining-bits r)
