-- ===== src/Server/Sldc/Counts.antt =====
-- Reads of known bits, and of match counts (server/src/sldc.rs).
use Prim.Native.Nat.{bit_and, ◌-◌, ◌^◌, ◌/◌}
use openwec.Prelude.{
  ℕ, ◌+◌, ◌*◌, ◌<◌, ◌≤◌, ◌≡◌, refl, ap, ◌∙◌, arith, Bool, true, false, not, List, ◌∷◌, ◌++◌, ok,
  ltb, leb, eqb, length, Bool-cases, inl, inr,
}
use openwec.Server.BitReader.{BitReader, BitReaderLaws, value, bit, take_bits}
use openwec.Server.Sldc.{done, match_count}
use openwec.Server.Sldc.Progress.{passes_under, passed, value-below, length-take_bits}
use openwec.Server.Sldc.Encoding.{
  to_bits, size_bits, value-to_bits, take-to_bits, drop-to_bits, leb-to_bits,
}

-- The masks on the first four bits of a match count field.
masks_low : (v : ℕ) → v < 8 → (eqb (bit_and v 8) 0 ≡ true) × (bit_and v 4 / 4 ≡ v / 4)
unfolding passes_under
masks_low v h = (
  passed (λ v. eqb (bit_and v 8) 0) 8 v h refl,
  ground (arith, passed (λ v. eqb (bit_and v 4 / 4) (v / 4)) 8 v h refl),
)

masks_high :
    (w : ℕ)
    → w < 4
    → (eqb (bit_and (8 + w) 8) 0 ≡ false)
      × (eqb (bit_and (8 + w) 4) 0 ≡ true)
      × (bit_and (8 + w) 3 ≡ w)
unfolding passes_under
masks_high w h = (
  ground (arith, passed (λ w. not (eqb (bit_and (8 + w) 8) 0)) 4 w h refl),
  passed (λ w. eqb (bit_and (8 + w) 4) 0) 4 w h refl,
  ground (arith, passed (λ w. eqb (bit_and (8 + w) 3) w) 4 w h refl),
)

free_field : (v : ℕ) → v < 240 → eqb (bit_and v 0xf0) 0xf0 ≡ false
unfolding passes_under
free_field v h = ground (arith, passed (λ v. not (eqb (bit_and v 0xf0) 0xf0)) 240 v h refl)

bit_bound : (b : Bool) → bit b ≤ 1
bit_bound true = omega arith
bit_bound false = omega arith

module _ {R : Type 0} (reader : BitReader R) (laws : BitReaderLaws reader) where
  pub peek_known :
      (n : ℕ) (r : R) (known : List Bool)
      → laws.bits r ≡ known
      → n ≤ 16
      → n ≤ length known
      → reader.peek_u16 n r ≡ ok (value (take_bits n known))
  peek_known n r known e fits long = rw (laws.peek_u16-bits n r fits, e) (ground arith)

  pub skip_known :
      (n : ℕ) (r : R) (known : List Bool)
      → laws.bits r ≡ known
      → n ≤ length known
      → reader.skip n r ≡ ok (laws.advance n r)
  skip_known n r known e long = rw (laws.skip-bits n r, e) (ground arith)

  pub bits_after :
      (n v : ℕ) (r : R) (rest : List Bool)
      → laws.bits r ≡ to_bits n v ++ rest
      → laws.bits (laws.advance n r) ≡ rest
  bits_after n v r rest e = laws.bits-advance n r ∙ rw e (drop-to_bits n v rest)

  pub read_known :
      (n v : ℕ) (r : R) (rest : List Bool)
      → laws.bits r ≡ to_bits n v ++ rest
      → n ≤ 16
      → v < 2 ^ n
      → reader.read_u16 n r ≡ ok (v, laws.advance n r)
  read_known n v r rest e fits small =
      rw
        (
          laws.read_u16-bits n r fits,
          e,
          leb-to_bits n v rest,
          take-to_bits n v rest,
          value-to_bits n v small,
        )
        refl

  pub read_u8_known :
      (v : ℕ) (r : R) (rest : List Bool)
      → laws.bits r ≡ to_bits 8 v ++ rest
      → v < 256
      → reader.read_u8 8 r ≡ ok (v, laws.advance 8 r)
  read_u8_known v r rest e small =
      rw
        (
          laws.read_u8-bits 8 r (omega arith),
          e,
          leb-to_bits 8 v rest,
          take-to_bits 8 v rest,
          value-to_bits 8 v small,
        )
        refl

  -- The five forms of a match count field, by the first four bits.
  count_low :
      (v : ℕ) (r : R) {r' : R}
      → reader.peek_u16 4 r ≡ ok v
      → v < 8
      → reader.skip 2 r ≡ ok r'
      → match_count reader r ≡ done (2 + v / 4, r')
  unfolding match_count
  count_low v r peek h skipped =
      let (test, field) = masks_low v h in rw (peek, test, skipped, field) refl

  count_ten :
      (w : ℕ) (r : R) {r' : R}
      → reader.peek_u16 4 r ≡ ok (8 + w)
      → w < 4
      → reader.skip 4 r ≡ ok r'
      → match_count reader r ≡ done (4 + w, r')
  unfolding match_count
  count_ten w r peek h skipped =
      let (first, second, field) = masks_high w h in rw (peek, first, second, skipped, field) refl

  count_twelve :
      (b : Bool) (field : ℕ) (r r1 : R) {r' : R}
      → reader.peek_u16 4 r ≡ ok (12 + bit b)
      → reader.skip 3 r ≡ ok r1
      → reader.read_u16 3 r1 ≡ ok (field, r')
      → match_count reader r ≡ done (8 + field, r')
  unfolding match_count
  count_twelve true field r r1 peek skipped read = rw (peek, skipped, read) refl
  count_twelve false field r r1 peek skipped read = rw (peek, skipped, read) refl

  count_fourteen :
      (field : ℕ) (r r1 : R) {r' : R}
      → reader.peek_u16 4 r ≡ ok 14
      → reader.skip 4 r ≡ ok r1
      → reader.read_u16 4 r1 ≡ ok (field, r')
      → match_count reader r ≡ done (16 + field, r')
  unfolding match_count
  count_fourteen field r r1 peek skipped read = rw (peek, skipped, read) refl

  count_fifteen :
      (field : ℕ) (r r1 : R) {r' : R}
      → reader.peek_u16 4 r ≡ ok 15
      → reader.skip 4 r ≡ ok r1
      → reader.read_u16 8 r1 ≡ ok (field, r')
      → field < 240
      → match_count reader r ≡ done (32 + field, r')
  unfolding match_count
  count_fifteen field r r1 peek skipped read h = rw (peek, skipped, read, free_field field h) refl

  -- A match count is read back, and the reader stands behind it.
  abbrev Reads : ℕ → R → List Bool → Type 0
  Reads size r rest = (r' : R) × (match_count reader r ≡ done (size, r')) × (laws.bits r' ≡ rest)

  peek_pair :
      (a b : Bool) (r : R) (rest : List Bool)
      → laws.bits r ≡ a ∷ b ∷ rest
      → 2 ≤ length rest
      → reader.peek_u16 4 r ≡ ok (bit a * 8 + bit b * 4 + value (take_bits 2 rest))
  peek_pair a b r rest e long =
      peek_known 4 r _ e (omega arith) (omega arith)
      ∙ rw (length-take_bits 2 rest long) (ap ok (omega arith))

  Reads-low :
      (x : Bool) (r : R) (rest : List Bool)
      → laws.bits r ≡ false ∷ x ∷ rest
      → 2 ≤ length rest
      → Reads (2 + bit x) r rest
  Reads-low x r rest e long =
      let small = value-below 2 rest long in
      let counted =
        count_low _ r (peek_pair false x r rest e long) (omega (arith, bit_bound x))
          (skip_known 2 r _ e (omega arith)) in
      (
        laws.advance 2 r,
        counted ∙ ap (λ (n : ℕ). done (n, laws.advance 2 r)) (omega (arith, bit_bound x)),
        laws.bits-advance 2 r ∙ rw e refl,
      )

  Reads-ten :
      (w : ℕ) (r : R) (rest : List Bool)
      → laws.bits r ≡ true ∷ false ∷ to_bits 2 w ++ rest
      → w < 4
      → Reads (4 + w) r rest
  Reads-ten w r rest e small =
      let long : 2 ≤ length (to_bits 2 w ++ rest) = ground (arith, leb-to_bits 2 w rest) in
      (
        laws.advance 4 r,
        count_ten w r
            (peek_pair true false r _ e long
              ∙ rw (take-to_bits 2 w rest, value-to_bits 2 w small) refl)
            small (skip_known 4 r _ e (omega arith)),
        laws.bits-advance 4 r ∙ rw e (drop-to_bits 2 w rest),
      )

  Reads-twelve :
      (w : ℕ) (r : R) (rest : List Bool)
      → laws.bits r ≡ true ∷ true ∷ false ∷ to_bits 3 w ++ rest
      → w < 8
      → Reads (8 + w) r rest
  unfolding to_bits
  Reads-twelve w r rest e small =
      let after : laws.bits (laws.advance 3 r) ≡ to_bits 3 w ++ rest =
        laws.bits-advance 3 r ∙ rw e refl in
      (
        laws.advance 3 (laws.advance 3 r),
        count_twelve (leb 4 w) w r _ (peek_pair true true r _ e (omega arith) ∙ ap ok (omega arith))
            (skip_known 3 r _ e (omega arith)) (read_known 3 w _ rest after (omega arith) small),
        bits_after 3 w _ rest after,
      )

  Reads-fourteen :
      (w : ℕ) (r : R) (rest : List Bool)
      → laws.bits r ≡ true ∷ true ∷ true ∷ false ∷ to_bits 4 w ++ rest
      → w < 16
      → Reads (16 + w) r rest
  Reads-fourteen w r rest e small =
      let after : laws.bits (laws.advance 4 r) ≡ to_bits 4 w ++ rest =
        laws.bits-advance 4 r ∙ rw e refl in
      (
        laws.advance 4 (laws.advance 4 r),
        count_fourteen w r _ (peek_pair true true r _ e (omega arith))
            (skip_known 4 r _ e (omega arith)) (read_known 4 w _ rest after (omega arith) small),
        bits_after 4 w _ rest after,
      )

  Reads-fifteen :
      (w : ℕ) (r : R) (rest : List Bool)
      → laws.bits r ≡ true ∷ true ∷ true ∷ true ∷ to_bits 8 w ++ rest
      → w < 240
      → Reads (32 + w) r rest
  Reads-fifteen w r rest e small =
      let after : laws.bits (laws.advance 4 r) ≡ to_bits 8 w ++ rest =
        laws.bits-advance 4 r ∙ rw e refl in
      (
        laws.advance 8 (laws.advance 4 r),
        count_fifteen w r _ (peek_pair true true r _ e (omega arith))
            (skip_known 4 r _ e (omega arith))
            (read_known 8 w _ rest after (omega arith) (omega arith)) small,
        bits_after 8 w _ rest after,
      )

  Reads-as : (n size : ℕ) (r : R) (rest : List Bool) → n ≡ size → Reads n r rest → Reads size r rest
  Reads-as n size r rest e (r', counted, left) =
      (r', counted ∙ ap (λ (n : ℕ). done (n, r')) e, left)

  pub match_count_known :
      (size : ℕ) (r : R) (rest : List Bool)
      → 2 ≤ size
      → size ≤ 271
      → laws.bits r ≡ size_bits size ++ rest
      → 2 ≤ length rest
      → Reads size r rest
  unfolding size_bits to_bits
  match_count_known size r rest two small e long = elim (Bool-cases (ltb size 4)) [
    | inl a ↦
        Reads-as _ size r rest (omega (arith, value-to_bits 1 (size - 2) (ground arith)))
          (Reads-low (leb 1 (size - 2)) r rest (rw a at e) long)
    | inr a ↦ elim (Bool-cases (ltb size 8)) [
      | inl b ↦
          Reads-as _ size r rest (ground arith)
            (Reads-ten (size - 4) r rest (rw (a, b) at e) (ground arith))
      | inr b ↦ elim (Bool-cases (ltb size 16)) [
        | inl c ↦
            Reads-as _ size r rest (ground arith)
              (Reads-twelve (size - 8) r rest (rw (a, b, c) at e) (ground arith))
        | inr c ↦ elim (Bool-cases (ltb size 32)) [
          | inl d ↦
              Reads-as _ size r rest (ground arith)
                (Reads-fourteen (size - 16) r rest (rw (a, b, c, d) at e) (ground arith))
          | inr d ↦
              Reads-as _ size r rest (ground arith)
                (Reads-fifteen (size - 32) r rest (rw (a, b, c, d) at e) (ground arith))
        ]
      ]
    ]
  ]
