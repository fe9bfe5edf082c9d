-- ===== src/Server/Files/Prefix.antt =====
-- The names in paths of the Files driver (server/src/drivers/files.rs): prefixes of addresses, and
-- principals that are safe as a part of a path.
use Prim.Native.Char.{Char, code}
use openwec.Prelude.{
  ℕ, zero, suc, ◌+◌, ◌≤◌, ◌≡◌, refl, ap, ◌∙◌, sym, arith, String, Bool, true, false, ◌&&◌, List, [],
  ◌∷◌, leb, eqb, Bool-cases, inl, inr, if◌then◌else◌,
}
use text.Mathlib.TextLemmas.{nil-append, cons-append}
use openwec.Prelude.Text.{split, join, on_head, has_char}
use openwec.Server.Files.Names.{
  split_from, split_ip, sanitize_index, is_allowed, sanitize_from, sanitize_name,
}

abbrev pub take : ℕ → List String → List String
take zero pieces = []
take (suc n) [] = []
take (suc n) (piece ∷ pieces) = piece ∷ take n pieces

abbrev pub char_count : String → ℕ
char_count String.[] = 0
char_count (String.◌∷◌ c s) = suc (char_count s)

abbrev pub all_chars : (Char → Bool) → String → Bool
all_chars p String.[] = true
all_chars p (String.◌∷◌ c s) = p c && all_chars p s

join-on_head :
    (sep c : Char) (n : ℕ) (s : String) (ss : List String)
    → join sep (take (suc n) (on_head c (s ∷ ss))) ≡ String.◌∷◌ c (join sep (take (suc n) (s ∷ ss)))
unfolding join
join-on_head sep c zero s ss = refl
join-on_head sep c (suc n) s [] = refl
join-on_head sep c (suc n) s (t ∷ ss) = cons-append c s _

split-cons :
    (sep : Char) (text : String) → (s : String) × (ss : List String) × (split sep text ≡ s ∷ ss)
unfolding split
split-cons sep String.[] = (String.[], [], refl)
split-cons sep (String.◌∷◌ c text) =
    let (s, ss, e) = split-cons sep text in
    elim (Bool-cases (eqb (code c) (code sep))) [
      | inl found ↦ (String.[], split sep text, rw found refl)
      | inr other ↦ (String.◌∷◌ c s, ss, rw (other, e) refl)
    ]

-- A character that is no separator stays in its piece.
split_from_other :
    (sep c : Char) (n count index : ℕ) (text : String)
    → eqb (code c) (code sep) ≡ false
    → split_from count index sep text ≡ join sep (take (suc n) (split sep text))
    → split_from count index sep (String.◌∷◌ c text)
      ≡ join sep (take (suc n) (split sep (String.◌∷◌ c text)))
unfolding split_from split
split_from_other sep c n count index text other h =
    let (s, ss, pieces) = split-cons sep text in
    rw (other, split_from)
      (ap (λ (t : String). String.◌∷◌ c t) h ∙ rw pieces (sym (join-on_head sep c n s ss)))

split_from-join :
    (sep : Char) (n count index : ℕ) (text : String)
    → index ≡ count + suc n
    → split_from count index sep text ≡ join sep (take (suc n) (split sep text))
unfolding split_from split join
split_from-join sep zero count index String.[] e = refl
split_from-join sep (suc n) count index String.[] e = refl
split_from-join sep zero count index (String.◌∷◌ c text) e =
    elim (Bool-cases (eqb (code c) (code sep))) [
      | inl found ↦ rw (found, last, split_from) refl
      | inr other ↦
          split_from_other sep c zero count index text other
            (split_from-join sep zero count index text e)
    ]
  where
    last : leb index (count + 1) ≡ true
    last = ground arith
split_from-join sep (suc n) count index (String.◌∷◌ c text) e =
    let (s, ss, pieces) = split-cons sep text in
    elim (Bool-cases (eqb (code c) (code sep))) [
      | inl found ↦
          rw
            (
              found,
              more,
              split_from,
              split_from-join sep n (count + 1) index text (omega arith),
              pieces,
            )
            (sym (nil-append _))
      | inr other ↦
          split_from_other sep c (suc n) count index text other
            (split_from-join sep (suc n) count index text e)
    ]
  where
    more : leb index (count + 1) ≡ false
    more = ground arith

split_from_first :
    (sep : Char) (m : ℕ) (text : String)
    → 1 ≤ m
    → split_from 0 m sep text ≡ join sep (take m (split sep text))
split_from_first sep zero text h = absurd (omega arith)
split_from_first sep (suc n) text h = split_from-join sep n 0 (suc n) text (omega arith)

-- The name of an address under an index is its first pieces, as many as the index in its range says.
pub split_ip-join :
    (is_ipv4 : String → Bool) (ip : String) (index : ℕ)
    → split_ip is_ipv4 ip index ≡ (
        if is_ipv4 ip
        then join "." (take (sanitize_index 4 index) (split "." ip))
        else join ":" (take (sanitize_index 8 index) (split ":" ip)))
unfolding split_ip
split_ip-join is_ipv4 ip index = elim (Bool-cases (is_ipv4 ip)) [
  | inl v4 ↦ rw v4 (split_from_first "." (sanitize_index 4 index) ip (ground arith))
  | inr v6 ↦ rw v6 (split_from_first ":" (sanitize_index 8 index) ip (ground arith))
]

sanitize_from-bounds :
    (count : ℕ) (name : String)
    → count ≤ 255
    → (char_count (sanitize_from count name) + count ≤ 255)
      × (all_chars is_allowed (sanitize_from count name) ≡ true)
unfolding sanitize_from
sanitize_from-bounds count String.[] h = (omega arith, refl)
sanitize_from-bounds count (String.◌∷◌ c name) h = elim (Bool-cases (leb 255 count)) [
  | inl full ↦ rw (full, sanitize_from) (omega arith, refl)
  | inr room ↦ elim (Bool-cases (is_allowed c)) [
    | inl good ↦
        let (short, safe) = sanitize_from-bounds (count + 1) name (ground arith) in
        rw (room, good, sanitize_from) (omega arith, rw (good, safe) refl)
    | inr bad ↦ rw (room, bad, sanitize_from) (sanitize_from-bounds count name h)
  ]
]

allowed_no_slash : (s : String) → all_chars is_allowed s ≡ true → has_char "/" s ≡ false
unfolding is_allowed
allowed_no_slash String.[] h = refl
allowed_no_slash (String.◌∷◌ c s) h = ground (arith, allowed_no_slash s)

-- A sanitized name has at most 255 characters, each of them a letter, a digit or one of `.-_@`,
-- hence no separator of paths.
pub sanitize_name-bounds :
    (name : String)
    → (char_count (sanitize_name name) ≤ 255)
      × (all_chars is_allowed (sanitize_name name) ≡ true)
      × (has_char "/" (sanitize_name name) ≡ false)
unfolding sanitize_name
sanitize_name-bounds name =
    let (short, allowed) = sanitize_from-bounds 0 name (omega arith) in
    (omega arith, allowed, allowed_no_slash (sanitize_from 0 name) allowed)
