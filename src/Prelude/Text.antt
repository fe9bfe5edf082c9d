-- ===== src/Prelude/Text.antt =====
-- Rust's `str` functions that the source uses, on native strings.
use Prim.Native.Nat.{ℕ, ◌+◌}
use Prim.Native.Char.{Char, code}
use Prim.Native.String.{String, ◌++◌}
use mathlib.Core.Path.{◌≡◌, refl, ap}
use mathlib.Core.Bool.{Bool, true, false, ◌&&◌, ◌||◌}
use mathlib.Core.List.{List, [], ◌∷◌}
use native.Mathlib.Omega.{arith}
use text.Mathlib.TextLemmas.{nil-append, cons-append}
use openwec.Prelude.Lists.{All}
use openwec.Prelude.Tests.{leb, eqb, if◌then◌else◌, Bool-cases}
use mathlib.Core.Logic.{inl, inr}

-- `u8::to_ascii_lowercase`
abbrev pub ascii_lowercase : ℕ → ℕ
ascii_lowercase c = if leb b'A' c && leb c b'Z' then c + 32 else c

-- `str::eq_ignore_ascii_case`
unfoldable pub eq_ignore_ascii_case : String → String → Bool
eq_ignore_ascii_case String.[] String.[] = true
eq_ignore_ascii_case (String.◌∷◌ c s) (String.◌∷◌ d t) =
    eqb (ascii_lowercase (code c)) (ascii_lowercase (code d)) && eq_ignore_ascii_case s t
eq_ignore_ascii_case _ _ = false

-- The first piece takes the character.
abbrev pub on_head : Char → List String → List String
on_head c [] = []
on_head c (s ∷ ss) = String.◌∷◌ c s ∷ ss

-- `str::split` at a character.
unfoldable pub split : Char → String → List String
split sep String.[] = String.[] ∷ []
split sep (String.◌∷◌ c s) =
    let rest = split sep s in if eqb (code c) (code sep) then String.[] ∷ rest else on_head c rest

-- `[&str]::join` with a separator of one character.
unfoldable pub join : Char → List String → String
join sep [] = String.[]
join sep (s ∷ []) = s
join sep (s ∷ t ∷ ss) = s ++ String.◌∷◌ sep (join sep (t ∷ ss))

abbrev pub has_char : Char → String → Bool
has_char sep String.[] = false
has_char sep (String.◌∷◌ c s) = eqb (code c) (code sep) || has_char sep s

split-append :
    (sep : Char) (s t : String)
    → has_char sep s ≡ false
    → split sep (s ++ String.◌∷◌ sep t) ≡ s ∷ split sep t
unfolding split
split-append sep String.[] t h = rw nil-append (ground arith)
split-append sep (String.◌∷◌ c s) t h = rw cons-append (ground (arith, split-append sep s t))

split_whole : (sep : Char) (s : String) → has_char sep s ≡ false → split sep s ≡ s ∷ []
unfolding split
split_whole sep String.[] h = refl
split_whole sep (String.◌∷◌ c s) h = ground (arith, split_whole sep s)

on_head_pieces :
    (sep c : Char) (ss : List String)
    → eqb (code c) (code sep) ≡ false
    → All (λ t. has_char sep t ≡ false) ss
    → All (λ t. has_char sep t ≡ false) (on_head c ss)
on_head_pieces sep c [] e h = tt
on_head_pieces sep c (s ∷ ss) e (h, hs) = (rw e h, hs)

-- What was joined comes apart again, if no piece holds the separator.
pub split-join :
    (sep : Char) (s : String) (ss : List String)
    → All (λ t. has_char sep t ≡ false) (s ∷ ss)
    → split sep (join sep (s ∷ ss)) ≡ s ∷ ss
unfolding join
split-join sep s [] (h, _) = split_whole sep s h
split-join sep s (t ∷ ss) (h, hs) =
    rw (split-append sep s (join sep (t ∷ ss)) h) (ap (◌∷◌ s) (split-join sep t ss hs))

-- A piece never holds the separator.
pub split_pieces : (sep : Char) (s : String) → All (λ t. has_char sep t ≡ false) (split sep s)
unfolding split
split_pieces sep String.[] = (refl, tt)
split_pieces sep (String.◌∷◌ c s) = elim (Bool-cases (eqb (code c) (code sep))) [
  | inl found ↦ rw found (refl, split_pieces sep s)
  | inr other ↦ rw other (on_head_pieces sep c (split sep s) other (split_pieces sep s))
]
