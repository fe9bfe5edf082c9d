-- ===== src/Server/Multipart/Laws.antt =====
-- What the code of server/src/multipart.rs relies on in the crates that it calls: a stream that is
-- cut at the first occurrence of a token, and parsers that read what is printed for them.
use openwec.Prelude.{
  ℕ, ◌≤◌, ◌≡◌, ◌≢◌, Bool, true, false, ◌&&◌, ◌||◌, Option, none, some, List, [], ◌∷◌, ◌++◌, ok, leb,
  eqb, all, length, if◌then◌else◌,
}
use openwec.Server.Multipart.{Packages, Header, as_bytes, crlf}

-- The rest of a text after a token that it starts with.
abbrev pub strip : List ℕ → List ℕ → Option (List ℕ)
strip [] text = some text
strip (t ∷ token) [] = none
strip (t ∷ token) (b ∷ text) = if eqb t b then strip token text else none

abbrev pub found_at : ℕ → Option (List ℕ) → Option (List ℕ × List ℕ) → Option (List ℕ × List ℕ)
found_at b (some rest) later = some ([], rest)
found_at b none (some (before, rest)) = some (b ∷ before, rest)
found_at b none none = none

-- The text before and the text after the first occurrence of a token.
abbrev pub search : List ℕ → List ℕ → Option (List ℕ × List ℕ)
search token [] = none
search token (b ∷ text) = found_at b (strip token (b ∷ text)) (search token text)

-- A letter, a digit or a dash.
abbrev pub is_token : ℕ → Bool
is_token c = eqb c 45 || (leb 48 c && leb c 57) || (leb 65 c && leb c 90) || (leb 97 c && leb c 122)

abbrev pub is_visible : ℕ → Bool
is_visible c = leb 33 c && leb c 126

abbrev pub is_digit : ℕ → Bool
is_digit c = leb 48 c && leb c 57

abbrev pub is_header : Header → Bool
is_header (name, value) = leb 1 (length name) && all is_token name && all is_visible value

abbrev pub printed : List Header → List ℕ
printed [] = []
printed ((name, value) ∷ headers) = name ++ (58 ∷ 32 ∷ []) ++ value ++ crlf ++ printed headers

-- The stream is read in memory. Names of headers are compared up to case, hence equal in length.
pub record PackagesLaws {S M : Type 0} (packages : Packages S M) : Type 0 where
  pub bytes : S → List ℕ
  pub past : List ℕ → S → S
  pub bytes-past :
      (token : List ℕ) (s : S) (before rest : List ℕ)
      → search token (bytes s) ≡ some (before, rest)
      → bytes (past token s) ≡ rest
  pub stream_until_token-found :
      (token : List ℕ) (s : S) (before rest : List ℕ)
      → search token (bytes s) ≡ some (before, rest)
      → packages.stream_until_token token s ≡ ok (before, true, past token s)
  pub stream_until_token-missing :
      (token : List ℕ) (s : S)
      → search token (bytes s) ≡ none
      → packages.stream_until_token token s ≡ ok (bytes s, false, past token s)
  pub parse_headers-printed :
      (headers : List Header)
      → length headers ≤ 4
      → all is_header headers ≡ true
      → packages.parse_headers (printed headers ++ crlf) ≡ ok (some headers)
  pub is_content_type-name : packages.is_content_type (as_bytes "Content-Type") ≡ true
  pub is_content_type-other :
      (name : List ℕ) → length name ≢ 12 → packages.is_content_type name ≡ false
  pub parse_mime-printed :
      (kind subtype : List ℕ)
      → all is_token kind ≡ true
      → all is_token subtype ≡ true
      → (mime : M) × (packages.parse_mime (kind ++ 47 ∷ subtype) ≡ ok mime)
        × (packages.type_is mime kind ≡ true)
        × (packages.subtype_is mime subtype ≡ true)
  pub format-digits : (n : ℕ) → all is_digit (packages.format n) ≡ true
