-- ===== src/Tests/Multipart.antt =====
-- The round trip of a multipart body, with packages that read bytes in memory.
use Prim.Native.Nat.{◌/◌, ◌%◌}
use mathlib.Core.List.{append_assoc}
use openwec.Prelude.{
  ℕ, zero, suc, ◌+◌, ◌≤◌, ◌≡◌, refl, arith, Bool, true, false, ◌&&◌, Option, none, some, List, [],
  ◌∷◌, ◌++◌, Result, ok, bail, leb, eqb, all, all-append, length, if◌then◌else◌, Bool-cases, inl,
  inr, and_true, sym, ap, ◌∙◌, not,
}
use openwec.Server.Multipart.{
  Packages, Header, as_bytes, crlf, get_multipart_body, read_multipart_body, read_until,
}
use openwec.Server.Multipart.Laws.{
  PackagesLaws, search, found_at, printed, is_header, is_token, is_visible, is_digit,
}
use openwec.Server.Multipart.Search.{strip-append}
use openwec.Server.Multipart.RoundTrip.{read_multipart_body-get_multipart_body}

abbrev same : List ℕ → List ℕ → Bool
same [] [] = true
same [] (y ∷ ys) = false
same (x ∷ xs) [] = false
same (x ∷ xs) (y ∷ ys) = eqb x y && same xs ys

same_self : (xs : List ℕ) → same xs xs ≡ true
same_self [] = refl
same_self (x ∷ xs) = ground (arith, same_self xs)

abbrev lacks : ℕ → List ℕ → Bool
lacks t [] = true
lacks t (b ∷ text) = not (eqb t b) && lacks t text

search-lacks :
    (t : ℕ) (token text rest : List ℕ)
    → lacks t text ≡ true
    → search (t ∷ token) (text ++ ((t ∷ token) ++ rest)) ≡ some (text, rest)
search-lacks t token [] rest h = rw (strip-append (t ∷ token) rest) refl
search-lacks t token (b ∷ text) rest h =
    let (other, lacking) = and_true (not (eqb t b)) (lacks t text) h in
    elim (Bool-cases (eqb t b)) [
      | inl here ↦ ground (arith, other, here)
      | inr away ↦ rw away (ap (found_at b none) (search-lacks t token text rest lacking))
    ]

-- The lines of headers up to an empty line, at most as many as the number says.
abbrev add : List ℕ → List ℕ → Option (List Header) → Option (List Header)
add name value none = none
add name value (some headers) = some ((name, value) ∷ headers)

unfoldable parse_lines : ℕ → List ℕ → Option (List Header)
parse_lines limit [] = none
parse_lines zero (b ∷ text) = if eqb b 13 then some [] else none
parse_lines (suc limit) (b ∷ text) =
    if eqb b 13 then some [] else elim (search (58 ∷ 32 ∷ []) (b ∷ text)) [
      | none ↦ none
      | some (name, rest) ↦ elim (search crlf rest) [
        | none ↦ none
        | some (value, rest) ↦ add name value (parse_lines limit rest)
      ]
    ]

token_lacks :
    (t : ℕ) (text : List ℕ) → is_token t ≡ false → all is_token text ≡ true → lacks t text ≡ true
token_lacks t [] odd h = refl
token_lacks t (b ∷ text) odd h =
    let (here, later) = and_true (is_token b) (all is_token text) h in
    elim (Bool-cases (eqb t b)) [
      | inl equal ↦ ground (arith, odd, here, equal)
      | inr other ↦ rw (other, token_lacks t text odd later) refl
    ]

visible_lacks : (text : List ℕ) → all is_visible text ≡ true → lacks 13 text ≡ true
visible_lacks [] h = refl
visible_lacks (b ∷ text) h =
    let (here, later) = and_true (is_visible b) (all is_visible text) h in
    rw (visible_lacks text later) (ground (arith, here))

regroup :
    (name colon value end rest : List ℕ)
    → name ++ colon ++ value ++ end ++ rest ++ end
      ≡ name ++ (colon ++ (value ++ (end ++ (rest ++ end))))
regroup name colon value end rest = simp (append_assoc)

parse_lines-line :
    (limit : ℕ) (name value rest : List ℕ)
    → is_header (name, value) ≡ true
    → parse_lines (suc limit) (name ++ ((58 ∷ 32 ∷ []) ++ (value ++ (crlf ++ rest))))
      ≡ add name value (parse_lines limit rest)
unfolding parse_lines
parse_lines-line limit [] value rest h = absurd (ground (arith, h))
parse_lines-line limit (b ∷ name) value rest h =
    let (named, visible) =
      and_true (leb 1 (length (b ∷ name)) && all is_token (b ∷ name)) (all is_visible value) h in
    let (_, token) = and_true (leb 1 (length (b ∷ name))) (all is_token (b ∷ name)) named in
    let (first, _) = and_true (is_token b) (all is_token name) token in
    let started : eqb b 13 ≡ false = ground (arith, first) in
    rw
      (
        started,
        search-lacks 58 (32 ∷ []) (b ∷ name) (value ++ (crlf ++ rest))
            (token_lacks 58 (b ∷ name) refl token),
        search-lacks 13 (10 ∷ []) value rest (visible_lacks value visible),
      )
      refl

parse_lines-printed :
    (limit : ℕ) (headers : List Header)
    → length headers ≤ limit
    → all is_header headers ≡ true
    → parse_lines limit (printed headers ++ crlf) ≡ some headers
unfolding parse_lines
parse_lines-printed zero [] h fine = refl
parse_lines-printed (suc limit) [] h fine = refl
parse_lines-printed zero (header ∷ headers) h fine = absurd (omega (arith, h))
parse_lines-printed (suc limit) ((name, value) ∷ headers) h fine =
    let (first, others) = and_true (is_header (name, value)) (all is_header headers) fine in
    ap (parse_lines (suc limit)) (regroup name (58 ∷ 32 ∷ []) value crlf (printed headers))
    ∙ parse_lines-line limit name value (printed headers ++ crlf) first
    ∙ ap (add name value) (parse_lines-printed limit headers (omega (arith, h)) others)

abbrev complete : Option (List Header) → Result (Option (List Header))
complete none = bail "invalid header"
complete (some headers) = ok (some headers)

abbrev Mime : Type 0
Mime = List ℕ × List ℕ

abbrev mime_of : Option Mime → Result Mime
mime_of none = bail "a slash (/) was missing between the type and subtype"
mime_of (some mime) = ok mime

abbrev cut : List ℕ → Option (List ℕ × List ℕ) → Result (List ℕ × Bool × List ℕ)
cut bytes none = ok (bytes, false, [])
cut bytes (some (before, rest)) = ok (before, true, rest)

abbrev after : Option (List ℕ × List ℕ) → List ℕ
after none = []
after (some (before, rest)) = rest

-- The decimal digits, as many as the fuel allows.
abbrev digits : ℕ → ℕ → List ℕ
digits zero n = []
digits (suc fuel) n = digits fuel (n / 10) ++ (48 + n % 10) ∷ []

abbrev packages : Packages (List ℕ) Mime
packages = record {
  stream_until_token = λ token bytes. cut bytes (search token bytes);
  parse_headers = λ text. complete (parse_lines 4 text);
  is_content_type = λ name. same name (as_bytes "Content-Type");
  parse_mime = λ text. mime_of (search (47 ∷ []) text);
  type_is = λ mime kind. same mime.0 kind;
  subtype_is = λ mime subtype. same mime.1 subtype;
  format = digits 10;
}

digits-is_digit : (fuel n : ℕ) → all is_digit (digits fuel n) ≡ true
digits-is_digit zero n = refl
digits-is_digit (suc fuel) n =
    all-append is_digit (digits fuel (n / 10)) ((48 + n % 10) ∷ []) (digits-is_digit fuel (n / 10))
      (ground arith)

same-length : (xs ys : List ℕ) → same xs ys ≡ true → length xs ≡ length ys
same-length [] [] h = refl
same-length [] (y ∷ ys) h = absurd (ground (arith, h))
same-length (x ∷ xs) [] h = absurd (ground (arith, h))
same-length (x ∷ xs) (y ∷ ys) h =
    let (_, rest) = and_true (eqb x y) (same xs ys) h in omega (arith, same-length xs ys rest)

abbrev laws : PackagesLaws packages
unfolding as_bytes
laws = record {
  bytes = λ s. s;
  past = λ token s. after (search token s);
  bytes-past = λ token s before rest h. ap after h;
  stream_until_token-found =
      λ token s before rest h. ap (cut s) h ∙ sym (ap (λ found. ok (before, true, after found)) h);
  stream_until_token-missing =
      λ token s h. ap (cut s) h ∙ sym (ap (λ found. ok (s, false, after found)) h);
  parse_headers-printed = λ headers few fine. ap complete (parse_lines-printed 4 headers few fine);
  is_content_type-name = refl;
  is_content_type-other = λ name other. elim (Bool-cases (same name (as_bytes "Content-Type"))) [
    | inl equal ↦ absurd (other (same-length name (as_bytes "Content-Type") equal))
    | inr differs ↦ differs
  ];
  parse_mime-printed = λ kind subtype tokens _. (
    (kind, subtype),
    ap mime_of (search-lacks 47 [] kind subtype (token_lacks 47 kind refl tokens)),
    same_self kind,
    same_self subtype,
  );
  format-digits = digits-is_digit 10;
}

abbrev boundary : List ℕ
boundary = as_bytes "super cool boundary"

abbrev payload : List ℕ
payload = as_bytes "this is a very good payload"

read_multipart_body_example :
    read_multipart_body packages (get_multipart_body packages payload 27 boundary) boundary
    ≡ ok payload
unfolding as_bytes
read_multipart_body_example =
    read_multipart_body-get_multipart_body packages laws payload 27 boundary
      (get_multipart_body packages payload 27 boundary) refl refl

read_multipart_body-no_boundary :
    read_multipart_body packages payload boundary ≡ bail "EoF found before first boundary"
unfolding read_multipart_body read_until as_bytes
read_multipart_body-no_boundary = refl
