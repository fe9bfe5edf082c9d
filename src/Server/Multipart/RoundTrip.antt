-- ===== src/Server/Multipart/RoundTrip.antt =====
-- The body that `get_multipart_body` (server/src/multipart.rs) makes is read by
-- `read_multipart_body`.
use mathlib.Core.List.{append_assoc, append-nil}
use openwec.Prelude.{
  ℕ, ◌≡◌, refl, ap, arith, true, some, List, [], ◌∷◌, ◌++◌, ok, String, all, all-append,
}
use openwec.Server.Multipart.{
  Packages, Header, as_bytes, crlf, middle_boundary, end_boundary, check_headers, check_parsed,
  read_until, read_multipart_body, get_multipart_body, check_header,
}
use openwec.Server.Multipart.Laws.{PackagesLaws, search, printed, is_header, is_digit, is_visible}
use openwec.Server.Multipart.Search.{
  no_dashes, no_dashes-nil, no_dashes-append, digits_no_dashes, digits_visible, search-no_dashes,
}

abbrev content_type : List ℕ
unfolding as_bytes
content_type = as_bytes "Content-Type"

abbrev kind : List ℕ
unfolding as_bytes
kind = as_bytes "application"

abbrev encrypted : List ℕ
unfolding as_bytes
encrypted = as_bytes "HTTP-Kerberos-session-encrypted"

abbrev octet_stream : List ℕ
unfolding as_bytes
octet_stream = as_bytes "octet-stream"

abbrev original : List ℕ → Header
unfolding as_bytes
original digits = (
  as_bytes "OriginalContent",
  as_bytes "type=application/soap+xml;charset=UTF-16;Length=" ++ digits,
)

abbrev control_headers : List ℕ → List Header
control_headers digits = (content_type, kind ++ 47 ∷ encrypted) ∷ original digits ∷ []

abbrev data_headers : List Header
data_headers = (content_type, kind ++ 47 ∷ octet_stream) ∷ []

-- The headers of the first part, up to the digits of the length, and with them.
abbrev lead : List ℕ
unfolding as_bytes
lead =
    as_bytes "Content-Type: application/HTTP-Kerberos-session-encrypted"
    ++ crlf
    ++ as_bytes "OriginalContent: type=application/soap+xml;charset=UTF-16;Length="

abbrev control_part : List ℕ → List ℕ
control_part digits = lead ++ (digits ++ crlf)

printed-control_part : (digits : List ℕ) → printed (control_headers digits) ≡ control_part digits
unfolding as_bytes
printed-control_part digits = ap (λ text. lead ++ text) (append-nil (digits ++ crlf))

control-no_dashes :
    (digits : List ℕ) → all is_digit digits ≡ true → no_dashes (control_part digits) ≡ true
unfolding as_bytes no_dashes
control-no_dashes digits h =
    no_dashes-append lead (digits ++ crlf) refl
      (no_dashes-append digits crlf (digits_no_dashes digits h) refl)

control-is_header :
    (digits : List ℕ) → all is_digit digits ≡ true → all is_header (control_headers digits) ≡ true
unfolding as_bytes
control-is_header digits h =
    rw
      (all-append is_visible (as_bytes "type=application/soap+xml;charset=UTF-16;Length=") digits
        refl (digits_visible digits h))
      refl

regroup :
    (m a c b digits d payload e : List ℕ)
    → m ++ a ++ c ++ b ++ digits ++ c ++ m ++ d ++ c ++ payload ++ e
      ≡ m ++ ((a ++ c ++ b ++ (digits ++ c)) ++ m ++ (d ++ c ++ (payload ++ e)))
regroup m a c b digits d payload e = simp (append_assoc)

abbrev data_line : List ℕ
unfolding as_bytes
data_line = as_bytes "Content-Type: application/octet-stream"

-- What is left of a body after its first boundary and after its second one.
abbrev past_second : List ℕ → List ℕ → List ℕ
past_second payload boundary = data_line ++ crlf ++ (payload ++ end_boundary boundary)

search-past_second :
    (payload boundary : List ℕ)
    → search crlf (past_second payload boundary)
      ≡ some (data_line, payload ++ end_boundary boundary)
unfolding data_line as_bytes
search-past_second payload boundary = refl

abbrev past_first : List ℕ → List ℕ → List ℕ → List ℕ
past_first digits payload boundary =
    control_part digits ++ middle_boundary boundary ++ past_second payload boundary

module _ {S M : Type 0} (packages : Packages S M) (laws : PackagesLaws packages) where
  read_until-found :
      (missing : String) (token : List ℕ) (s : S) (before rest : List ℕ)
      → search token (laws.bytes s) ≡ some (before, rest)
      → read_until packages missing token s ≡ ok (before, laws.past token s)
  unfolding read_until
  read_until-found missing token s before rest h =
      rw (laws.stream_until_token-found token s before rest h) refl

  parse_control :
      (digits : List ℕ)
      → all is_digit digits ≡ true
      → packages.parse_headers (control_part digits ++ crlf) ≡ ok (some (control_headers digits))
  parse_control digits h = rw (printed-control_part digits) at (
      laws.parse_headers-printed (control_headers digits) (omega arith)
        (control-is_header digits h))

  parse_data : packages.parse_headers (data_line ++ crlf ++ crlf) ≡ ok (some data_headers)
  unfolding as_bytes
  parse_data = laws.parse_headers-printed data_headers (omega arith) refl

  check_control :
      (digits : List ℕ)
      → check_parsed packages
          (as_bytes "HTTP-Kerberos-session-encrypted")
          (some (control_headers digits))
        ≡ ok tt
  unfolding as_bytes check_parsed check_headers check_header
  check_control digits =
      let (mime, parsed, type, subtype) = laws.parse_mime-printed kind encrypted refl refl in
      rw
        (
          laws.is_content_type-name,
          parsed,
          type,
          subtype,
          laws.is_content_type-other (as_bytes "OriginalContent") (omega arith),
        )
        refl

  check_data : check_parsed packages (as_bytes "octet-stream") (some data_headers) ≡ ok tt
  unfolding as_bytes check_parsed check_headers check_header
  check_data =
      let (mime, parsed, type, subtype) = laws.parse_mime-printed kind octet_stream refl refl in
      rw (laws.is_content_type-name, parsed, type, subtype) refl

  body-past_first :
      (payload : List ℕ) (n : ℕ) (boundary : List ℕ)
      → get_multipart_body packages payload n boundary
        ≡ middle_boundary boundary ++ past_first (packages.format n) payload boundary
  unfolding get_multipart_body as_bytes
  body-past_first payload n boundary =
      regroup (middle_boundary boundary)
        (as_bytes "Content-Type: application/HTTP-Kerberos-session-encrypted") crlf
        (as_bytes "OriginalContent: type=application/soap+xml;charset=UTF-16;Length=")
        (packages.format n) data_line payload (end_boundary boundary)

  -- A body that was made for an encrypted payload is read back as this payload, when the first end
  -- boundary in the payload and its end boundary is the one after the payload, the stream has the body,
  -- and the packages obey their laws.
  pub read_multipart_body-get_multipart_body :
      (payload : List ℕ) (n : ℕ) (boundary : List ℕ) (s : S)
      → laws.bytes s ≡ get_multipart_body packages payload n boundary
      → search (end_boundary boundary) (payload ++ end_boundary boundary) ≡ some (payload, [])
      → read_multipart_body packages s boundary ≡ ok payload
  unfolding read_multipart_body
  read_multipart_body-get_multipart_body payload n boundary s e free =
      let digits = packages.format n in
      let m = middle_boundary boundary in
      let past_1 = past_first digits payload boundary in
      let past_2 = past_second payload boundary in
      let free_digits = laws.format-digits n in
      let s_1 = laws.past m s in
      let s_2 = laws.past m s_1 in
      let s_3 = laws.past crlf s_2 in
      let found_1 : search m (laws.bytes s) ≡ some ([], past_1) =
        rw (e, body-past_first payload n boundary)
          (search-no_dashes (boundary ++ crlf) [] past_1 no_dashes-nil) in
      let left_1 = laws.bytes-past m s [] past_1 found_1 in
      let found_2 : search m (laws.bytes s_1) ≡ some (control_part digits, past_2) = rw left_1 (
        search-no_dashes (boundary ++ crlf) (control_part digits) past_2
          (control-no_dashes digits free_digits)) in
      let left_2 = laws.bytes-past m s_1 (control_part digits) past_2 found_2 in
      let found_3 : search crlf (laws.bytes s_2)
          ≡ some (data_line, payload ++ end_boundary boundary) =
        rw left_2 (search-past_second payload boundary) in
      let left_3 = laws.bytes-past crlf s_2 data_line (payload ++ end_boundary boundary) found_3 in
      let found_4 : search (end_boundary boundary) (laws.bytes s_3) ≡ some (payload, []) =
        rw left_3 free in
      rw
        (
          read_until-found "EoF found before first boundary" m s [] past_1 found_1,
          read_until-found "EofInPartHeaders" m s_1 (control_part digits) past_2 found_2,
          parse_control digits free_digits,
          check_control digits,
          read_until-found "No cr lf after headers" crlf s_2 data_line
              (payload ++ end_boundary boundary) found_3,
          parse_data,
          check_data,
          read_until-found "EofInPart" (end_boundary boundary) s_3 payload [] found_4,
        )
        refl
