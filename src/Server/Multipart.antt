-- ===== src/Server/Multipart.antt =====
-- The multipart bodies of encrypted messages: `read_multipart_body` and `get_multipart_body` of
-- server/src/multipart.rs. Texts are their bytes. The crates httparse, mime and hyper are a record
-- of the functions that are called, as are buf_read_ext and itoa.
pub mod Laws
pub mod Search
pub mod RoundTrip
use Prim.Native.Char.{code}
use openwec.Prelude.{
  ℕ, String, Bool, true, false, not, Option, none, some, List, [], ◌∷◌, ◌++◌, Result, ok, bail,
  ◌>>=◌, if◌then◌else◌,
}

-- The bytes of a text of ASCII characters.
unfoldable pub as_bytes : String → List ℕ
as_bytes String.[] = []
as_bytes (String.◌∷◌ ch text) = code ch ∷ as_bytes text

abbrev pub crlf : List ℕ
crlf = 13 ∷ 10 ∷ []

-- A header: its name and its value.
abbrev pub Header : Type 0
Header = List ℕ × List ℕ

-- `stream_until_token` gives the bytes before the token and whether the token was found, and leaves
-- the stream after it. `parse_headers` gives `none` for headers that are not complete.
pub record Packages (S M : Type 0) : Type 0 where
  pub stream_until_token : List ℕ → S → Result (List ℕ × Bool × S)
  pub parse_headers : List ℕ → Result (Option (List Header))
  pub is_content_type : List ℕ → Bool
  pub parse_mime : List ℕ → Result M
  pub type_is : M → List ℕ → Bool
  pub subtype_is : M → List ℕ → Bool
  pub format : ℕ → List ℕ

abbrev pub middle_boundary : List ℕ → List ℕ
middle_boundary boundary = 45 ∷ 45 ∷ (boundary ++ crlf)

abbrev pub end_boundary : List ℕ → List ℕ
end_boundary boundary = 45 ∷ 45 ∷ (boundary ++ 45 ∷ 45 ∷ crlf)

module _ {S M : Type 0} (packages : Packages S M) where
  -- What the loops over the headers check of one header.
  unfoldable pub check_header : List ℕ → Header → Result (Unit {0})
  check_header subtype (name, value) =
      if packages.is_content_type name
      then (do
        mime ← packages.parse_mime value
        if not (packages.type_is mime (as_bytes "application"))
            then bail "Wrong encapsulated multipart type"
            else if not (packages.subtype_is mime subtype)
            then bail "Wrong encapsulated multipart sub type"
            else ok tt)
      else ok tt

  unfoldable pub check_headers : List ℕ → List Header → Result (Unit {0})
  check_headers subtype [] = ok tt
  check_headers subtype (header ∷ headers) = do
    _ ← check_header subtype header
    check_headers subtype headers

  unfoldable pub check_parsed : List ℕ → Option (List Header) → Result (Unit {0})
  check_parsed subtype none = bail "PartialHeaders"
  check_parsed subtype (some headers) = check_headers subtype headers

  -- The bytes before a token, which has to be there.
  unfoldable pub read_until : String → List ℕ → S → Result (List ℕ × S)
  read_until missing token stream = do
    (before, found, stream) ← packages.stream_until_token token stream
    if found then ok (before, stream) else bail missing

  unfoldable pub read_multipart_body : S → List ℕ → Result (List ℕ)
  read_multipart_body stream boundary = do
    (_, stream) ← read_until "EoF found before first boundary" (middle_boundary boundary) stream
    (control, stream) ← read_until "EofInPartHeaders" (middle_boundary boundary) stream
    headers ← packages.parse_headers (control ++ crlf)
    _ ← check_parsed (as_bytes "HTTP-Kerberos-session-encrypted") headers
    (content_type, stream) ← read_until "No cr lf after headers" crlf stream
    headers ← packages.parse_headers (content_type ++ crlf ++ crlf)
    _ ← check_parsed (as_bytes "octet-stream") headers
    (payload, _) ← read_until "EofInPart" (end_boundary boundary) stream
    ok payload

  unfoldable pub get_multipart_body : List ℕ → ℕ → List ℕ → List ℕ
  get_multipart_body encrypted_payload cleartext_payload_len boundary =
      middle_boundary boundary
      ++ as_bytes "Content-Type: application/HTTP-Kerberos-session-encrypted"
      ++ crlf
      ++ as_bytes "OriginalContent: type=application/soap+xml;charset=UTF-16;Length="
      ++ packages.format cleartext_payload_len
      ++ crlf
      ++ middle_boundary boundary
      ++ as_bytes "Content-Type: application/octet-stream"
      ++ crlf
      ++ encrypted_payload
      ++ end_boundary boundary
