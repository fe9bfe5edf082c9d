-- ===== src/Server/Files/Names.antt =====
-- The names that a path template of the Files driver stands for, and the write that the driver
-- sends: `PathValues`, `OutputFiles` and `sanitize_name` of server/src/drivers/files.rs. The package
-- `leon` is a record of its functions, and an address is its text.
use Prim.Native.Char.{Char, code}
use Prim.Native.String.{◌++◌}
use Prim.Native.Nat.{◌-◌}
use openwec.Prelude.{
  ℕ, ◌+◌, ◌*◌, String, Bool, true, false, ◌&&◌, ◌||◌, Option, none, some, List, [], ◌∷◌, Result, ok,
  ◌>>=◌, ltb, leb, eqb, ◌==◌, string_eq, if◌then◌else◌,
}
use openwec.Server.Drivers.{WriteMessage}
use openwec.Server.Messages.{EventMetadata}
use openwec.Subscription.Output.{FilesConfiguration}

-- `PathValues::split`: the text up to the separator of the given number.
unfoldable pub split_from : ℕ → ℕ → Char → String → String
split_from count index sep String.[] = String.[]
split_from count index sep (String.◌∷◌ ch rest) = elim (eqb (code ch) (code sep)) [
  | false ↦ String.◌∷◌ ch (split_from count index sep rest)
  | true ↦ elim (leb index (count + 1)) [
    | true ↦ String.[]
    | false ↦ String.◌∷◌ sep (split_from (count + 1) index sep rest)
  ]
]

-- The index brought into range.
abbrev pub sanitize_index : ℕ → ℕ → ℕ
sanitize_index highest index =
    if ltb index 1 then 1 else if ltb highest index then highest else index

-- `is_ipv4` is the variant of the address.
unfoldable pub split_ip : (is_ipv4 : String → Bool) → String → ℕ → String
split_ip is_ipv4 ip index =
    if is_ipv4 ip
    then split_from 0 (sanitize_index 4 index) "." ip
    else split_from 0 (sanitize_index 8 index) ":" ip

unfoldable pub is_allowed : Char → Bool
is_allowed ch =
    (leb b'0' (code ch) && leb (code ch) b'9')
    || (leb b'a' (code ch) && leb (code ch) b'z')
    || (leb b'A' (code ch) && leb (code ch) b'Z')
    || eqb (code ch) b'.'
    || eqb (code ch) b'-'
    || eqb (code ch) b'_'
    || eqb (code ch) b'@'

-- The loop of `sanitize_name`: `$` and the other characters are left out alike.
unfoldable pub sanitize_from : ℕ → String → String
sanitize_from count String.[] = String.[]
sanitize_from count (String.◌∷◌ ch rest) = elim (leb 255 count) [
  | true ↦ String.[]
  | false ↦ elim (is_allowed ch) [
    | true ↦ String.◌∷◌ ch (sanitize_from (count + 1) rest)
    | false ↦ sanitize_from count rest
  ]
]

unfoldable pub sanitize_name : String → String
sanitize_name name = sanitize_from 0 name

-- `str::strip_prefix`
unfoldable pub strip_prefix : String → String → Option String
strip_prefix String.[] text = some text
strip_prefix (String.◌∷◌ p prefix) String.[] = none
strip_prefix (String.◌∷◌ p prefix) (String.◌∷◌ ch text) =
    let rest = strip_prefix prefix text in if eqb (code p) (code ch) then rest else none

-- `u8::from_str`: digits behind at most one plus sign, of a number below 256.
unfoldable pub u8_digits : ℕ → String → Option ℕ
u8_digits n String.[] = some n
u8_digits n (String.◌∷◌ ch rest) =
    let m = n * 10 + (code ch - b'0') in
    elim (leb b'0' (code ch) && leb (code ch) b'9' && ltb m 256) [
      | true ↦ u8_digits m rest
      | false ↦ none
    ]

unfoldable pub u8_from_str : String → Option ℕ
u8_from_str String.[] = none
u8_from_str (String.◌∷◌ ch String.[]) =
    if eqb (code ch) b'+' then none else u8_digits 0 (String.◌∷◌ ch String.[])
u8_from_str (String.◌∷◌ ch rest) =
    if eqb (code ch) b'+' then u8_digits 0 rest else u8_digits 0 (String.◌∷◌ ch rest)

-- `leon::Values::get_value` of `PathValues`
unfoldable pub get_value : (is_ipv4 : String → Bool) → EventMetadata → String → Option String
get_value is_ipv4 metadata key =
    if key == "ip"
    then some metadata.addr.ip
    else if key == "principal"
    then some (sanitize_name metadata.principal)
    else if key == "node"
    then elim metadata.node_name [ none ↦ some "{node}" | some name ↦ some name ]
    else elim (strip_prefix "ip:" key) [
      | none ↦ none
      | some text ↦ elim (u8_from_str text) [
        | none ↦ none
        | some index ↦ some (split_ip is_ipv4 metadata.addr.ip index)
      ]
    ]

-- The package `leon`: `Template::parse`, and `Template::render` over the values of the keys.
pub record Leon (Template : Type 0) : Type 0 where
  pub parse : String → Result Template
  pub render : Template → (String → Option String) → Result String

unfoldable pub content : List String → String
content [] = ""
content (event ∷ events) = event ++ ("\n" ++ content events)

module _ {Template : Type 0} (leon : Leon Template) (is_ipv4 : String → Bool) where
  unfoldable pub build_path : FilesConfiguration → EventMetadata → Result String
  build_path config metadata = do
    template ← leon.parse config.path
    leon.render template (get_value is_ipv4 metadata)

  -- `OutputFiles::write`, up to the sending of its message.
  unfoldable pub write_message :
      FilesConfiguration → EventMetadata → List String → Result WriteMessage
  write_message config metadata events = do
    path ← build_path config metadata
    ok (record { path = path; content = content events })
