-- ===== src/Models/FilesPath.antt =====
-- The path template of the Files driver, from the settings that it replaced:
-- `transform_files_config_to_path` of common/src/transformers/output_files_use_path.rs.
use Prim.Native.String.{◌++◌}
use openwec.Prelude.{
  ℕ, zero, suc, String, Bool, false, Option, none, some, List, [], ◌∷◌, ◌==◌, string_eq, Result, ok,
  if◌then◌else◌,
}

-- `PathBuf::push` on Unix: a path from the root replaces the buffer.
abbrev pub is_absolute : String → Bool
is_absolute String.[] = false
is_absolute (String.◌∷◌ c rest) = String.◌∷◌ c String.[] == "/"

abbrev pub ends_with_slash : String → Bool
ends_with_slash String.[] = false
ends_with_slash (String.◌∷◌ c String.[]) = String.◌∷◌ c String.[] == "/"
ends_with_slash (String.◌∷◌ c rest) = ends_with_slash rest

unfoldable pub push : String → String → String
push path piece =
    if is_absolute piece
    then piece
    else if path == ""
    then piece
    else if ends_with_slash path
    then path ++ piece
    else path ++ ("/" ++ piece)

abbrev pub push_all : String → List String → String
push_all path [] = path
push_all path (piece ∷ pieces) = push_all (push path piece) pieces

abbrev pub skip : ℕ → List String → List String
skip zero pieces = pieces
skip (suc n) [] = []
skip (suc n) (piece ∷ pieces) = skip n pieces

-- The pieces for `index..4`.
abbrev pub address_pieces : Option ℕ → List String
address_pieces none = []
address_pieces (some index) = skip index ("{ip:0}" ∷ "{ip:1}" ∷ "{ip:2}" ∷ "{ip:3}" ∷ [])

abbrev pub unwrap_or {ℓ} : {A : Type ℓ} → Option A → A → A
unwrap_or none default = default
unwrap_or (some a) default = a

unfoldable pub transform_files_config_to_path :
    Option String → Option ℕ → Option Bool → Option String → Result String
unfolding push
transform_files_config_to_path base split_on_addr_index append_node_name filename =
    let path = push_all (unwrap_or base "") (address_pieces split_on_addr_index) in
    let path = push path "{ip}" in
    let path = push path "{principal}" in
    let path = if unwrap_or append_node_name false then push path "{node}" else path in
    ok (push path (unwrap_or filename "messages"))
