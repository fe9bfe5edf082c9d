-- ===== src/Server/Logic/Enumerate/Expected.antt =====
-- What a client should find in an entry of an Enumerate response (server/src/logic.rs), described on
-- its own.
use Prim.Native.String
use openwec.Prelude.{
  String, Bool, true, false, Option, none, some, List, [], ◌∷◌, ◌≡◌, refl, string_eq, ◌==◌,
}
use openwec.Subscription.Filter.{Glob, ClientFilter, eval}
use openwec.Server.Messages.{AuthenticationContext, kerberos, tls}
use openwec.Server.Logic.Enumerate.{or_earliest}

abbrev pub is_linked : Option String → String → Bool
is_linked none asked = true
is_linked (some uri) asked = asked == uri

abbrev pub joined : List String → String
joined [] = ""
joined (text ∷ texts) = String.◌++◌ text (joined texts)

abbrev pub is_open :
    {P : Type 0}
    → Glob P
    → (String → String)
    → Option (ClientFilter P)
    → String
    → Option String
    → Bool
is_open crate to_lowercase none principal machine = true
is_open crate to_lowercase (some f) principal machine = eval crate to_lowercase f principal machine

abbrev pub start_from : Bool → Option String → Option String
start_from read_existing (some bookmark) = some bookmark
start_from true none = some "http://schemas.dmtf.org/wbem/wsman/1/wsman/bookmark/earliest"
start_from false none = none

pub or_earliest-start_from :
    (read_existing : Bool) (stored : Option String)
    → or_earliest read_existing stored ≡ start_from read_existing stored
or_earliest-start_from read_existing (some bookmark) = refl
or_earliest-start_from true none = refl
or_earliest-start_from false none = refl

abbrev pub expected_scheme : AuthenticationContext → String
expected_scheme kerberos = "http://"
expected_scheme (tls _ _) = "https://"

abbrev pub expected_thumbprint : AuthenticationContext → Option String
expected_thumbprint kerberos = none
expected_thumbprint (tls _ thumbprint) = some thumbprint
