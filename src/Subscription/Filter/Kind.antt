-- ===== src/Subscription/Filter/Kind.antt =====
-- `ClientFilterType` of common/src/subscription.rs, with the `Display` and `EnumString` that `strum`
-- derives (parsed without regard to ASCII case).
use openwec.Prelude.{String, ◌≡◌, refl, Result, ok, bail, if◌then◌else◌}
use openwec.Prelude.Text.{eq_ignore_ascii_case}

pub data ClientFilterType : Type 0 where
  kerberos_princ tls_cert_subject machine_id : ClientFilterType

unfoldable pub to_string : ClientFilterType → String
to_string kerberos_princ = "KerberosPrinc"
to_string tls_cert_subject = "TLSCertSubject"
to_string machine_id = "MachineID"

unfoldable pub parse : String → Result ClientFilterType
unfolding eq_ignore_ascii_case
parse s =
    if eq_ignore_ascii_case s "KerberosPrinc"
    then ok kerberos_princ
    else if eq_ignore_ascii_case s "TLSCertSubject"
    then ok tls_cert_subject
    else if eq_ignore_ascii_case s "MachineID"
    then ok machine_id
    else bail "Matching variant not found"

pub parse-to_string : (kind : ClientFilterType) → parse (to_string kind) ≡ ok kind
unfolding parse to_string
parse-to_string kerberos_princ = refl
parse-to_string tls_cert_subject = refl
parse-to_string machine_id = refl
