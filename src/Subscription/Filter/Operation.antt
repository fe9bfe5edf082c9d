-- ===== src/Subscription/Filter/Operation.antt =====
-- `ClientFilterOperation` of common/src/subscription.rs, with the `Display` and `EnumString` that
-- `strum` derives (variants in PascalCase, parsed without regard to ASCII case).
use openwec.Prelude.{String, ◌≡◌, refl, Result, ok, bail, if◌then◌else◌}
use openwec.Prelude.Text.{eq_ignore_ascii_case}

pub data ClientFilterOperation : Type 0 where
  only except : ClientFilterOperation

unfoldable pub to_string : ClientFilterOperation → String
to_string only = "Only"
to_string except = "Except"

unfoldable pub parse : String → Result ClientFilterOperation
unfolding eq_ignore_ascii_case
parse s =
    if eq_ignore_ascii_case s "Only"
    then ok only
    else if eq_ignore_ascii_case s "Except"
    then ok except
    else bail "Matching variant not found"

pub parse-to_string : (op : ClientFilterOperation) → parse (to_string op) ≡ ok op
unfolding parse to_string
parse-to_string only = refl
parse-to_string except = refl
