-- ===== src/Models/Export/V3/Filters.antt =====
-- Client filters in the third version of the export format (common/src/models/export.rs). The
-- flags are the bits that the file has, those of no flag too.
use openwec.Prelude.{ℕ, String, Option, none, some, List, ltb, if◌then◌else◌}
use openwec.Prelude.Run.{Run, done, ◌>>=◌, lift, unwrap}
use openwec.Subscription.Filter
use openwec.Subscription.Filter.{Glob}
use openwec.Subscription.Filter.Operation
use openwec.Subscription.Filter.Kind
use openwec.Subscription.Filter.Flags

pub data ClientFilterOperation : Type 0 where
  only except : ClientFilterOperation

unfoldable pub into_operation : ClientFilterOperation → Operation.ClientFilterOperation
into_operation except = Operation.except
into_operation only = Operation.only

unfoldable pub from_operation : Operation.ClientFilterOperation → ClientFilterOperation
from_operation Operation.except = except
from_operation Operation.only = only

pub data ClientFilterType : Type 0 where
  kerberos_princ tls_cert_subject machine_id : ClientFilterType

unfoldable pub into_kind : ClientFilterType → Kind.ClientFilterType
into_kind kerberos_princ = Kind.kerberos_princ
into_kind tls_cert_subject = Kind.tls_cert_subject
into_kind machine_id = Kind.machine_id

unfoldable pub from_kind : Kind.ClientFilterType → ClientFilterType
from_kind Kind.kerberos_princ = kerberos_princ
from_kind Kind.tls_cert_subject = tls_cert_subject
from_kind Kind.machine_id = machine_id

pub record ClientFilterFlags : Type 0 where
  pub bits : ℕ

-- `ClientFilterFlags::from_bits` of the module `v3`.
unfoldable pub from_bits : ℕ → Option ClientFilterFlags
from_bits n = if ltb n 4 then some (record { bits = n }) else none

unfoldable pub into_flags : ClientFilterFlags → Run Flags.ClientFilterFlags
into_flags value = unwrap (Flags.from_bits value.bits)

unfoldable pub from_flags : Flags.ClientFilterFlags → Run ClientFilterFlags
from_flags value = unwrap (from_bits (Flags.bits value))

pub record ClientFilter : Type 0 where
  pub operation : ClientFilterOperation
  pub kind : ClientFilterType
  pub flags : ClientFilterFlags
  pub targets : List String

module _ {P : Type 0} (crate : Glob P) (to_lowercase : String → String) where
  unfoldable pub into_filter : ClientFilter → Run (Filter.ClientFilter P)
  into_filter value = do
    flags ← into_flags value.flags
    lift (
        Filter.try_new crate to_lowercase (into_operation value.operation) (into_kind value.kind)
          flags value.targets)

  -- `order` is the order in which the exported set of targets iterates.
  unfoldable pub from_filter :
      (List String → List String) → Filter.ClientFilter P → Run ClientFilter
  from_filter order value = do
    flags ← from_flags value.flags
    done (record {
      operation = from_operation value.operation;
      kind = from_kind value.kind;
      flags = flags;
      targets = Filter.target_texts crate to_lowercase order value.targets;
    })
