-- ===== src/Models/Config/Filters.antt =====
-- Client filters in the configuration files of subscriptions (common/src/models/config.rs). The
-- flags are the bits that the file has, those of no flag too.
use openwec.Prelude.{ℕ, String, List}
use openwec.Prelude.Run.{Run, ◌>>=◌, lift, unwrap}
use openwec.Subscription.Filter
use openwec.Subscription.Filter.{Glob}
use openwec.Subscription.Filter.Operation
use openwec.Subscription.Filter.Kind
use openwec.Subscription.Filter.Flags

pub data ClientFilterOperation : Type 0 where
  only except : ClientFilterOperation

unfoldable pub into_operation : ClientFilterOperation → Operation.ClientFilterOperation
into_operation except = Operation.except
into_operation only = Operation.only

pub data ClientFilterType : Type 0 where
  kerberos_princ tls_cert_subject machine_id : ClientFilterType

unfoldable pub into_kind : ClientFilterType → Kind.ClientFilterType
into_kind kerberos_princ = Kind.kerberos_princ
into_kind tls_cert_subject = Kind.tls_cert_subject
into_kind machine_id = Kind.machine_id

pub record ClientFilterFlags : Type 0 where
  pub bits : ℕ

unfoldable pub into_flags : ClientFilterFlags → Run Flags.ClientFilterFlags
into_flags value = unwrap (Flags.from_bits value.bits)

pub record ClientFilter : Type 0 where
  pub operation : ClientFilterOperation
  pub kind : ClientFilterType
  pub flags : ClientFilterFlags
  pub targets : List String

module _ {P : Type 0} (crate : Glob P) (to_lowercase : String → String) where
  unfoldable pub into_filter : ClientFilter → Run (Filter.ClientFilter P)
  into_filter value = do
    flags ← into_flags value.flags
    lift (
        Filter.try_new crate to_lowercase (into_operation value.operation) (into_kind value.kind)
          flags value.targets)
