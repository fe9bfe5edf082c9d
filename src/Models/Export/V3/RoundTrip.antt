-- ===== src/Models/Export/V3/RoundTrip.antt =====
-- The export of a subscription, imported again (common/src/models/export.rs).
use openwec.Prelude.{
  ℕ, String, Bool, Option, none, some, List, [], ◌∷◌, map, ◌≡◌, refl, ok, try_map, arith, string_eq,
  All,
}
use openwec.Prelude.Run.{done}
use openwec.Subscription.Output
use openwec.Subscription.Data
use openwec.Subscription.Data.{Uuid}
use openwec.Subscription.Filter
use openwec.Subscription.Filter.{
  Glob, ClientFilterTargets, exact, glob, collect_targets, target_texts,
}
use openwec.Subscription.Filter.Operation
use openwec.Subscription.Filter.Kind
use openwec.Subscription.Filter.Flags
use openwec.Subscription.Filter.Collected.{
  IsOrder, SameFilter, IsCollected, collect_targets-same, target_texts-order,
}
use mathlib.Core.List.{Permᴰ}
use openwec.Models.Export.V3
use openwec.Models.Export.V3.Outputs.{
  into_driver, from_driver, into_format, from_format, into_output, from_output,
}
use openwec.Models.Export.V3.Filters.{
  into_operation, from_operation, into_kind, from_kind, into_flags, from_flags, into_filter,
  from_filter, from_bits,
}

-- What `TcpConfiguration::new` accepts.
abbrev pub IsAccepted : (String → Bool) → Output.SubscriptionOutputDriver → Type 0
IsAccepted is_ip_addr (Output.tcp c) =
    Output.tcp_configuration is_ip_addr c.host c.port c.tls_enabled c.tls_certificate_authorities
      c.tls_certificate c.tls_key
    ≡ ok c
IsAccepted is_ip_addr (Output.files c) = Unit
IsAccepted is_ip_addr (Output.kafka c) = Unit
IsAccepted is_ip_addr (Output.redis c) = Unit
IsAccepted is_ip_addr (Output.unix_datagram c) = Unit

into-from_driver :
    (is_ip_addr : String → Bool) (driver : Output.SubscriptionOutputDriver)
    → IsAccepted is_ip_addr driver
    → into_driver is_ip_addr (from_driver driver) ≡ ok driver
unfolding into_driver from_driver
into-from_driver is_ip_addr (Output.files c) h = refl
into-from_driver is_ip_addr (Output.kafka c) h = refl
into-from_driver is_ip_addr (Output.tcp c) h = rw h refl
into-from_driver is_ip_addr (Output.redis c) h = refl
into-from_driver is_ip_addr (Output.unix_datagram c) h = refl

into-from_format :
    (format : Output.SubscriptionOutputFormat) → into_format (from_format format) ≡ format
unfolding into_format from_format
into-from_format Output.json = refl
into-from_format Output.raw = refl
into-from_format Output.raw_json = refl
into-from_format Output.nxlog = refl

into-from_operation :
    (op : Operation.ClientFilterOperation) → into_operation (from_operation op) ≡ op
unfolding into_operation from_operation
into-from_operation Operation.only = refl
into-from_operation Operation.except = refl

into-from_kind : (kind : Kind.ClientFilterType) → into_kind (from_kind kind) ≡ kind
unfolding into_kind from_kind
into-from_kind Kind.kerberos_princ = refl
into-from_kind Kind.tls_cert_subject = refl
into-from_kind Kind.machine_id = refl

into-from_content_format :
    (format : Data.ContentFormat) → V3.into_content_format (V3.from_content_format format) ≡ format
unfolding V3.into_content_format V3.from_content_format
into-from_content_format Data.raw = refl
into-from_content_format Data.rendered_text = refl

into-from_outputs :
    (is_ip_addr : String → Bool) (outputs : List Output.SubscriptionOutput)
    → All (λ o. IsAccepted is_ip_addr o.driver) outputs
    → try_map (into_output is_ip_addr) (map from_output outputs) ≡ ok outputs
unfolding into_output from_output
into-from_outputs is_ip_addr [] h = refl
into-from_outputs is_ip_addr (o ∷ os) (accepted, h) =
    rw
      (
        into-from_driver is_ip_addr o.driver accepted,
        into-from_format o.format,
        into-from_outputs is_ip_addr os h,
      )
      refl

-- Filters of a file up to the order of their targets, which a file keeps as a set, and subscriptions
-- of a file up to such filters.
abbrev pub SameInFile : V3.Filters.ClientFilter → V3.Filters.ClientFilter → Type 0
SameInFile old new =
    (new.operation ≡ old.operation)
    × (new.kind ≡ old.kind)
    × (new.flags ≡ old.flags)
    × Permᴰ new.targets old.targets

abbrev pub SameOptionInFile :
    Option V3.Filters.ClientFilter → Option V3.Filters.ClientFilter → Type 0
SameOptionInFile none none = Unit
SameOptionInFile (some old) (some new) = SameInFile old new
SameOptionInFile none (some new) = ⊥
SameOptionInFile (some old) none = ⊥

abbrev pub SameData : V3.SubscriptionData → V3.SubscriptionData → Type 0
SameData old new =
    (filter : Option V3.Filters.ClientFilter) × (new ≡ record old { filter = filter })
    × SameOptionInFile old.filter filter

abbrev pub SameOption :
    {P : Type 0} → Option (Filter.ClientFilter P) → Option (Filter.ClientFilter P) → Type 0
SameOption none none = Unit
SameOption (some old) (some new) = SameFilter old new
SameOption none (some new) = ⊥
SameOption (some old) none = ⊥

module _ {P : Type 0} (crate : Glob P) (to_lowercase : String → String) where
  abbrev exported : (List String → List String) → Filter.ClientFilter P → V3.Filters.ClientFilter
  exported order f = record {
    operation = from_operation f.operation;
    kind = from_kind f.kind;
    flags = record { bits = Flags.bits f.flags };
    targets = target_texts crate to_lowercase order f.targets;
  }

  abbrev exported_option :
      (List String → List String) → Option (Filter.ClientFilter P) → Option V3.Filters.ClientFilter
  exported_option order none = none
  exported_option order (some f) = some (exported order f)

  from_bits-bits :
      (flags : Flags.ClientFilterFlags)
      → from_bits (Flags.bits flags) ≡ some (record { bits = Flags.bits flags })
  unfolding from_bits Flags.bits
  from_bits-bits flags = ground arith

  from_filter-done :
      (order : List String → List String) (f : Filter.ClientFilter P)
      → from_filter crate to_lowercase order f ≡ done (exported order f)
  unfolding from_filter from_flags
  from_filter-done order f = rw (from_bits-bits f.flags) refl

  -- A filter of a file whose targets stand in another order than they were exported in.
  into_filter-done :
      (order : List String → List String) (f : Filter.ClientFilter P) (e : V3.Filters.ClientFilter)
      → IsOrder order
      → IsCollected crate to_lowercase f.flags.case_insensitive f.flags.glob_pattern f.targets
      → SameInFile (exported order f) e
      → (g : Filter.ClientFilter P) × (into_filter crate to_lowercase e ≡ done g) × SameFilter f g
  unfolding into_filter into_flags Filter.try_new
  into_filter-done order f e permutes h (op, kind, flags, same) =
      let (again, made, alike) =
        collect_targets-same crate to_lowercase f.flags f.targets e.targets h (
          Permᴰ.trans same
            (target_texts-order crate to_lowercase order f.flags f.targets permutes h)) in
      (
        record f { targets = again },
        rw
            (
              op,
              kind,
              flags,
              Flags.from_bits-bits f.flags,
              made,
              into-from_operation f.operation,
              into-from_kind f.kind,
            )
            refl,
        (refl, refl, refl, alike),
      )

  abbrev pub HasCollected : Option (Filter.ClientFilter P) → Type 0
  HasCollected none = Unit
  HasCollected (some f) =
      IsCollected crate to_lowercase f.flags.case_insensitive f.flags.glob_pattern f.targets

  -- A subscription as the constructors build them: `TcpConfiguration::new` accepts its outputs, and
  -- the targets of its filter are those that `try_new` makes.
  abbrev pub IsExportable : (String → Bool) → Data.SubscriptionData P → Type 0
  IsExportable is_ip_addr s =
      All (λ o. IsAccepted is_ip_addr o.driver) s.outputs × HasCollected s.client_filter

  -- The identifier that the last setter draws.
  abbrev pub last_draw : (ℕ → Uuid) → Option (Filter.ClientFilter P) → Uuid
  last_draw draws none = draws 16
  last_draw draws (some f) = draws 17

  abbrev pub redrawn : (ℕ → Uuid) → Data.SubscriptionData P → Data.SubscriptionData P
  redrawn draws s = record s {
    internal_version = record { uuid = last_draw draws s.client_filter };
  }

  -- A subscription that was imported: the old one with the version drawn last, and with a filter
  -- whose targets may be in another order.
  abbrev pub Reimported : (ℕ → Uuid) → Data.SubscriptionData P → Data.SubscriptionData P → Type 0
  Reimported draws old new =
      (filter : Option (Filter.ClientFilter P)) × (new
        ≡ record (redrawn draws old) { client_filter = filter })
      × SameOption old.client_filter filter

  import_with :
      (is_ip_addr : String → Bool) (order : List String → List String) (draws : ℕ → Uuid)
      (s : Data.SubscriptionData P) (filter : Option (Filter.ClientFilter P))
      (file : Option V3.Filters.ClientFilter)
      → s.client_filter ≡ filter
      → All (λ o. IsAccepted is_ip_addr o.driver) s.outputs
      → IsOrder order
      → HasCollected filter
      → SameOptionInFile (exported_option order filter) file
      → (new : Data.SubscriptionData P) × (V3.into_data crate to_lowercase is_ip_addr draws
            (V3.export_with file s)
          ≡ done new)
        × Reimported draws s new
  unfolding V3.into_data V3.set_filter V3.set_all Data.set_client_filter
  import_with is_ip_addr order draws s none none e accepted permutes h same = (
    redrawn draws s,
    rw
        (
          into-from_outputs is_ip_addr s.outputs accepted,
          into-from_content_format s.parameters.content_format,
          e,
        )
        refl,
    (none, rw e refl, rw e tt),
  )
  import_with is_ip_addr order draws s (some f) (some file) e accepted permutes h same =
      let (g, made, alike) = into_filter-done order f file permutes h same in
      (
        record (redrawn draws s) { client_filter = some g },
        rw
            (
              into-from_outputs is_ip_addr s.outputs accepted,
              into-from_content_format s.parameters.content_format,
              made,
              e,
            )
            refl,
        (some g, refl, rw e alike),
      )
  import_with is_ip_addr order draws s none (some file) e accepted permutes h same = elim same [ ]
  import_with is_ip_addr order draws s (some f) none e accepted permutes h same = elim same [ ]

  export_done :
      (order : List String → List String) (s : Data.SubscriptionData P)
      (filter : Option (Filter.ClientFilter P))
      → s.client_filter ≡ filter
      → V3.from_data crate to_lowercase order s
        ≡ done (V3.export_with (exported_option order filter) s)
  unfolding V3.from_data V3.from_filter_option
  export_done order s none e = rw e refl
  export_done order s (some f) e = rw (e, from_filter-done order f) refl

  abbrev pub exported_data :
      (List String → List String) → Data.SubscriptionData P → V3.SubscriptionData
  exported_data order s = V3.export_with (exported_option order s.client_filter) s

  pub from_data-done :
      (order : List String → List String) (s : Data.SubscriptionData P)
      → V3.from_data crate to_lowercase order s ≡ done (exported_data order s)
  from_data-done order s = export_done order s s.client_filter refl

  pub into_data-done :
      (is_ip_addr : String → Bool) (order : List String → List String) (draws : ℕ → Uuid)
      (s : Data.SubscriptionData P) (file : V3.SubscriptionData)
      → IsOrder order
      → IsExportable is_ip_addr s
      → SameData (exported_data order s) file
      → (new : Data.SubscriptionData P) × (V3.into_data crate to_lowercase is_ip_addr draws file
          ≡ done new)
        × Reimported draws s new
  into_data-done is_ip_addr order draws s file permutes (accepted, collected)
        (filter, stands, same) =
      rw stands (
        import_with is_ip_addr order draws s s.client_filter filter refl accepted permutes collected
          same)
