-- ===== src/Models/Config/Exportable.antt =====
-- A subscription from a configuration file (common/src/models/config.rs) is one that can be
-- exported and imported again (common/src/models/export.rs).
use openwec.Prelude.{
  ℕ, suc, String, Bool, Option, none, some, List, [], ◌∷◌, ◌≡◌, sym, Result, ok, with_context,
  >>=-eq-ok, ok-injective, string_eq, All-snoc, is_empty, Bool-cases, inl, inr,
}
use openwec.Prelude.HashSet.{Distinct}
use openwec.Prelude.Run.{
  done, lift, run_context, >>=-eq-done, done_injective, lift-done, run_context-done,
}
use openwec.Subscription.Output
use openwec.Subscription.Data
use openwec.Subscription.Data.{SubscriptionData}
use openwec.Subscription.Filter.{Glob}
use openwec.Models.Config
use openwec.Models.Config.{Draws, Subscription}
use openwec.Models.Config.Outputs
use openwec.Models.Config.Outputs.{into_output, into_driver, into_tcp}
use openwec.Models.Config.Filters.{ClientFilter, into_filter}
use openwec.Models.Export.V3.RoundTrip.{IsAccepted, IsExportable}
use openwec.Models.Config.Parts.{
  with_context-ok, into_driver-IsAccepted, TextLaws, into_filter-IsCollected,
}

module _ {P : Type 0} (crate : Glob P) (to_lowercase : String → String)
    (laws : TextLaws crate to_lowercase) (is_ip_addr : String → Bool) (draws : Draws) where
  into_output-IsAccepted :
      (value : Outputs.SubscriptionOutput) (o : Output.SubscriptionOutput)
      → into_output is_ip_addr value ≡ ok o
      → IsAccepted is_ip_addr o.driver
  unfolding into_output
  into_output-IsAccepted value o h =
      let (driver, made, whole) = >>=-eq-ok (into_driver is_ip_addr value.driver) _ h in
      rw (sym (ok-injective _ o whole)) (into_driver-IsAccepted is_ip_addr value.driver driver made)

  add_outputs-IsExportable :
      (n : ℕ) (outputs : List Outputs.SubscriptionOutput) (s after : SubscriptionData P)
      → IsExportable crate to_lowercase is_ip_addr s
      → Config.add_outputs crate to_lowercase is_ip_addr draws n outputs s ≡ done after
      → IsExportable crate to_lowercase is_ip_addr after
  unfolding Config.add_outputs Data.add_output
  add_outputs-IsExportable n [] s after h e = rw (sym (done_injective s after e)) h
  add_outputs-IsExportable n (o ∷ os) s after h e =
      let (output, made, rest) =
        >>=-eq-done
          (lift (with_context "Loading subscription {} output {:?}" (into_output is_ip_addr o))) _
          e in
      let accepted = into_output-IsAccepted o output (
        with_context-ok "Loading subscription {} output {:?}" _ output (lift-done _ output made)) in
      add_outputs-IsExportable (suc n) os (Data.add_output output (draws.outputs n) s) after
        (All-snoc (λ o. IsAccepted is_ip_addr o.driver) s.outputs output h.0 accepted, h.1) rest

  when_kept :
      {A : Type 0} (o : Option A) (setter : A → SubscriptionData P → SubscriptionData P)
      (s : SubscriptionData P)
      → ((a : A) (s : SubscriptionData P)
          → IsExportable crate to_lowercase is_ip_addr s
          → IsExportable crate to_lowercase is_ip_addr (setter a s))
      → IsExportable crate to_lowercase is_ip_addr s
      → IsExportable crate to_lowercase is_ip_addr (Config.when o setter s)
  when_kept none setter s keeps h = h
  when_kept (some a) setter s keeps h = keeps a s h

  set_options-IsExportable :
      (options : Option Config.SubscriptionOptions) (s : SubscriptionData P)
      → IsExportable crate to_lowercase is_ip_addr s
      → IsExportable crate to_lowercase is_ip_addr
          (Config.set_options crate to_lowercase is_ip_addr draws options s)
  unfolding Config.set_options Config.feed_subscription_data Data.set_uri
      Data.set_heartbeat_interval Data.set_connection_retry_count Data.set_connection_retry_interval
      Data.set_max_time Data.set_max_elements Data.set_max_envelope_size Data.set_enabled
      Data.set_read_existing_events Data.set_content_format Data.set_ignore_channel_error
      Data.set_locale Data.set_data_locale Data.update_internal_version
  set_options-IsExportable none s h = h
  set_options-IsExportable (some o) s h =
      when_kept o.ignore_channel_error _ _ (λ a s h. h)
        (when_kept o.content_format _ _ (λ a s h. h)
          (when_kept o.read_existing_events _ _ (λ a s h. h)
            (when_kept o.enabled _ _ (λ a s h. h)
              (when_kept o.max_envelope_size _ _ (λ a s h. h)
                (when_kept o.max_time _ _ (λ a s h. h)
                  (when_kept o.connection_retry_interval _ _ (λ a s h. h)
                    (when_kept o.connection_retry_count _ _ (λ a s h. h)
                      (when_kept o.heartbeat_interval _ _ (λ a s h. h) h))))))))

  abbrev pub HasDistinct : Option ClientFilter → Type 0
  HasDistinct none = Unit
  HasDistinct (some f) = Distinct f.targets

  set_filter-IsExportable :
      (filter : Option ClientFilter) (subscription : Subscription) (after : SubscriptionData P)
      → HasDistinct filter
      → Config.set_filter crate to_lowercase is_ip_addr draws filter
          (Config.named crate to_lowercase is_ip_addr draws subscription)
        ≡ done after
      → IsExportable crate to_lowercase is_ip_addr after
  unfolding Config.set_filter Config.named Data.set_client_filter Data.set_query Data.set_name
      Data.set_uuid Data.new Data.update_internal_version
  set_filter-IsExportable none subscription after distinct e =
      rw (sym (done_injective _ after e)) (tt, tt)
  set_filter-IsExportable (some f) subscription after distinct e =
      let (filter, made, whole) = >>=-eq-done (into_filter crate to_lowercase f) _ e in
      rw (sym (done_injective _ after whole))
        (tt, into_filter-IsCollected crate to_lowercase laws f filter distinct made)

  into_data-IsExportable :
      (subscription : Subscription) (after : SubscriptionData P)
      → HasDistinct subscription.filter
      → Config.into_data crate to_lowercase is_ip_addr draws subscription ≡ done after
      → IsExportable crate to_lowercase is_ip_addr after
  unfolding Config.into_data
  into_data-IsExportable subscription after distinct e =
      let (filtered, made, rest) =
        >>=-eq-done
          (Config.set_filter crate to_lowercase is_ip_addr draws subscription.filter
            (Config.named crate to_lowercase is_ip_addr draws subscription))
          _ e in
      let ready = set_filter-IsExportable subscription.filter subscription filtered distinct made in
      elim (Bool-cases (is_empty subscription.outputs)) [
        | inl nothing ↦ cc (rw nothing at rest)
        | inr some_outputs ↦
            let (with_outputs, added, whole) =
              >>=-eq-done
                (Config.add_outputs crate to_lowercase is_ip_addr draws 0 subscription.outputs
                  filtered)
                _ (rw some_outputs at rest) in
            rw
              (sym (
                done_injective
                  (Config.set_options crate to_lowercase is_ip_addr draws subscription.options
                    with_outputs)
                  after whole))
              (set_options-IsExportable subscription.options with_outputs
                (add_outputs-IsExportable 0 subscription.outputs filtered with_outputs ready added))
      ]

  -- A subscription that was read from a configuration file can be exported: `TcpConfiguration::new`
  -- accepts its outputs again and the targets of its filter are those that `try_new` makes of them.
  -- The targets of a file's filter are taken to be distinct, as in a `HashSet`.
  pub parse-IsExportable :
      (from_str : String → Result Subscription) (content : String) (revision : Option String)
      (s : SubscriptionData P)
      → ((c : Subscription) → from_str content ≡ ok c → HasDistinct c.filter)
      → Config.parse crate to_lowercase is_ip_addr draws from_str content revision ≡ done s
      → IsExportable crate to_lowercase is_ip_addr s
  unfolding Config.parse Data.set_revision
  parse-IsExportable from_str content revision s distinct e =
      let (c, read, rest) =
        >>=-eq-done (run_context "Error while parsing TOML" (lift (from_str content))) _ e in
      let (after, made, whole) =
        >>=-eq-done (Config.into_data crate to_lowercase is_ip_addr draws c) _ rest in
      rw (sym (done_injective _ s whole)) (
        into_data-IsExportable c after (distinct c (lift-done _ c (run_context-done _ _ c read)))
          made)
