-- ===== src/Models/Config/Parts.antt =====
-- The outputs and the filter of a configuration file (common/src/models/config.rs), as they are
-- built.
use openwec.Prelude.{
  ℕ, String, Bool, Option, some, List, [], ◌∷◌, map, ◌≡◌, refl, ap, ◌∙◌, sym, Result, ok, err,
  with_context, try_map, >>=-eq-ok, ok-injective, string_eq, All, Bool-cases, inl, inr,
}
use openwec.Prelude.HashSet
use openwec.Prelude.HashSet.{Distinct, Distinct-from_iter, extend-All}
use openwec.Prelude.Run.{done, >>=-eq-done, lift-done}
use openwec.Subscription.Output
use openwec.Subscription.Output.Tls.{tcp_configuration_iff}
use openwec.Subscription.Filter
use openwec.Subscription.Filter.{Glob, exact, glob, collect_targets}
use openwec.Subscription.Filter.Flags
use openwec.Models.Config.Outputs
use openwec.Models.Config.Outputs.{into_output, into_driver, into_tcp}
use openwec.Models.Config.Filters
use openwec.Models.Config.Filters.{ClientFilter, into_filter}
use openwec.Models.Export.V3.RoundTrip.{IsAccepted, HasCollected}
use openwec.Subscription.Filter.Collected.{IsCollected}

pub with_context-ok {ℓ} :
    {A : Type ℓ} (text : String) (r : Result A) (a : A) → with_context text r ≡ ok a → r ≡ ok a
with_context-ok text (ok b) a h = cc
with_context-ok text (err e) a h = cc

same_configuration :
    (is_ip_addr : String → Bool) (host : String) (port : ℕ) (tls : Bool) (authorities : List String)
    (certificate key : Option String) (c : Output.TcpConfiguration)
    → Output.tcp_configuration is_ip_addr host port tls authorities certificate key ≡ ok c
    → IsAccepted is_ip_addr (Output.tcp c)
same_configuration is_ip_addr host port tls authorities certificate key c h =
    let (valid, same) =
      (tcp_configuration_iff is_ip_addr host port tls authorities certificate key c).0 h in
    rw (sym same) (h ∙ ap ok (sym same))

tcp_injective : (a b : Output.TcpConfiguration) → ok (Output.tcp a) ≡ ok (Output.tcp b) → a ≡ b
tcp_injective a b h = cc

pub into_driver-IsAccepted :
    (is_ip_addr : String → Bool) (d : Outputs.SubscriptionOutputDriver)
    (driver : Output.SubscriptionOutputDriver)
    → into_driver is_ip_addr d ≡ ok driver
    → IsAccepted is_ip_addr driver
unfolding into_driver into_tcp
into_driver-IsAccepted is_ip_addr d (Output.files c) h = tt
into_driver-IsAccepted is_ip_addr d (Output.kafka c) h = tt
into_driver-IsAccepted is_ip_addr d (Output.redis c) h = tt
into_driver-IsAccepted is_ip_addr d (Output.unix_datagram c) h = tt
into_driver-IsAccepted is_ip_addr (Outputs.tcp config) (Output.tcp c) h =
    let (made, built, whole) = >>=-eq-ok (into_tcp is_ip_addr config) _ h in
    rw (tcp_injective made c whole) at
      (same_configuration is_ip_addr _ _ _ _ _ _ made (with_context-ok _ _ made built))
into_driver-IsAccepted is_ip_addr (Outputs.files config) (Output.tcp c) h =
    let (made, built, whole) = >>=-eq-ok (Outputs.into_files config) _ h in cc whole
into_driver-IsAccepted is_ip_addr (Outputs.kafka config) (Output.tcp c) h = cc
into_driver-IsAccepted is_ip_addr (Outputs.redis config) (Output.tcp c) h = cc
into_driver-IsAccepted is_ip_addr (Outputs.unix_datagram config) (Output.tcp c) h = cc

module _ {P : Type 0} (crate : Glob P) (to_lowercase : String → String) where
  -- The documented behaviour of the libraries: a pattern has the text that it was made of, and lower
  -- case stays as it is.
  pub record TextLaws : Type 0 where
    pub as_str-new : (text : String) (p : P) → crate.new text ≡ ok p → crate.as_str p ≡ text
    pub lowercase_idempotent :
        (text : String) → to_lowercase (to_lowercase text) ≡ to_lowercase text

  module _ (laws : TextLaws) where
    lowered : (targets : List String) → All (λ t. to_lowercase t ≡ t) (map to_lowercase targets)
    lowered [] = tt
    lowered (t ∷ ts) = (laws.lowercase_idempotent t, lowered ts)

    kept_as : (targets : List String) → All (λ (t : String). t ≡ t) targets
    kept_as [] = tt
    kept_as (t ∷ ts) = (refl, kept_as ts)

    patterns_of :
        (targets : List String) (patterns : List P)
        → try_map crate.new targets ≡ ok patterns
        → (map crate.as_str patterns ≡ targets)
          × All (λ p. crate.new (crate.as_str p) ≡ ok p) patterns
    patterns_of [] patterns h = rw (sym (ok-injective [] patterns h)) (refl, tt)
    patterns_of (t ∷ ts) patterns h =
        let (p, made, rest) = >>=-eq-ok (crate.new t) _ h in
        let (ps, made_all, whole) = >>=-eq-ok (try_map crate.new ts) _ rest in
        let (texts, again) = patterns_of ts ps made_all in
        rw (sym (ok-injective (p ∷ ps) patterns whole))
          (rw (laws.as_str-new t p made, texts) refl, (rw (laws.as_str-new t p made) made, again))

    collect_targets-IsCollected :
        (flags : Flags.ClientFilterFlags) (targets : List String)
        (clients : Filter.ClientFilterTargets P)
        → Distinct targets
        → collect_targets crate to_lowercase flags targets ≡ ok clients
        → IsCollected crate to_lowercase flags.case_insensitive flags.glob_pattern clients
    unfolding collect_targets
    collect_targets-IsCollected flags targets clients distinct h =
        elim (Bool-cases flags.glob_pattern) [
          | inl on ↦
              let (ps, made, whole) = >>=-eq-ok (try_map crate.new targets) _ (rw on at h) in
              let (texts, again) = patterns_of targets ps made in
              rw (sym (ok-injective (glob ps) clients whole), on) (refl, rw texts distinct, again)
          | inr off ↦ elim (Bool-cases flags.case_insensitive) [
            | inl low ↦
                rw
                  (
                    sym (
                        ok-injective (exact (HashSet.from_iter (map to_lowercase targets))) clients
                          (rw (off, low) at h)),
                    off,
                    low,
                  )
                  (
                    refl,
                    Distinct-from_iter (map to_lowercase targets),
                    extend-All (λ t. to_lowercase t ≡ t) [] (map to_lowercase targets) tt
                        (lowered targets),
                  )
            | inr exactly ↦
                rw
                  (
                    sym (
                        ok-injective (exact (HashSet.from_iter targets)) clients
                          (rw (off, exactly) at h)),
                    off,
                    exactly,
                  )
                  (
                    refl,
                    Distinct-from_iter targets,
                    extend-All (λ t. t ≡ t) [] targets tt (kept_as targets),
                  )
          ]
        ]

    pub into_filter-IsCollected :
        (value : ClientFilter) (f : Filter.ClientFilter P)
        → Distinct value.targets
        → into_filter crate to_lowercase value ≡ done f
        → HasCollected crate to_lowercase (some f)
    unfolding into_filter Filter.try_new
    into_filter-IsCollected value f distinct h =
        let (flags, _, rest) = >>=-eq-done (Filters.into_flags value.flags) _ h in
        let tried = lift-done _ f rest in
        let (clients, collected, whole) =
          >>=-eq-ok (collect_targets crate to_lowercase flags value.targets) _ tried in
        rw (sym (ok-injective _ f whole))
          (collect_targets-IsCollected flags value.targets clients distinct collected)
