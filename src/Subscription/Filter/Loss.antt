-- ===== src/Subscription/Filter/Loss.antt =====
-- Targets added to a filter that ignores case, and targets with a comma in the database.
use openwec.Prelude.{
  String, Bool, true, false, Option, List, [], ◌∷◌, ◌≡◌, ◌≢◌, refl, sym, ok, ok-injective, arith,
  string_eq, All,
}
use openwec.Prelude.HashSet
use openwec.Prelude.HashSet.{contains-extend, contains-insert}
use openwec.Prelude.Text.{split, has_char, split_pieces}
use openwec.Subscription.Filter.Operation
use openwec.Subscription.Filter.Operation.{only}
use openwec.Subscription.Filter.Kind
use openwec.Subscription.Filter.Kind.{kerberos_princ}
use openwec.Subscription.Filter.Flags
use openwec.Subscription.Filter.{
  Glob, ClientFilter, exact, collect_targets, parse_targets, eval, add_target,
  targets_to_opt_string, targets_to_string,
}
use openwec.Subscription.Filter.Storage.{reload}

module _ {P : Type 0} (crate : Glob P) (to_lowercase : String → String) where
  abbrev pub only_filter : Bool → List String → ClientFilter P
  only_filter insensitive targets = record {
    operation = only;
    kind = kerberos_princ;
    flags = record { case_insensitive = insensitive; glob_pattern = false };
    targets = exact targets;
  }

  -- `add_target` does not lower the case of a target. A target that is not lower case, added to an
  -- `Only` filter on Kerberos principals that ignores case and does not yet list its lower case, is
  -- rejected by the filter that it was added to.
  pub eval-add_target_case :
      (targets : List String) (target : String) (machine : Option String) (f : ClientFilter P)
      → to_lowercase target ≢ target
      → HashSet.contains (to_lowercase target) targets ≡ false
      → add_target crate to_lowercase (only_filter true targets) target ≡ ok f
      → eval crate to_lowercase f target machine ≡ false
  unfolding add_target eval
  eval-add_target_case targets target machine f upper absent added =
      rw (← ok-injective _ _ added)
        (ground (arith, contains-insert (to_lowercase target) target targets))

  not_among :
      (t : String) (pieces : List String)
      → has_char "," t ≡ true
      → All (λ p. has_char "," p ≡ false) pieces
      → HashSet.contains t pieces ≡ false
  unfolding HashSet.contains
  not_among t [] comma free = refl
  not_among t (p ∷ ps) comma (here, free) = ground (arith, not_among t ps comma free)

  parsed_pieces :
      (text t : String) (machine : Option String) (f : ClientFilter P)
      → has_char "," t ≡ true
      → f ≡ only_filter false (HashSet.from_iter (split "," text))
      → eval crate to_lowercase f t machine ≡ false
  unfolding eval
  parsed_pieces text t machine f comma e = rw e (
      ground (
        arith,
        contains-extend t [] (split "," text),
        not_among t (split "," text) comma (split_pieces "," text),
        not_among t [] comma tt,
      ))

  reloaded :
      (order : List String → List String) (t : String) (ts : List String) (f : ClientFilter P)
      → reload crate to_lowercase order (only_filter false (t ∷ ts)) ≡ ok f
      → f
        ≡ only_filter false (
            HashSet.from_iter
              (split "," (targets_to_string crate to_lowercase order (only_filter false (t ∷ ts)))))
  unfolding reload parse_targets collect_targets targets_to_opt_string Operation.parse
      Operation.to_string Kind.parse Kind.to_string Flags.from_bits Flags.bits
  reloaded order t ts f stored = sym (ok-injective _ _ stored)

  -- A client whose name holds a comma is let through by an `Only` filter that lists it, and is
  -- rejected by the same filter once it is stored in the database and read again, whatever the order
  -- in which its targets were joined.
  pub eval-reload_comma :
      (order : List String → List String) (targets : List String) (client : String)
      (machine : Option String) (f : ClientFilter P)
      → has_char "," client ≡ true
      → HashSet.contains client targets ≡ true
      → reload crate to_lowercase order (only_filter false targets) ≡ ok f
      → (eval crate to_lowercase (only_filter false targets) client machine ≡ true)
        × (eval crate to_lowercase f client machine ≡ false)
  unfolding eval HashSet.contains
  eval-reload_comma order [] client machine f comma listed stored = cc
  eval-reload_comma order (t ∷ ts) client machine f comma listed stored = (
    listed,
    parsed_pieces (targets_to_string crate to_lowercase order (only_filter false (t ∷ ts))) client
        machine f comma (reloaded order t ts f stored),
  )
