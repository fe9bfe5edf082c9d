-- ===== src/Subscription/Filter/Decision.antt =====
-- Whom a client filter lets through, against a description by the list of targets it was given.
use openwec.Prelude.{
  String, Bool, true, false, not, ◌||◌, Option, none, some, List, [], ◌∷◌, map, ◌≡◌, refl, ap,
  Result, ok, err, try_map, >>=-eq-ok, ok-injective, arith, string_eq, ◌==◌, any, if◌then◌else◌,
}
use openwec.Prelude.HashSet
use openwec.Prelude.HashSet.{contains-extend, contains-insert}
use openwec.Subscription.Filter.Operation.{ClientFilterOperation, only, except}
use openwec.Subscription.Filter.Kind.{
  ClientFilterType, kerberos_princ, tls_cert_subject, machine_id,
}
use openwec.Subscription.Filter.Flags.{ClientFilterFlags}
use openwec.Subscription.Filter.{
  Glob, ClientFilter, ClientFilterTargets, glob, collect_targets, try_new, matches, eval,
}

module _ {P : Type 0} (crate : Glob P) (to_lowercase : String → String) where
  -- A glob target that is no pattern matches nothing.
  abbrev pub glob_match : Result P → String → Bool → Bool
  glob_match (ok p) text sensitive = crate.matches_with p text sensitive
  glob_match (err e) text sensitive = false

  -- One configured target, against the text of a client.
  abbrev pub target_match : ClientFilterFlags → String → String → Bool
  target_match flags text target =
      if flags.glob_pattern
      then glob_match (crate.new target) text (not flags.case_insensitive)
      else if flags.case_insensitive
      then to_lowercase text == to_lowercase target
      else text == target

  abbrev pub listed : ClientFilterFlags → List String → String → Bool
  listed flags targets text = any (target_match flags text) targets

  -- An `Only` filter lets the listed clients through and an `Except` filter the others. A filter on
  -- machine ids lets no client through that did not send one.
  abbrev pub permitted :
      ClientFilterOperation
      → ClientFilterType
      → ClientFilterFlags
      → List String
      → String
      → Option String
      → Bool
  permitted only machine_id flags targets client none = false
  permitted only machine_id flags targets client (some id) = listed flags targets id
  permitted only kerberos_princ flags targets client machine = listed flags targets client
  permitted only tls_cert_subject flags targets client machine = listed flags targets client
  permitted except machine_id flags targets client none = false
  permitted except machine_id flags targets client (some id) = not (listed flags targets id)
  permitted except kerberos_princ flags targets client machine = not (listed flags targets client)
  permitted except tls_cert_subject flags targets client machine = not (listed flags targets client)

  any-try_map :
      (text : String) (sensitive : Bool) (targets : List String) (patterns : List P)
      → try_map crate.new targets ≡ ok patterns
      → any (λ p. crate.matches_with p text sensitive) patterns
        ≡ any (λ t. glob_match (crate.new t) text sensitive) targets
  any-try_map text sensitive [] patterns h = ground arith
  any-try_map text sensitive (t ∷ ts) patterns h =
      let (p, new_ok, rest) = >>=-eq-ok (crate.new t) _ h in
      let (ps, rest_ok, whole) = >>=-eq-ok (try_map crate.new ts) _ rest in
      ground (arith, any-try_map text sensitive ts ps rest_ok)

  contains-map :
      (a : String) (targets : List String)
      → HashSet.contains a (map to_lowercase targets) ≡ any (λ t. a == to_lowercase t) targets
  unfolding HashSet.contains
  contains-map a [] = refl
  contains-map a (t ∷ ts) = ap (λ b. a == to_lowercase t || b) (contains-map a ts)

  contains-any :
      (a : String) (targets : List String) → HashSet.contains a targets ≡ any (λ t. a == t) targets
  unfolding HashSet.contains
  contains-any a [] = refl
  contains-any a (t ∷ ts) = ap (λ b. a == t || b) (contains-any a ts)

  matches-listed :
      (f : ClientFilter P) (sensitive insensitive : Bool) (targets : List String) (text : String)
      → f.flags ≡ record { case_insensitive = insensitive; glob_pattern = sensitive }
      → collect_targets crate to_lowercase f.flags targets ≡ ok f.targets
      → matches crate to_lowercase f text ≡ listed f.flags targets text
  unfolding matches collect_targets HashSet.contains
  matches-listed f true insensitive targets text e h =
      let (patterns, parsed, whole) =
        >>=-eq-ok (try_map crate.new targets) (λ ps. ok (glob ps)) {result = f.targets}
          (ground arith) in
      ground (arith, any-try_map text (not insensitive) targets patterns parsed)
  matches-listed f false true targets text e h = ground (
    arith,
    contains-extend (to_lowercase text) [] (map to_lowercase targets),
    contains-map (to_lowercase text) targets,
  )
  matches-listed f false false targets text e h =
      ground (arith, contains-extend text [] targets, contains-any text targets)

  eval-listed :
      (op : ClientFilterOperation) (kind : ClientFilterType) (flags : ClientFilterFlags)
      (targets : List String) (clients : ClientFilterTargets P) (client : String)
      (machine : Option String)
      → collect_targets crate to_lowercase flags targets ≡ ok clients
      → eval crate to_lowercase
          (record { operation = op; kind = kind; flags = flags; targets = clients })
          client
          machine
        ≡ permitted op kind flags targets client machine
  unfolding eval
  eval-listed op kind flags targets clients client machine h = by_cases op kind machine (λ text.
      matches-listed (record { operation = op; kind = kind; flags = flags; targets = clients })
        flags.glob_pattern flags.case_insensitive targets text refl h)
    where
      by_cases :
          (o : ClientFilterOperation) (k : ClientFilterType) (m : Option String)
          → ((text : String)
              → matches crate to_lowercase
                  (record { operation = o; kind = k; flags = flags; targets = clients })
                  text
                ≡ listed flags targets text)
          → eval crate to_lowercase
              (record { operation = o; kind = k; flags = flags; targets = clients })
              client
              m
            ≡ permitted o k flags targets client m
      by_cases only machine_id none e = refl
      by_cases only machine_id (some id) e = e id
      by_cases only kerberos_princ m e = e client
      by_cases only tls_cert_subject m e = e client
      by_cases except machine_id none e = refl
      by_cases except machine_id (some id) e = ap not (e id)
      by_cases except kerberos_princ m e = ap not (e client)
      by_cases except tls_cert_subject m e = ap not (e client)

  -- A filter that the constructor accepts decides about every client, with or without a machine id,
  -- as its operation, kind, flags and configured targets describe.
  pub eval-try_new :
      (op : ClientFilterOperation) (kind : ClientFilterType) (flags : ClientFilterFlags)
      (targets : List String) (f : ClientFilter P) (client : String) (machine : Option String)
      → try_new crate to_lowercase op kind flags targets ≡ ok f
      → eval crate to_lowercase f client machine ≡ permitted op kind flags targets client machine
  unfolding try_new
  eval-try_new op kind flags targets f client machine h =
      let (clients, collected, built) =
        >>=-eq-ok (collect_targets crate to_lowercase flags targets) _ h in
      rw (← ok-injective _ _ built)
        (eval-listed op kind flags targets clients client machine collected)
