-- ===== src/Server/Logic/Events/Formats.antt =====
-- The formatted events that the outputs of a subscription ask for.
use openwec.Prelude.{
  String, Bool, true, Option, none, some, Option-cases, [], ◌∷◌, ◌≡◌, refl, arith, ok, ◌==◌, ap,
  if◌then◌else◌, All, Bool-cases, inl, inr, map, List, eq_of_==,
}
use openwec.Prelude.Dict
use openwec.Prelude.Dict.{lookup, lookup-insert}
use openwec.Prelude.HashSet
use openwec.Subscription.Output.{SubscriptionOutputFormat, format_eq}
use openwec.Server.Output.{DriverOutput}
use openwec.Server.Messages.{EventMetadata, EventData}
use openwec.Server.Logic.{Write}
use openwec.Server.Logic.Events.{
  Formatters, FormattedEvents, format_all, insert_formats, get_formatted_events, spawn_all,
}

-- The values that are there.
abbrev pub somes : List (Option String) → List String
somes [] = []
somes (none ∷ found) = somes found
somes (some value ∷ found) = value ∷ somes found

module _ {E : Type 0} (f : Formatters E) (texts : List String) (parse_event : Bool)
    (metadata : EventMetadata) where
  lookup-insert_formats :
      (format : SubscriptionOutputFormat) (formats : List SubscriptionOutputFormat)
      (formatted : FormattedEvents)
      → lookup format (insert_formats f texts parse_event formats metadata formatted) ≡ (
          if HashSet.contains format formats
          then some (format_all f format metadata parse_event texts)
          else lookup format formatted)
  unfolding insert_formats HashSet.contains
  lookup-insert_formats format [] formatted = ground arith
  lookup-insert_formats format (g ∷ gs) formatted = elim (Bool-cases (format == g)) [
    | inl same ↦ ground (
      arith,
      lookup-insert_formats format gs
          (Dict.insert g (format_all f g metadata parse_event texts) formatted),
      lookup-insert format g (format_all f g metadata parse_event texts) formatted,
      ap (λ x. format_all f x metadata parse_event texts) (eq_of_== format g same),
    )
    | inr other ↦ ground (
      arith,
      lookup-insert_formats format gs
          (Dict.insert g (format_all f g metadata parse_event texts) formatted),
      lookup-insert format g (format_all f g metadata parse_event texts) formatted,
    )
  ]

  -- The event of a text, parsed when the outputs need it.
  abbrev pub event_data : String → EventData E
  event_data text = record { raw = text; event = if parse_event then some (f.parse text) else none }

  -- What a formatter makes of each text, less the texts that it refuses, in their order.
  abbrev pub accepted_by : SubscriptionOutputFormat → List String → List String
  accepted_by format texts = somes (map (λ text. f.format format metadata (event_data text)) texts)

  format_all-accepted_by :
      (format : SubscriptionOutputFormat) (items : List String)
      → format_all f format metadata parse_event items ≡ accepted_by format items
  format_all-accepted_by format [] = refl
  format_all-accepted_by format (text ∷ items) =
      elim (Option-cases (f.format format metadata (event_data text))) [
        | inl refused ↦ rw (refused, format_all) (format_all-accepted_by format items)
        | inr (content, made) ↦
            rw (made, format_all)
              (ap (λ rest. content ∷ rest) (format_all-accepted_by format items))
      ]

  -- The task of an output: all events, formatted for it.
  abbrev pub write_of : {K R : Type 0} → DriverOutput K R → Write K R
  write_of output = record {
    output = output;
    metadata = metadata;
    events = accepted_by output.format texts;
  }

  -- When the set of formats has the format of every output, every output gets exactly one task, with
  -- what its formatter makes of each event, in order, less the events that it refuses, and the error
  -- of a missing format does not occur.
  pub spawn_all-get_formatted_events :
      {K R : Type 0} (outputs : List (DriverOutput K R)) (formats : List SubscriptionOutputFormat)
      → All (λ (o : DriverOutput K R). HashSet.contains o.format formats ≡ true) outputs
      → spawn_all outputs (get_formatted_events f texts parse_event formats metadata) metadata
        ≡ (map write_of outputs, ok tt)
  unfolding spawn_all get_formatted_events
  spawn_all-get_formatted_events [] formats covered = refl
  spawn_all-get_formatted_events (o ∷ os) formats (here, covered) =
      rw
        (
          lookup-insert_formats o.format formats [],
          here,
          format_all-accepted_by o.format texts,
          spawn_all-get_formatted_events os formats covered,
          spawn_all,
        )
        refl
