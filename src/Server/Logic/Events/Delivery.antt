-- ===== src/Server/Logic/Events/Delivery.antt =====
-- What the handling of an events message does to the bookmarks, the heartbeats and the outputs, when
-- the subscriptions in memory are those that reloads build.
use openwec.Prelude.{
  none, arith, Error, err, zero, suc, get_elem?, ℕ, String, true, false, not, Option, some, List,
  [], ◌∷◌, ◌++◌, ◌≡◌, refl, Result, ok, ◌⊎◌, inl, inr, any, map, ap, Bool-cases, Option-cases,
  Result-cases, if◌then◌else◌, All,
}
use openwec.Prelude.HashSet
use mathlib.Core.Option.{some-injective}
use openwec.Database.Bookmarks.{store_bookmark}
use openwec.Subscription.Output.{format_eq, needs_parsed_event}
use openwec.Subscription.Data.{SubscriptionParameters}
use openwec.Server.Output.{DriverOutput}
use openwec.Server.Subscriptions.{Subscription, Subscriptions}
use openwec.Server.Subscriptions.Soundness.{IsSound}
use openwec.Server.Messages.{action_ack, Message, RequestData}
use openwec.Server.Heartbeat.{WriteHeartbeatMessage}
use openwec.Server.Logic.{
  Libraries, Surroundings, Collected, Response, reply, failure, service_unavailable, Write,
  finished, panicked, store_heartbeat,
}
use openwec.Server.Logic.Events.{
  Formatters, new_metadata, all_succeed, acknowledge, deliver, handle_events,
}
use openwec.Server.Logic.Events.Formats.{write_of, spawn_all-get_formatted_events}
use openwec.Server.Logic.Events.Checks.{is_reply, Accepted, handle_events-checked}

module _ {P K R : Type 0} (libraries : Libraries P) (request : RequestData) where
  abbrev pub identifier_of : Subscription P K R → String
  identifier_of s = libraries.uuid_string s.subscription_data.uuid.uuid

  -- The event heartbeat of a subscription, sent at a time.
  abbrev pub event_heartbeat : Subscription P K R → ℕ → WriteHeartbeatMessage
  event_heartbeat s now = record {
    machine = request.principal;
    ip = request.remote_addr.ip;
    subscription = identifier_of s;
    timestamp = now;
    is_event = true;
  }

-- The bookmark of the message is stored; when the client gets a reply, the event heartbeat is sent
-- as well.
pub record Acknowledged {P K R : Type 0} (libraries : Libraries P) (request : RequestData)
    (message : Message) (s : Subscription P K R) (before after : Collected K R)
    (r : Result Response) : Type 0 where
  pub bookmark : String
  pub carried : message.header.bookmarks ≡ some bookmark
  pub stored :
      after.bookmarks
      ≡ store_bookmark request.principal
          (identifier_of libraries request s)
          bookmark
          before.bookmarks
  pub spawned : after.spawned ≡ before.spawned
  pub heartbeat :
      is_reply r ≡ true
      → (now : ℕ) × (after.heartbeats
          ≡ before.heartbeats ++ event_heartbeat libraries request s now ∷ [])

module _ {P K R : Type 0} (libraries : Libraries P) (w : Surroundings K R) (s : Subscription P K R)
    (request : RequestData) (message : Message) (c : Collected K R) where
  abbrev result : Collected K R × Result Response
  result = acknowledge libraries w s request message c

  acknowledge_cases :
      ((result.0 ≡ c) × (is_reply result.1 ≡ false))
      ⊎ Acknowledged libraries request message s c result.0 result.1
  unfolding acknowledge store_heartbeat
  acknowledge_cases = elim (Option-cases message.header.bookmarks) [
    | inl absent ↦ inl (rw (absent, acknowledge) (refl, refl))
    | inr (bookmark, carried) ↦ elim (Result-cases w.write_bookmark) [
      | inr (e, failed) ↦ inl (rw (carried, failed, acknowledge) (refl, refl))
      | inl (_, written) ↦ elim (Result-cases w.now) [
        | inr (e, no_time) ↦ inr (record {
          bookmark = bookmark;
          carried = carried;
          stored = rw (carried, written, no_time, no_time, acknowledge, store_heartbeat) refl;
          spawned = rw (carried, written, no_time, no_time, acknowledge, store_heartbeat) refl;
          heartbeat = rw (carried, written, no_time, acknowledge) (λ h. cc);
        })
        | inl (now, time) ↦ elim (Result-cases w.send_heartbeat) [
          | inr (e, unsent) ↦ inr (record {
            bookmark = bookmark;
            carried = carried;
            stored =
                rw (carried, written, time, unsent, time, unsent, acknowledge, store_heartbeat)
                  refl;
            spawned =
                rw (carried, written, time, unsent, time, unsent, acknowledge, store_heartbeat)
                  refl;
            heartbeat = rw (carried, written, time, unsent, acknowledge) (λ h. cc);
          })
          | inl (_, sent) ↦ inr (record {
            bookmark = bookmark;
            carried = carried;
            stored =
                rw (carried, written, time, sent, time, sent, acknowledge, store_heartbeat) refl;
            spawned =
                rw (carried, written, time, sent, time, sent, acknowledge, store_heartbeat) refl;
            heartbeat =
                rw (carried, written, time, sent, time, sent, acknowledge, store_heartbeat)
                  (λ h. (now, refl));
          })
        ]
      ]
    ]
  ]

-- One task that ends with an error or a panic is enough.
all_succeed-failed :
    {K R : Type 0} (w : Surroundings K R) (writes : List (Write K R)) (i : ℕ) (write : Write K R)
    → get_elem? writes i ≡ some write
    → ((e : Error) × (w.join write ≡ finished (err e))) ⊎ (w.join write ≡ panicked)
    → all_succeed w writes ≡ false
unfolding all_succeed
all_succeed-failed w [] i write here failed = cc
all_succeed-failed w (first ∷ rest) zero write here (inl (e, error)) =
    rw (some-injective _ _ here, error) refl
all_succeed-failed w (first ∷ rest) zero write here (inr panic) =
    rw (some-injective _ _ here, panic) refl
all_succeed-failed w (first ∷ rest) (suc i) write here failed =
    ground (arith, all_succeed-failed w rest i write here failed)

module _ {P K R E : Type 0} (libraries : Libraries P) (w : Surroundings K R) (f : Formatters E)
    (node_name : Option String) (request : RequestData) (message : Message) where
  module _ (s : Subscription P K R) (texts : List String) (public_version : String) where
    -- One task for each output, with every event that the output's formatter accepts.
    abbrev pub writes : List (Write K R)
    writes =
        map
          (write_of f texts (any needs_parsed_event s.formats) (
            new_metadata libraries request node_name w.date s public_version
              message.header.revision))
          s.outputs

    abbrev pub Covers : Type 0
    Covers = All (λ (o : DriverOutput K R). HashSet.contains o.format s.formats ≡ true) s.outputs

    deliver-covered :
        (c : Collected K R)
        → Covers
        → deliver libraries w f node_name s request message texts public_version c ≡ (
            let c' : Collected K R = record c { spawned = c.spawned ++ writes } in
            if not (all_succeed w writes)
            then (c', ok (failure service_unavailable))
            else acknowledge libraries w s request message c')
    unfolding deliver
    deliver-covered c covers =
        let spawned =
          spawn_all-get_formatted_events f texts (any needs_parsed_event s.formats)
            (new_metadata libraries request node_name w.date s public_version
              message.header.revision)
            s.outputs s.formats covers in
        rw (spawned, spawned, deliver) refl

  module _ (hash : SubscriptionParameters → Result ℕ) (mem : Subscriptions P K R)
      (sound : IsSound hash mem) (c : Collected K R) where
    abbrev outcome : Collected K R × Result Response
    outcome = handle_events libraries w f node_name mem request message c

    abbrev writes_for : Accepted libraries mem request message → List (Write K R)
    writes_for a = writes a.subscription a.texts a.public_version

    accepted_covers :
        (a : Accepted libraries mem request message)
        → Covers a.subscription a.texts a.public_version
    accepted_covers a = (sound.built (record { uuid = a.uuid }) a.subscription a.found).covered

    accepted_outcome :
        (a : Accepted libraries mem request message)
        → outcome ≡ (
            let c' : Collected K R = record c { spawned = c.spawned ++ writes_for a } in
            if not (all_succeed w (writes_for a))
            then (c', ok (failure service_unavailable))
            else acknowledge libraries w a.subscription request message c')
    unfolding handle_events
    accepted_outcome a =
        rw (a.body, a.names, a.parsed, a.found, a.allowed, a.versioned, handle_events)
          (deliver-covered a.subscription a.texts a.public_version c (accepted_covers a))

    accepted_delivered :
        (a : Accepted libraries mem request message)
        → all_succeed w (writes_for a) ≡ true
        → outcome
          ≡ acknowledge libraries w a.subscription request message
              (record c { spawned = c.spawned ++ writes_for a })
    accepted_delivered a succeeded = rw (accepted_outcome a, succeeded) refl

    refused_outcome :
        (a : Accepted libraries mem request message)
        → all_succeed w (writes_for a) ≡ false
        → outcome
          ≡ (record c { spawned = c.spawned ++ writes_for a }, ok (failure service_unavailable))
    refused_outcome a failed = rw (accepted_outcome a, failed) refl

    -- A message that is accepted and for which the task of one output, whichever it is and whatever
    -- becomes of the others, ends with an error or a panic is answered with status 503; the tasks of
    -- all outputs were spawned, and the bookmarks and the heartbeats stay as they were.
    pub handle_events-failed_output :
        (a : Accepted libraries mem request message) (i : ℕ) (write : Write K R)
        → get_elem? (writes_for a) i ≡ some write
        → ((e : Error) × (w.join write ≡ finished (err e))) ⊎ (w.join write ≡ panicked)
        → outcome
          ≡ (record c { spawned = c.spawned ++ writes_for a }, ok (failure service_unavailable))
    handle_events-failed_output a i write here failed =
        refused_outcome a (all_succeed-failed w (writes_for a) i write here failed)

    -- A message that is accepted is acknowledged when every output succeeds, it carries a bookmark, the
    -- database and the clock work and the heartbeat task receives: the bookmark is stored, the event
    -- heartbeat is sent, and nothing else changes but the tasks spawned.
    pub handle_events-acknowledges :
        (a : Accepted libraries mem request message) (bookmark : String) (now : ℕ)
        → all_succeed w (writes_for a) ≡ true
        → message.header.bookmarks ≡ some bookmark
        → w.write_bookmark ≡ ok tt
        → w.now ≡ ok now
        → w.send_heartbeat ≡ ok tt
        → outcome ≡ (
          record {
            bookmarks =
                store_bookmark request.principal
                  (identifier_of libraries request a.subscription)
                  bookmark
                  c.bookmarks;
            heartbeats = c.heartbeats ++ event_heartbeat libraries request a.subscription now ∷ [];
            spawned = c.spawned ++ writes_for a;
          },
          ok (reply action_ack none),
        )
    unfolding acknowledge store_heartbeat
    handle_events-acknowledges a bookmark now succeeded carried written time sent =
        rw
          (
            accepted_delivered a succeeded,
            carried,
            written,
            time,
            sent,
            time,
            sent,
            acknowledge,
            store_heartbeat,
          )
          refl

    -- Whatever happens, an events message leaves the bookmarks and the heartbeats as they were and
    -- gets no reply, or it was accepted, every output of its subscription has written every event
    -- that its formatter accepts, and the bookmark that it carries is stored for this client and
    -- subscription; if there is a reply, the event heartbeat was sent too.
    pub handle_events-safe :
        ((outcome.0.bookmarks ≡ c.bookmarks)
          × (outcome.0.heartbeats ≡ c.heartbeats)
          × (is_reply outcome.1 ≡ false))
        ⊎ ((a : Accepted libraries mem request message) × (all_succeed w (writes_for a) ≡ true)
            × Acknowledged libraries request message a.subscription
                (record c { spawned = c.spawned ++ writes_for a })
                outcome.0
                outcome.1)
    handle_events-safe =
        elim (handle_events-checked libraries w f node_name mem request message c) [
          | inl (r, same, no_reply) ↦ inl (rw (same) (refl, refl, no_reply))
          | inr (a, _) ↦ elim (Bool-cases (all_succeed w (writes_for a))) [
            | inr failed ↦ inl (rw (refused_outcome a failed) (refl, refl, refl))
            | inl succeeded ↦
                elim (acknowledge_cases libraries w a.subscription request message
                  (record c { spawned = c.spawned ++ writes_for a })) [
                    | inl (same, no_reply) ↦ inl (
                        rw (accepted_delivered a succeeded)
                          (ap (λ c. c.bookmarks) same, ap (λ c. c.heartbeats) same, no_reply))
                    | inr acknowledged ↦
                        inr (a, succeeded, rw (accepted_delivered a succeeded) acknowledged)
                  ]
          ]
        ]
