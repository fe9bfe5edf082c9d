-- ===== src/Server/Logic/Events/Checks.antt =====
-- The checks that `handle_events` makes before it writes anything.
use openwec.Prelude.{
  String, Bool, true, false, Option, none, some, List, ◌≡◌, refl, Result, ok, err, ◌⊎◌, inl, inr,
  Bool-cases, Option-cases, Result-cases, bail,
}
use openwec.Prelude.Dict.{lookup}
use openwec.Subscription.Data.{Uuid, SubscriptionUuid, subscription_uuid_eq}
use openwec.Server.Subscriptions.{Subscription, Subscriptions}
use openwec.Server.Messages.{Message, Body, events, enumerate_response, RequestData}
use openwec.Server.Logic.{
  Libraries, Surroundings, Collected, Response, reply, failure, bad_request, forbidden, not_found,
}
use openwec.Server.Logic.Heartbeats.{allows}
use openwec.Server.Logic.Events.{Formatters, deliver, handle_events}

abbrev pub is_reply : Result Response → Bool
is_reply (ok (reply _ _)) = true
is_reply _ = false

-- The message has events, a subscription in memory that serves the client, and a version.
pub record Accepted {P K R : Type 0} (libraries : Libraries P) (mem : Subscriptions P K R)
    (request : RequestData) (message : Message) : Type 0 where
  pub texts : List String
  pub identifier : String
  pub uuid : Uuid
  pub subscription : Subscription P K R
  pub public_version : String
  pub body : message.body ≡ some (events texts)
  pub names : message.header.identifier ≡ some identifier
  pub parsed : libraries.parse_uuid identifier ≡ ok uuid
  pub found : lookup {K = SubscriptionUuid} (record { uuid = uuid }) mem ≡ some subscription
  pub allowed : allows libraries subscription request message ≡ true
  pub versioned : message.header.version ≡ some public_version

module _ {P K R E : Type 0} (libraries : Libraries P) (w : Surroundings K R) (f : Formatters E)
    (node_name : Option String) (mem : Subscriptions P K R) (request : RequestData)
    (message : Message) (c : Collected K R) where
  -- Either nothing has changed and there is no reply, or the message is accepted and delivered.
  abbrev pub Checked : Type 0
  Checked =
      ((r : Result Response) × (handle_events libraries w f node_name mem request message c
          ≡ (c, r))
        × (is_reply r ≡ false))
      ⊎ ((a : Accepted libraries mem request message) × (handle_events libraries w f node_name mem
              request message c
            ≡ deliver libraries w f node_name a.subscription request message a.texts
                a.public_version c))

  check_subscription :
      (texts : List String) (identifier : String) (uuid : Uuid) (s : Subscription P K R)
      → message.body ≡ some (events texts)
      → message.header.identifier ≡ some identifier
      → libraries.parse_uuid identifier ≡ ok uuid
      → lookup {K = SubscriptionUuid} (record { uuid = uuid }) mem ≡ some s
      → Checked
  unfolding handle_events
  check_subscription texts identifier uuid s body names parsed found =
      elim (Bool-cases (allows libraries s request message)) [
        | inr refused ↦ inl (
          ok (failure forbidden),
          rw (body, names, parsed, found, refused, handle_events) refl,
          refl,
        )
        | inl allowed ↦ elim (Option-cases message.header.version) [
          | inl absent ↦ inl (
            ok (failure bad_request),
            rw (body, names, parsed, found, allowed, absent, handle_events) refl,
            refl,
          )
          | inr (version, versioned) ↦ inr (
            record {
              texts = texts;
              identifier = identifier;
              uuid = uuid;
              subscription = s;
              public_version = version;
              body = body;
              names = names;
              parsed = parsed;
              found = found;
              allowed = allowed;
              versioned = versioned;
            },
            rw (body, names, parsed, found, allowed, versioned, handle_events) refl,
          )
        ]
      ]

  check_identifier :
      (texts : List String) (identifier : String)
      → message.body ≡ some (events texts)
      → message.header.identifier ≡ some identifier
      → Checked
  unfolding handle_events
  check_identifier texts identifier body names =
      elim (Result-cases (libraries.parse_uuid identifier)) [
        | inr (e, unparsed) ↦ inl (err e, rw (body, names, unparsed, handle_events) refl, refl)
        | inl (uuid, parsed) ↦
            elim (Option-cases (lookup {K = SubscriptionUuid} (record { uuid = uuid }) mem)) [
              | inl unknown ↦ inl (
                ok (failure not_found),
                rw (body, names, parsed, unknown, handle_events) refl,
                refl,
              )
              | inr (s, found) ↦ check_subscription texts identifier uuid s body names parsed found
            ]
      ]

  check_body : (body : Option Body) → message.body ≡ body → Checked
  unfolding handle_events
  check_body none h = inl (bail "Invalid events message", rw (h, handle_events) refl, refl)
  check_body (some (enumerate_response _)) h =
      inl (bail "Invalid events message", rw (h, handle_events) refl, refl)
  check_body (some (events texts)) h = elim (Option-cases message.header.identifier) [
    | inl absent ↦ inl (ok (failure bad_request), rw (h, absent, handle_events) refl, refl)
    | inr (identifier, names) ↦ check_identifier texts identifier h names
  ]

  pub handle_events-checked : Checked
  handle_events-checked = check_body message.body refl
