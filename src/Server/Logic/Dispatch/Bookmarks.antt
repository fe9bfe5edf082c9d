-- ===== src/Server/Logic/Dispatch/Bookmarks.antt =====
-- Which messages change the bookmarks.
use openwec.Prelude.{
  ℕ, String, true, ◌||◌, Option, some, ◌≡◌, refl, Result, ◌⊎◌, inl, inr, ◌==◌, string_eq,
  Bool-cases, Option-cases, Result-cases,
}
use openwec.Prelude.Dict.{lookup}
use openwec.Database.Bookmarks.{store_bookmark}
use openwec.Subscription.Data.{SubscriptionUuid, subscription_uuid_eq, SubscriptionParameters}
use openwec.Server.Subscriptions.{Subscription, Subscriptions}
use openwec.Server.Subscriptions.Soundness.{IsSound}
use openwec.Server.Messages.{
  Message, RequestData, AuthenticationContext, action, action_enumerate, action_end,
  action_subscription_end, action_heartbeat, action_events,
}
use openwec.Server.Logic.{Libraries, Surroundings, Collected, store_heartbeat}
use openwec.Server.Logic.Enumerate.{Collector}
use openwec.Server.Logic.Heartbeats.{allows, heartbeat_of, handle_heartbeat}
use openwec.Server.Logic.Events.{Formatters, all_succeed, handle_events}
use openwec.Server.Logic.Events.Delivery.{writes, identifier_of, handle_events-safe}
use openwec.Server.Logic.Events.Checks.{Accepted}
use openwec.Server.Logic.Dispatch.{dispatch, handle_message}

module _ {P K R : Type 0} (libraries : Libraries P) (w : Surroundings K R) where
  heartbeat_of-bookmarks :
      (s : Subscription P K R) (request : RequestData) (message : Message) (c : Collected K R)
      → (heartbeat_of libraries w s request message c).0.bookmarks ≡ c.bookmarks
  unfolding store_heartbeat
  heartbeat_of-bookmarks s request message c =
      elim (Bool-cases (allows libraries s request message)) [
        | inr refused ↦ rw (refused) refl
        | inl allowed ↦ elim (Result-cases w.now) [
          | inr (e, no_time) ↦ rw (allowed, no_time, no_time, store_heartbeat) refl
          | inl (now, time) ↦ elim (Result-cases w.send_heartbeat) [
            | inr (e, unsent) ↦ rw (allowed, time, unsent, time, unsent, store_heartbeat) refl
            | inl (_, sent) ↦ rw (allowed, time, sent, time, sent, store_heartbeat) refl
          ]
        ]
      ]

  handle_heartbeat-bookmarks :
      (mem : Subscriptions P K R) (request : RequestData) (message : Message) (c : Collected K R)
      → (handle_heartbeat libraries w mem request message c).0.bookmarks ≡ c.bookmarks
  unfolding handle_heartbeat
  handle_heartbeat-bookmarks mem request message c = elim (Option-cases message.header.identifier) [
    | inl absent ↦ rw (absent, handle_heartbeat) refl
    | inr (identifier, names) ↦ elim (Result-cases (libraries.parse_uuid identifier)) [
      | inr (e, unparsed) ↦ rw (names, unparsed, handle_heartbeat) refl
      | inl (uuid, parsed) ↦
          elim (Option-cases (lookup {K = SubscriptionUuid} (record { uuid = uuid }) mem)) [
            | inl unknown ↦ rw (names, parsed, unknown, handle_heartbeat) refl
            | inr (s, found) ↦
                rw (names, parsed, found, handle_heartbeat)
                  (heartbeat_of-bookmarks s request message c)
          ]
    ]
  ]

module _ {P K R E : Type 0} (libraries : Libraries P) (w : Surroundings K R) (f : Formatters E)
    (drawn : SubscriptionUuid → String × String) (node_name : Option String) (collector : Collector)
    (auth_ctx : AuthenticationContext) (hash : SubscriptionParameters → Result ℕ)
    (mem : Subscriptions P K R) (sound : IsSound hash mem) (request : RequestData)
    (message : Message) (c : Collected K R) where
  -- The bookmarks are as before, or the message has events that were accepted and that every output
  -- has written, and its bookmark is stored.
  abbrev pub KeepsBookmarks : Collected K R → Type 0
  KeepsBookmarks after =
      (after.bookmarks ≡ c.bookmarks)
      ⊎ ((a : Accepted libraries mem request message) × (bookmark : String) × (all_succeed w (
              writes libraries w f node_name request message a.subscription a.texts
                a.public_version)
            ≡ true)
          × (message.header.bookmarks ≡ some bookmark)
          × (after.bookmarks
              ≡ store_bookmark request.principal (identifier_of libraries request a.subscription)
                  bookmark c.bookmarks))

  events-KeepsBookmarks :
      KeepsBookmarks (handle_events libraries w f node_name mem request message c).0
  events-KeepsBookmarks =
      elim (handle_events-safe libraries w f node_name request message hash mem sound c) [
        | inl (same, _, _) ↦ inl same
        | inr (a, succeeded, done) ↦ inr (a, done.bookmark, succeeded, done.carried, done.stored)
      ]

  dispatch-KeepsBookmarks :
      (name : String)
      → KeepsBookmarks
          (dispatch libraries w f drawn node_name collector auth_ctx name mem request message c).0
  dispatch-KeepsBookmarks name = elim (Bool-cases (name == action_enumerate)) [
    | inl is ↦ rw (is) (inl refl)
    | inr not_enumerate ↦
        elim (Bool-cases (name == action_end || name == action_subscription_end)) [
          | inl is ↦ rw (not_enumerate, is) (inl refl)
          | inr not_end ↦ elim (Bool-cases (name == action_heartbeat)) [
            | inl is ↦
                rw (not_enumerate, not_end, is)
                  (inl (handle_heartbeat-bookmarks libraries w mem request message c))
            | inr not_heartbeat ↦ elim (Bool-cases (name == action_events)) [
              | inl is ↦ rw (not_enumerate, not_end, not_heartbeat, is) events-KeepsBookmarks
              | inr not_events ↦ rw (not_enumerate, not_end, not_heartbeat, not_events) (inl refl)
            ]
          ]
        ]
  ]

  -- Whatever the message, the bookmarks stay as they were, or the message brought events for a
  -- subscription that serves the client, the task of every output of the subscription has succeeded
  -- on all events that its formatter accepts, and the only change is that the bookmark of the
  -- message is stored for the client and the subscription.
  pub handle_message-KeepsBookmarks :
      KeepsBookmarks
        (handle_message libraries w f drawn node_name collector auth_ctx mem request message c).0
  unfolding handle_message
  handle_message-KeepsBookmarks = elim (Result-cases (action message)) [
    | inr (e, absent) ↦ rw (absent, handle_message) (inl refl)
    | inl (name, present) ↦ rw (present, handle_message) (dispatch-KeepsBookmarks name)
  ]
