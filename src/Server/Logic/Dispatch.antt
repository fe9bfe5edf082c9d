-- ===== src/Server/Logic/Dispatch.antt =====
-- `handle_message` of server/src/logic.rs.
pub mod Bookmarks
use openwec.Prelude.{
  ℕ, String, Bool, true, false, ◌||◌, Option, none, some, List, ◌≡◌, refl, Result, ok, err, bail,
  with_context, ◌⊎◌, inl, inr, ap, ◌==◌, string_eq, Bool-cases, Result-cases, if◌then◌else◌,
}
use openwec.Subscription.Data.{SubscriptionUuid, SubscriptionParameters}
use openwec.Server.Subscriptions.{Subscriptions}
use openwec.Server.Subscriptions.Soundness.{IsSound}
use openwec.Server.Messages.{
  Message, RequestData, AuthenticationContext, action, action_enumerate, action_end,
  action_subscription_end, action_heartbeat, action_events,
}
use openwec.Server.Logic.{Libraries, Surroundings, Collected, Response, failure}
use openwec.Server.Logic.Enumerate.{Collector, handle_enumerate}
use openwec.Server.Logic.Heartbeats.{handle_heartbeat}
use openwec.Server.Logic.Events.{Formatters, all_succeed, handle_events}

abbrev pub in_context {ℓ} : {A : Type ℓ} → String → A × Result Response → A × Result Response
in_context text (c, r) = (c, with_context text r)

module _ {P K R E : Type 0} (libraries : Libraries P) (w : Surroundings K R) (f : Formatters E)
    (drawn : SubscriptionUuid → String × String) (node_name : Option String) (collector : Collector)
    (auth_ctx : AuthenticationContext) where
  abbrev pub dispatch :
      String
      → Subscriptions P K R
      → RequestData
      → Message
      → Collected K R
      → Collected K R × Result Response
  dispatch action mem request message c =
      if action == action_enumerate
      then (
        c,
        with_context "Failed to handle Enumerate action"
            (handle_enumerate libraries w drawn collector c.bookmarks mem request auth_ctx message),
      )
      else if action == action_end || action == action_subscription_end
      then (c, ok (failure 200))
      else if action == action_heartbeat
      then in_context "Failed to handle Heartbeat action"
          (handle_heartbeat libraries w mem request message c)
      else if action == action_events
      then in_context "Failed to handle Events action"
          (handle_events libraries w f node_name mem request message c)
      else (c, bail "Unsupported message")

  unfoldable pub handle_message :
      Subscriptions P K R → RequestData → Message → Collected K R → Collected K R × Result Response
  unfolding action handle_enumerate handle_heartbeat handle_events
  handle_message mem request message c = elim (action message) [
    | err e ↦ (c, err e)
    | ok name ↦ dispatch name mem request message c
  ]
