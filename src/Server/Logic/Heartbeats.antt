-- ===== src/Server/Logic/Heartbeats.antt =====
-- `handle_heartbeat` of server/src/logic.rs.
use openwec.Prelude.{Bool, false, not, none, some, Result, ok, err, with_context, if◌then◌else◌}
use openwec.Prelude.Dict
use openwec.Subscription.Data.{SubscriptionUuid, subscription_uuid_eq, is_active_for}
use openwec.Server.Subscriptions.{Subscription, Subscriptions}
use openwec.Server.Messages.{Message, RequestData, action_ack}
use openwec.Server.Logic.{
  Libraries, Surroundings, Collected, Response, reply, failure, bad_request, forbidden, not_found,
  store_heartbeat,
}

module _ {P K R : Type 0} (libraries : Libraries P) where
  abbrev pub allows : Subscription P K R → RequestData → Message → Bool
  allows s request message =
      is_active_for libraries.glob libraries.to_lowercase s.subscription_data request.principal
        message.header.machine_id

module _ {P K R : Type 0} (libraries : Libraries P) (w : Surroundings K R) where
  -- The heartbeat of a known subscription.
  abbrev pub heartbeat_of :
      Subscription P K R → RequestData → Message → Collected K R → Collected K R × Result Response
  heartbeat_of s request message c =
      if not (allows libraries s request message)
      then (c, ok (failure forbidden))
      else let (c', stored) =
          store_heartbeat w request.principal request.remote_addr.ip
            (libraries.uuid_string s.subscription_data.uuid.uuid) false c in
        elim stored [
          | err e ↦ (c', with_context "Failed to store heartbeat" (err e))
          | ok _ ↦ (c', ok (reply action_ack none))
        ]

  unfoldable pub handle_heartbeat :
      Subscriptions P K R → RequestData → Message → Collected K R → Collected K R × Result Response
  unfolding Dict.lookup is_active_for store_heartbeat
  handle_heartbeat mem request message c = elim message.header.identifier [
    | none ↦ (c, ok (failure bad_request))
    | some identifier ↦ elim (libraries.parse_uuid identifier) [
      | err e ↦ (c, err e)
      | ok uuid ↦ elim (Dict.lookup {K = SubscriptionUuid} (record { uuid = uuid }) mem) [
        | none ↦ (c, ok (failure not_found))
        | some s ↦ heartbeat_of s request message c
      ]
    ]
  ]
