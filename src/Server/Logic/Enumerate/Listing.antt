-- ===== src/Server/Logic/Enumerate/Listing.antt =====
-- The entries of an Enumerate response, and the heartbeats that name them.
use openwec.Prelude.{
  ℕ, String, Bool, true, false, ◌&&◌, Option, none, some, List, [], ◌∷◌, ◌++◌, ◌≡◌, refl, arith,
  Result, ok, map, keep, any, string_eq, ◌∙◌, ap, Bool-cases, inl, inr,
}
use openwec.Prelude.Dict.{values, lookup}
use openwec.Database.Bookmarks.{Bookmarks, BookmarkKey, get_bookmark}
use openwec.Subscription.Data.{
  Uuid, SubscriptionUuid, subscription_uuid_eq, is_active, is_active_for,
}
use mathlib.Core.Path.{fun_ext}
use openwec.Server.Subscriptions.{Subscription, Subscriptions}
use openwec.Server.Messages.{
  Message, RequestData, AuthenticationContext, SoapSubscription, enumerate, new_header, anonymous,
  resource_event_log, action_subscribe, action_enumerate_response, enumerate_response, action_ack,
}
use openwec.Server.Logic.{Libraries, Surroundings, Collected, reply, store_heartbeat}
use openwec.Server.Heartbeat.{WriteHeartbeatMessage}
use openwec.Server.Logic.Heartbeats.{handle_heartbeat}
use openwec.Server.Logic.Enumerate.Expected.{
  is_linked, is_open, start_from, or_earliest-start_from, joined, expected_scheme,
  expected_thumbprint,
}
use openwec.Server.Logic.Enumerate.{
  Collector, uri_matches, or_earliest, read_current_bookmark, create_subscription_body,
  soap_subscription, options, enumerate_all, collector_hostname, handle_enumerate,
}

module _ {P K R : Type 0} (libraries : Libraries P) (uri principal : String)
    (machine_id : Option String) where
  -- Active, linked with the URI or with none, and open to the client.
  abbrev pub serves : Subscription P K R → Bool
  serves s =
      is_active s.subscription_data
      && uri_matches s.subscription_data.uri uri
      && is_active_for libraries.glob libraries.to_lowercase s.subscription_data principal
          machine_id

  serves→is_active_for :
      (s : Subscription P K R)
      → serves s ≡ true
      → is_active_for libraries.glob libraries.to_lowercase s.subscription_data principal machine_id
        ≡ true
  serves→is_active_for s h = ground (arith, h)

module _ {P K R : Type 0} (libraries : Libraries P) (w : Surroundings K R) (table : Bookmarks)
    (drawn : SubscriptionUuid → String × String) (collector : Collector)
    (hostname uri principal : String) (machine_id : Option String)
    (auth_ctx : AuthenticationContext) where
  -- The entry of a subscription, with the client's stored bookmark, or else, when existing events
  -- are to be read, the bookmark of the earliest event.
  abbrev pub entry : Subscription P K R → SoapSubscription
  entry s =
      soap_subscription libraries (drawn s.subscription_data.uuid) s
        (or_earliest s.subscription_data.parameters.read_existing_events
          (get_bookmark principal (libraries.uuid_string s.subscription_data.uuid.uuid) table))
        collector hostname auth_ctx

  abbrev listing : List (Subscription P K R) → Result (List SoapSubscription)
  listing =
      enumerate_all libraries w table drawn collector hostname uri principal machine_id auth_ctx

  abbrev served : List (Subscription P K R) → List (Subscription P K R)
  served = keep (serves libraries uri principal machine_id)

  module _ (reads : (key : BookmarkKey) → w.read_bookmark key ≡ ok tt) where
    read_current :
        (s : Subscription P K R)
        → read_current_bookmark libraries w table principal s.subscription_data
          ≡ ok (
              or_earliest s.subscription_data.parameters.read_existing_events (
                get_bookmark principal (libraries.uuid_string s.subscription_data.uuid.uuid) table))
    unfolding read_current_bookmark
    read_current s = rw (reads _, read_current_bookmark) refl

    enumerate_all-reads : (ss : List (Subscription P K R)) → listing ss ≡ ok (map entry (served ss))
    unfolding enumerate_all read_current_bookmark
    enumerate_all-reads [] = refl
    enumerate_all-reads (s ∷ ss) =
        let rest = enumerate_all-reads ss in
        elim (Bool-cases (is_active s.subscription_data)) [
          | inr off ↦ rw (off, enumerate_all) rest
          | inl on ↦ elim (Bool-cases (uri_matches s.subscription_data.uri uri)) [
            | inr other ↦ rw (on, other, enumerate_all) rest
            | inl same ↦
                elim (Bool-cases (
                  is_active_for libraries.glob libraries.to_lowercase s.subscription_data principal
                    machine_id)) [
                      | inr closed ↦ rw (closed, on, same, enumerate_all) rest
                      | inl allowed ↦
                          rw (allowed, on, same, read_current s, rest, enumerate_all) refl
                    ]
          ]
        ]

module _ {P K R : Type 0} (libraries : Libraries P) (w : Surroundings K R) (table : Bookmarks)
    (drawn : SubscriptionUuid → String × String) (collector : Collector) (hostname uri : String)
    (mem : Subscriptions P K R) (request : RequestData) (auth_ctx : AuthenticationContext) where
  abbrev pub entry_for : Message → Subscription P K R → SoapSubscription
  entry_for message =
      entry libraries w table drawn collector hostname uri request.principal
        message.header.machine_id auth_ctx

  abbrev pub serves_for : Message → Subscription P K R → Bool
  serves_for message = serves libraries uri request.principal message.header.machine_id

  abbrev pub heartbeat_message : Subscription P K R → ℕ → WriteHeartbeatMessage
  heartbeat_message s now = record {
    machine = request.principal;
    ip = request.remote_addr.ip;
    subscription = libraries.uuid_string s.subscription_data.uuid.uuid;
    timestamp = now;
    is_event = false;
  }

  handle_enumerate-entries :
      (message : Message)
      → request.category ≡ enumerate uri
      → collector_hostname libraries collector message ≡ some hostname
      → ((key : BookmarkKey) → w.read_bookmark key ≡ ok tt)
      → handle_enumerate libraries w drawn collector table mem request auth_ctx message
        ≡ ok (
            reply action_enumerate_response (
              some (
                enumerate_response
                  (map (entry_for message) (keep (serves_for message) (values mem))))))
  unfolding handle_enumerate
  handle_enumerate-entries message category host reads =
      rw
        (
          category,
          host,
          enumerate_all-reads libraries w table drawn collector hostname uri request.principal
              message.header.machine_id auth_ctx reads (values mem),
          handle_enumerate,
        )
        refl

  -- Enabled with an enabled output, without a URI or with the one asked for, and with no filter or
  -- one that lets the client through.
  abbrev pub is_served : Message → Subscription P K R → Bool
  is_served message s =
      s.subscription_data.enabled
      && any (λ o. o.enabled) s.subscription_data.outputs
      && is_linked s.subscription_data.uri uri
      && is_open libraries.glob libraries.to_lowercase s.subscription_data.client_filter
          request.principal message.header.machine_id

  -- The entry that a client should get for a subscription: its versions, its parameters, the address
  -- for the client's messages, and the bookmark to start from.
  abbrev pub expected_entry : Subscription P K R → SoapSubscription
  expected_entry s =
      let identifier = libraries.uuid_string s.subscription_data.uuid.uuid in
      let p = s.subscription_data.parameters in
      let drawn_for = drawn s.subscription_data.uuid in
      record {
        version = libraries.uuid_string s.public_version.uuid;
        header =
            new_header drawn_for.0 drawn_for.1 anonymous resource_event_log action_subscribe
              p.max_envelope_size none none none (some 1) (options s.subscription_data);
        body = record {
          heartbeat_interval = p.heartbeat_interval;
          identifier = identifier;
          public_version = libraries.uuid_string s.public_version.uuid;
          revision = s.subscription_data.revision;
          bookmark =
              start_from p.read_existing_events (get_bookmark request.principal identifier table);
          query = p.query;
          address = joined (
              expected_scheme auth_ctx
              ∷ hostname
              ∷ ":"
              ∷ collector.advertized_port
              ∷ "/wsman/subscriptions/"
              ∷ identifier
              ∷ []);
          connection_retry_count = p.connection_retry_count;
          connection_retry_interval = p.connection_retry_interval;
          max_time = p.max_time;
          max_elements = p.max_elements;
          max_envelope_size = p.max_envelope_size;
          thumbprint = expected_thumbprint auth_ctx;
          locale = p.locale;
          data_locale = p.data_locale;
        };
      }

  entry-expected_entry :
      (message : Message) (s : Subscription P K R) → entry_for message s ≡ expected_entry s
  unfolding soap_subscription create_subscription_body
  entry-expected_entry message s =
      let p = s.subscription_data.parameters in
      let identifier = libraries.uuid_string s.subscription_data.uuid.uuid in
      ap
        (λ bookmark.
          soap_subscription libraries (drawn s.subscription_data.uuid) s bookmark collector hostname
            auth_ctx)
        (or_earliest-start_from p.read_existing_events
          (get_bookmark request.principal identifier table))

  serves-is_served :
      (message : Message) (s : Subscription P K R) → serves_for message s ≡ is_served message s
  unfolding is_active is_active_for
  serves-is_served message s = ground arith

  -- When the host name is known and the database's reads succeed, the response to an Enumerate
  -- request has one entry for each subscription in memory that is enabled with an enabled output,
  -- has no URI or the one asked for, and has no filter or one that lets the client through, and no
  -- other entry. The entry has the subscription's versions and parameters, the address for the
  -- client's messages, and the client's stored bookmark, or else the bookmark of the earliest event
  -- when existing events are to be read, or else none.
  pub handle_enumerate-lists :
      (message : Message)
      → request.category ≡ enumerate uri
      → collector_hostname libraries collector message ≡ some hostname
      → ((key : BookmarkKey) → w.read_bookmark key ≡ ok tt)
      → handle_enumerate libraries w drawn collector table mem request auth_ctx message
        ≡ ok (
            reply action_enumerate_response (
              some
                (enumerate_response (map expected_entry (keep (is_served message) (values mem))))))
  handle_enumerate-lists message category host reads =
      handle_enumerate-entries message category host reads
      ∙ ap (λ found. ok (reply action_enumerate_response (some (enumerate_response found))))
          (ap (map (entry_for message))
              (ap (λ choice. keep choice (values mem)) (fun_ext (serves-is_served message)))
            ∙ ap (λ make. map make (keep (is_served message) (values mem)))
                (fun_ext (entry-expected_entry message)))

  -- A subscription that is listed for a client accepts the client's next heartbeat: the heartbeat
  -- that names the entry's identifier is acknowledged and sent on, when `Uuid::parse_str` reads
  -- back what `Display` writes, the subscription stands under its identifier, and the clock and the
  -- channel work.
  pub listed-handle_heartbeat :
      (asked told : Message) (s : Subscription P K R) (c : Collected K R) (now : ℕ)
      → ((uuid : Uuid) → libraries.parse_uuid (libraries.uuid_string uuid) ≡ ok uuid)
      → lookup s.subscription_data.uuid mem ≡ some s
      → serves_for asked s ≡ true
      → told.header.identifier ≡ some (entry_for asked s).body.identifier
      → told.header.machine_id ≡ asked.header.machine_id
      → w.now ≡ ok now
      → w.send_heartbeat ≡ ok tt
      → handle_heartbeat libraries w mem request told c ≡ (
        record c { heartbeats = c.heartbeats ++ heartbeat_message s now ∷ [] },
        ok (reply action_ack none),
      )
  unfolding handle_heartbeat soap_subscription create_subscription_body
  listed-handle_heartbeat asked told s c now reads_back found served names same time sent =
      let open_to_client =
        serves→is_active_for libraries uri request.principal asked.header.machine_id s served in
      rw
        (
          names,
          reads_back s.subscription_data.uuid.uuid,
          found,
          same,
          open_to_client,
          time,
          sent,
          time,
          sent,
          handle_heartbeat,
          store_heartbeat,
        )
        refl
