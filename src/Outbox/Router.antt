-- ===== src/Outbox/Router.antt =====
-- `IntegrationRouter`: one attempt to deliver an event to every integration, and its record in the
-- delivery rows. The adapters are an interface: each answers success or failure, or raises.
pub mod Frame
pub mod Rows
use relationship_os.Base.{
  ℕ, ◌+◌, String, ◌<>◌, Bool, true, false, ◌&&◌, ◌||◌, not, Option, none, some, List, [], ◌∷◌, ◌++◌,
  ◌==◌, contains, select, update_where, exists_row, if◌then◌else◌,
}
use relationship_os.Shared.Constants.{DeliveryState, EventType}
use relationship_os.Shared.Event.{CanonicalMessageEvent}
use relationship_os.Shared.Config.{Settings}
use relationship_os.Db.Rows.{Db, MessageDelivery, WebhookEndpoint}
use relationship_os.Db.Session.{
  Action, ◌>>=◌, ◌>>◌, pure, query, modify, scalar_one_or_none, Result, lift, raise_if,
}
use relationship_os.Shared.Errors.{integrity_error}

-- (success, external_message_id, failure_reason)
pub record Outcome : Type 0 where
  pub success : Bool
  pub external_id : Option String
  pub error : Option String

-- What the adapters answer during one attempt. `webhook` is `send_to_endpoint`, with the address,
-- the secret and `allow_localhost`.
pub record Adapters : Type 0 where
  pub discord : CanonicalMessageEvent → Result Outcome
  pub webhook : String → String → CanonicalMessageEvent → Bool → Result Outcome
  pub signal : CanonicalMessageEvent → Result Outcome

pub record DeliveryResult : Type 0 where
  pub integration : String
  pub outcome : Outcome

-- `EventType.value`
abbrev pub event_type_value : EventType → String
event_type_value EventType.message_created = "message.created"
event_type_value EventType.message_delivered = "message.delivered"
event_type_value EventType.message_read = "message.read"
event_type_value EventType.presence_updated = "presence.updated"
event_type_value EventType.typing_started = "typing.started"
event_type_value EventType.typing_stopped = "typing.stopped"
event_type_value EventType.session_revoked = "session.revoked"

abbrev pub is_delivery : String → String → MessageDelivery → Bool
is_delivery message_id integration d =
    d.message_id == message_id && d.integration_type == integration

abbrev first_time : ℕ → Option ℕ → Option ℕ
first_time now none = some now
first_time now (some t) = some t

-- The writes to the row once it is there.
abbrev pub settle_delivery : ℕ → Outcome → MessageDelivery → MessageDelivery
settle_delivery now o d =
    if o.success
    then record d {
      attempt_count = d.attempt_count + 1;
      last_attempted_at = some now;
      first_attempted_at = first_time now d.first_attempted_at;
      status = DeliveryState.delivered;
      completed_at = some now;
      external_message_id = o.external_id;
      failure_reason = none;
    }
    else record d {
      attempt_count = d.attempt_count + 1;
      last_attempted_at = some now;
      first_attempted_at = first_time now d.first_attempted_at;
      status = DeliveryState.failed;
      failure_reason = o.error;
    }

abbrev pub new_delivery : ℕ → String → String → String → MessageDelivery
new_delivery now id message_id integration = record {
  id = id;
  message_id = message_id;
  integration_type = integration;
  status = DeliveryState.queued;
  attempt_count = 0;
  first_attempted_at = some now;
  last_attempted_at = none;
  completed_at = none;
  failure_reason = none;
  external_message_id = none;
}

abbrev pub with_deliveries : (List MessageDelivery → List MessageDelivery) → Db → Db
with_deliveries f d = record d { deliveries = f d.deliveries }

-- Filters that are no JSON count as the default.
abbrev pub filters : WebhookEndpoint → List String
filters ep = elim ep.event_filters [ none ↦ "message.created" ∷ [] | some names ↦ names ]

abbrev pub is_subscribed : CanonicalMessageEvent → WebhookEndpoint → Bool
is_subscribed event ep =
    contains (filters ep) (event_type_value event.event_type) || contains (filters ep) "*"

abbrev track : ℕ → Outcome → WebhookEndpoint → WebhookEndpoint
track now o ep =
    if o.success
    then record ep { last_success_at = some now }
    else record ep { last_failure_at = some now; last_failure_reason = o.error }

abbrev pub endpoint_outcome :
    Settings → Adapters → CanonicalMessageEvent → WebhookEndpoint → Result Outcome
endpoint_outcome cfg adapters event ep =
    adapters.webhook ep.url cfg.webhook_signing_secret event cfg.webhook_allow_localhost

-- The flush of a new row runs into its key or its message.
abbrev insert_delivery : MessageDelivery → Action (Unit {0})
insert_delivery row = do
  taken ← query (λ d. exists_row (λ r. r.id == row.id) d.deliveries)
  known ← query (λ d. exists_row (λ m. m.id == row.message_id) d.messages)
  raise_if (taken || not known) integrity_error
  modify (with_deliveries (λ ds. ds ++ (row ∷ [])))

-- `draw` is the identifier that is drawn for a new row of an integration.
module _ (cfg : Settings) (adapters : Adapters) (draw : String → String) (now : ℕ) where
  unfoldable pub update_delivery : String → String → Outcome → Action (Unit {0})
  update_delivery message_id integration o = do
    rows ← query (λ d. select (is_delivery message_id integration) d.deliveries)
    found ← scalar_one_or_none rows
    elim found [
      | none ↦
          insert_delivery
            (settle_delivery now o (new_delivery now (draw integration) message_id integration))
      | some _ ↦ modify (
          with_deliveries
            (update_where (is_delivery message_id integration) (settle_delivery now o)))
    ]

  -- One integration: its answer, and the record of it.
  unfoldable pub deliver_event :
      CanonicalMessageEvent → String → Outcome → Action (List DeliveryResult)
  unfolding update_delivery
  deliver_event event integration o = do
    update_delivery event.message_id integration o
    pure (record { integration = integration; outcome = o } ∷ [])

  unfoldable pub route_discord : CanonicalMessageEvent → Action (List DeliveryResult)
  route_discord event =
      if cfg.discord_enabled && not (event.origin == "discord")
      then (lift (adapters.discord event) >>= deliver_event event "discord")
      else pure []

  -- What follows the answer of an endpoint.
  unfoldable pub track_delivery :
      CanonicalMessageEvent → WebhookEndpoint → Outcome → Action (List DeliveryResult)
  track_delivery event ep o =
      modify
        (λ d. record d { webhooks = update_where (λ w. w.id == ep.id) (track now o) d.webhooks })
      >> deliver_event event ("webhook:" <> ep.name) o

  unfoldable pub route_endpoint :
      CanonicalMessageEvent → WebhookEndpoint → Action (List DeliveryResult)
  route_endpoint event ep =
      if is_subscribed event ep
      then (lift (endpoint_outcome cfg adapters event ep) >>= track_delivery event ep)
      else pure []

  unfoldable pub route_endpoints :
      CanonicalMessageEvent → List WebhookEndpoint → Action (List DeliveryResult)
  route_endpoints event [] = pure []
  route_endpoints event (ep ∷ eps) = do
    results ← route_endpoint event ep
    others ← route_endpoints event eps
    pure (results ++ others)

  unfoldable pub route_signal : CanonicalMessageEvent → Action (List DeliveryResult)
  route_signal event =
      if cfg.signal_enabled
      then (lift (adapters.signal event) >>= deliver_event event "signal")
      else pure []

  unfoldable pub route_event : CanonicalMessageEvent → Action (List DeliveryResult)
  route_event event = do
    discord ← route_discord event
    endpoints ← query (λ d. select (λ ep. ep.enabled) d.webhooks)
    webhooks ← route_endpoints event endpoints
    signal ← route_signal event
    pure (discord ++ (webhooks ++ signal))
