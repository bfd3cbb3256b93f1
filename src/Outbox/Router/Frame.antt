-- ===== src/Outbox/Router/Frame.antt =====
-- What an attempt leaves alone: everything but the delivery rows and the endpoints' tracking.
use relationship_os.Base.{ℕ, String, ◌≡◌, List, [], ◌∷◌, arith, select}
use relationship_os.Shared.Event.{CanonicalMessageEvent}
use relationship_os.Shared.Config.{Settings}
use relationship_os.Db.Rows.{WebhookEndpoint}
use relationship_os.Db.Session.{Session}
use relationship_os.Outbox.Router.{
  Outcome, Adapters, update_delivery, deliver_event, track_delivery, route_discord, route_endpoint,
  route_endpoints, route_signal, route_event,
}

-- The parts of a session that an attempt does not write.
pub record IsSame (s t : Session) : Type 0 where
  pub stored : t.stored ≡ s.stored
  pub outbox : t.work.outbox ≡ s.work.outbox
  pub messages : t.work.messages ≡ s.work.messages

module _ (cfg : Settings) (adapters : Adapters) (draw : String → String) (now : ℕ) where
  update_delivery-IsSame :
      (m i : String) (o : Outcome) (s : Session)
      → IsSame s (update_delivery cfg adapters draw now m i o s).1
  unfolding update_delivery
  update_delivery-IsSame m i o s = ground arith

  route_endpoint-IsSame :
      (e : CanonicalMessageEvent) (ep : WebhookEndpoint) (s : Session)
      → IsSame s (route_endpoint cfg adapters draw now e ep s).1
  unfolding route_endpoint track_delivery deliver_event
  route_endpoint-IsSame e ep s = ground arith

  route_endpoints-IsSame :
      (e : CanonicalMessageEvent) (eps : List WebhookEndpoint) (s : Session)
      → IsSame s (route_endpoints cfg adapters draw now e eps s).1
  unfolding route_endpoints
  route_endpoints-IsSame e [] s = ground arith
  route_endpoints-IsSame e (ep ∷ eps) s = ground (
    arith,
    route_endpoint-IsSame e ep s,
    route_endpoints-IsSame e eps (route_endpoint cfg adapters draw now e ep s).1,
  )

  route_discord-IsSame :
      (e : CanonicalMessageEvent) (s : Session)
      → IsSame s (route_discord cfg adapters draw now e s).1
  unfolding route_discord deliver_event
  route_discord-IsSame e s = ground arith

  route_signal-IsSame :
      (e : CanonicalMessageEvent) (s : Session)
      → IsSame s (route_signal cfg adapters draw now e s).1
  unfolding route_signal deliver_event
  route_signal-IsSame e s = ground arith

  -- However an attempt ends, it writes neither the outbox nor the messages, and commits nothing.
  pub route_event-IsSame :
      (e : CanonicalMessageEvent) (s : Session) → IsSame s (route_event cfg adapters draw now e s).1
  unfolding route_event
  route_event-IsSame e s =
      let s1 = (route_discord cfg adapters draw now e s).1 in
      let eps = select (λ ep. ep.enabled) s1.work.webhooks in
      let s2 = (route_endpoints cfg adapters draw now e eps s1).1 in
      ground
        (arith, route_discord-IsSame e s, route_endpoints-IsSame e eps s1, route_signal-IsSame e s2)
