-- ===== src/Outbox/Router/Rows.antt =====
-- The delivery rows after an attempt, and the results of an attempt.
use relationship_os.Base.{String, ◌<>◌, ◌&&◌, not, List, [], ◌∷◌, ◌++◌, ◌==◌, select, if◌then◌else◌}
use relationship_os.Shared.Event.{CanonicalMessageEvent}
use relationship_os.Shared.Config.{Settings}
use relationship_os.Db.Rows.{WebhookEndpoint}
use relationship_os.Db.Session.{Session, Result, ok, err}
use relationship_os.Outbox.Router.{
  Adapters, Outcome, DeliveryResult, is_subscribed, endpoint_outcome,
}

abbrev result_of : String → Result Outcome → List DeliveryResult
result_of integration (ok o) = record { integration = integration; outcome = o } ∷ []
result_of integration (err e) = []

module _ (cfg : Settings) (adapters : Adapters) where
  -- What the results of an attempt are to be: Discord's unless it is off or the event came from
  -- there, one for each endpoint that subscribes to the event, and Signal's if it is on.
  abbrev endpoint_results : CanonicalMessageEvent → List WebhookEndpoint → List DeliveryResult
  endpoint_results e [] = []
  endpoint_results e (ep ∷ eps) =
      if is_subscribed e ep
      then result_of ("webhook:" <> ep.name) (endpoint_outcome cfg adapters e ep)
        ++ endpoint_results e eps
      else endpoint_results e eps

  abbrev discord_results : CanonicalMessageEvent → List DeliveryResult
  discord_results e =
      if cfg.discord_enabled && not (e.origin == "discord")
      then result_of "discord" (adapters.discord e)
      else []

  abbrev signal_results : CanonicalMessageEvent → List DeliveryResult
  signal_results e = if cfg.signal_enabled then result_of "signal" (adapters.signal e) else []

  abbrev pub expected_results : CanonicalMessageEvent → List WebhookEndpoint → List DeliveryResult
  expected_results e webhooks =
      discord_results e
      ++ (endpoint_results e (select (λ ep. ep.enabled) webhooks) ++ signal_results e)
