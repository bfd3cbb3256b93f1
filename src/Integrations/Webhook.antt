-- ===== src/Integrations/Webhook.antt =====
-- src/integrations/webhook/src/adapter.py: the delivery to one endpoint, after the check of its
-- destination.
use relationship_os.Base.{
  ℕ, String, ◌<>◌, Bool, true, false, ◌||◌, not, ◌≡◌, ◌⊎◌, inl, inr, refl, sym, Option, none, some,
  List, [], ◌∷◌, eqb, leb, Bool-cases, if◌then◌else◌,
}
use mathlib.Core.Path.{subst}
use relationship_os.Base.Int.{ℤ, pos}
use relationship_os.Shared.Event.{CanonicalMessageEvent}
use relationship_os.Shared.Config.{Settings}
use relationship_os.Outbox.Router.{Outcome, event_type_value}
use relationship_os.Auth.Account.{is_empty, take_text}
use relationship_os.Signature.{compute_webhook_signature}
use relationship_os.Ssrf.{Net, Url, Verdict, is_accepted, validate_destination_url}
use relationship_os.Ssrf.Safe.{Resolution, validate_destination_url-resolves}
use relationship_os.Integrations.{
  event_json, Post, Reply, response, timed_out, request_error, other_error, delivered, undelivered,
}

-- `resp.status_code in (200, 201, 202, 204)`
abbrev is_success : ℕ → Bool
is_success status = eqb status 200 || eqb status 201 || eqb status 202 || eqb status 204

module _ (str : ℕ → String) (str_int : ℤ → String) (utf8 : String → List ℕ)
    (hmac : List ℕ → List ℕ → String) (net : Net) (reason : Verdict → String)
    (dump : CanonicalMessageEvent → String) (http : Post → Reply) (cfg : Settings) where
  -- The reason if the configuration is not valid.
  abbrev webhook_config : Option String
  webhook_config =
      if not cfg.webhook_enabled
      then some "Webhook integration is disabled in configuration"
      else if is_empty cfg.webhook_signing_secret
      then some "WEBHOOK_SIGNING_SECRET is missing"
      else none

  -- What the answer comes to.
  abbrev webhook_result : Reply → Outcome
  webhook_result (response status id text) =
      if is_success status
      then delivered ("webhook_ack_" <> str status)
      else if eqb status 429
      then undelivered ("Webhook endpoint rate limited (HTTP 429): " <> take_text 1000 text)
      else if leb 500 status
      then undelivered
          ("Webhook remote server error (HTTP " <> str status <> "): " <> take_text 1000 text)
      else undelivered
          ("Webhook rejected payload (HTTP " <> str status <> "): " <> take_text 1000 text)
  webhook_result timed_out = undelivered "Webhook delivery timed out (transient)"
  webhook_result (request_error e) = undelivered ("Webhook network error: " <> e)
  webhook_result (other_error e) = undelivered ("Unexpected webhook error: " <> e)

  -- `timestamp` is the clock's reading in seconds.
  unfoldable pub endpoint_post : ℕ → String → String → CanonicalMessageEvent → Post
  unfolding compute_webhook_signature
  endpoint_post timestamp url secret event = record {
    url = url;
    headers =
        ("Content-Type", "application/json")
        ∷ ("User-Agent", cfg.app_name <> "-Webhook/" <> cfg.app_version)
        ∷ (
          "X-Relationship-Signature",
          compute_webhook_signature utf8 str_int hmac (utf8 (dump event)) secret (pos timestamp),
        )
        ∷ ("X-Relationship-Timestamp", str timestamp)
        ∷ ("X-Relationship-Event", event_type_value event.event_type)
        ∷ ("X-Relationship-Event-ID", event.event_id)
        ∷ [];
    content = event_json (dump event);
  }

  abbrev by_verdict : Verdict → Post → Option (List Post × Outcome)
  by_verdict Verdict.value_error post = none
  by_verdict v post = some (
      if is_accepted v
      then (post ∷ [], webhook_result (http post))
      else ([], undelivered ("SSRF Blocked: " <> reason v)))

  -- `none` is the exception that the check raises on a port that is no number.
  unfoldable pub send_to_endpoint :
      ℕ → String → String → CanonicalMessageEvent → Bool → Option (List Post × Outcome)
  unfolding validate_destination_url endpoint_post
  send_to_endpoint timestamp url secret event allow_localhost =
      let verdict =
        validate_destination_url net (allow_localhost || cfg.webhook_allow_localhost) url in
      let post = endpoint_post timestamp url secret event in by_verdict verdict post

  -- `send` only says that the router delivers to the endpoints.
  abbrev pub send_webhook : CanonicalMessageEvent → Outcome
  send_webhook event = elim webhook_config [
    | some why ↦ delivered "skipped_disabled"
    | none ↦ delivered "webhook_router_managed"
  ]

  by_verdict_refused :
      (v : Verdict) (post : Post)
      → is_accepted v ≡ false
      → (by_verdict v post ≡ none)
        ⊎ ((outcome : Outcome) × (by_verdict v post ≡ some ([], outcome))
            × (outcome.success ≡ false))
  by_verdict_refused Verdict.value_error post h = inl refl
  by_verdict_refused Verdict.safe post h = absurd cc
  by_verdict_refused Verdict.local_setting post h = absurd cc
  by_verdict_refused Verdict.malformed post h = inr (_, refl, refl)
  by_verdict_refused Verdict.unsupported_scheme post h = inr (_, refl, refl)
  by_verdict_refused Verdict.no_hostname post h = inr (_, refl, refl)
  by_verdict_refused Verdict.loopback_name post h = inr (_, refl, refl)
  by_verdict_refused Verdict.unresolved post h = inr (_, refl, refl)
  by_verdict_refused Verdict.invalid_ip post h = inr (_, refl, refl)
  by_verdict_refused Verdict.loopback post h = inr (_, refl, refl)
  by_verdict_refused Verdict.private_ip post h = inr (_, refl, refl)
  by_verdict_refused Verdict.link_local post h = inr (_, refl, refl)
  by_verdict_refused Verdict.reserved post h = inr (_, refl, refl)
  by_verdict_refused Verdict.blocked_subnet post h = inr (_, refl, refl)

  by_verdict_accepted :
      (v : Verdict) (post : Post)
      → is_accepted v ≡ true
      → by_verdict v post ≡ some (post ∷ [], webhook_result (http post))
  by_verdict_accepted Verdict.safe post h = refl
  by_verdict_accepted Verdict.local_setting post h = refl
  by_verdict_accepted Verdict.value_error post h = absurd cc
  by_verdict_accepted Verdict.malformed post h = absurd cc
  by_verdict_accepted Verdict.unsupported_scheme post h = absurd cc
  by_verdict_accepted Verdict.no_hostname post h = absurd cc
  by_verdict_accepted Verdict.loopback_name post h = absurd cc
  by_verdict_accepted Verdict.unresolved post h = absurd cc
  by_verdict_accepted Verdict.invalid_ip post h = absurd cc
  by_verdict_accepted Verdict.loopback post h = absurd cc
  by_verdict_accepted Verdict.private_ip post h = absurd cc
  by_verdict_accepted Verdict.link_local post h = absurd cc
  by_verdict_accepted Verdict.reserved post h = absurd cc
  by_verdict_accepted Verdict.blocked_subnet post h = absurd cc

  -- Where localhost is allowed neither by the caller nor by the settings, an endpoint is sent
  -- something only if its host resolves, to public addresses only; otherwise the delivery fails
  -- or raises without a request.
  pub send_to_endpoint-resolves :
      (timestamp : ℕ) (url secret : String) (event : CanonicalMessageEvent)
      → cfg.webhook_allow_localhost ≡ false
      → let answer = send_to_endpoint timestamp url secret event false in
        ((parsed : Url) × (net.urlparse url ≡ some parsed)
          × Resolution net parsed
          × ((outcome : Outcome) × (answer
                ≡ some (endpoint_post timestamp url secret event ∷ [], outcome))))
        ⊎ ((answer ≡ none)
            ⊎ ((outcome : Outcome) × (answer ≡ some ([], outcome)) × (outcome.success ≡ false)))
  unfolding send_to_endpoint
  send_to_endpoint-resolves timestamp url secret event no_local =
      elim (Bool-cases (is_accepted (validate_destination_url net false url))) [
        | inl passed ↦
            let (parsed, e, r) = validate_destination_url-resolves net url passed in
            let post = endpoint_post timestamp url secret event in
            inl (
              parsed,
              e,
              r,
              (
                webhook_result (http post),
                rw no_local
                    (by_verdict_accepted (validate_destination_url net false url) post passed),
              ),
            )
        | inr failed ↦ inr (
            subst
              (λ b.
                (by_verdict (validate_destination_url net b url)
                    (endpoint_post timestamp url secret event)
                  ≡ none)
                ⊎ ((outcome : Outcome) × (by_verdict (validate_destination_url net b url)
                        (endpoint_post timestamp url secret event)
                      ≡ some ([], outcome))
                    × (outcome.success ≡ false)))
              (sym no_local)
              (by_verdict_refused (validate_destination_url net false url)
                (endpoint_post timestamp url secret event) failed))
      ]
