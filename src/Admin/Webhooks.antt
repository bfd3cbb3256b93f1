-- ===== src/Admin/Webhooks.antt =====
-- The webhooks of routers/admin.py: list, register, remove.
use Prim.Native.String.{count}
use relationship_os.Base.{
  ℕ, zero, suc, ◌-◌, String, ◌<>◌, Bool, true, not, Option, none, some, List, [], ◌∷◌, ◌++◌, ◌==◌,
  leb, select, exists_row, if◌then◌else◌,
}
use relationship_os.Base.Int.{ℤ}
use relationship_os.Base.Sorting.{sort_by}
use relationship_os.Shared.Constants.{ErrorCode}
use relationship_os.Shared.Errors.{bad_request, not_found, malformed, integrity_error}
use relationship_os.Shared.Config.{Settings}
use relationship_os.Db.Rows.{WebhookEndpoint, text}
use relationship_os.Db.Session.{
  Action, ◌>>=◌, ◌>>◌, pure, raise, query, raise_if, or_raise, modify, scalar_one_or_none,
}
use relationship_os.Ssrf.{Net, Verdict, is_accepted, validate_destination_url}
use relationship_os.Auth.Account.{Crypto, Origin, record_audit, take_text}
use relationship_os.Auth.Token.{Jwt, Credentials}
use relationship_os.Admin.{authorize, unaddressed}

pub record WebhookCreateRequest : Type 0 where
  pub name : String
  pub url : String
  pub event_filters : List String
  pub max_retries : ℤ

pub record WebhookResponse : Type 0 where
  pub id : String
  pub name : String
  pub url : String
  pub secret_preview : String
  pub enabled : Bool
  pub event_filters : List String
  pub created_at : ℕ
  pub last_success_at : Option ℕ
  pub last_failure_at : Option ℕ
  pub last_failure_reason : Option String

-- The answer to a registration; the secret is shown here only.
pub record CreatedWebhook : Type 0 where
  pub id : String
  pub name : String
  pub url : String
  pub signing_secret : String
  pub secret_preview : String

-- The text without its first n characters.
unfoldable pub drop_text : ℕ → String → String
drop_text zero s = s
drop_text (suc n) String.[] = ""
drop_text (suc n) (String.◌∷◌ c s) = drop_text n s

-- `f"{raw_secret[:8]}...{raw_secret[-4:]}"`
abbrev pub preview : String → String
preview raw_secret = take_text 8 raw_secret <> "..." <> drop_text (count raw_secret - 4) raw_secret

abbrev webhook_later : WebhookEndpoint → WebhookEndpoint → Bool
webhook_later a b = leb b.created_at a.created_at

abbrev webhook_response : WebhookEndpoint → List String → WebhookResponse
webhook_response ep filters = record {
  id = ep.id;
  name = ep.name;
  url = ep.url;
  secret_preview = ep.secret_preview;
  enabled = ep.enabled;
  event_filters = filters;
  created_at = ep.created_at;
  last_success_at = ep.last_success_at;
  last_failure_at = ep.last_failure_at;
  last_failure_reason = ep.last_failure_reason;
}

-- `none` where `json.loads` of the filters raises.
abbrev webhook_responses : List WebhookEndpoint → Option (List WebhookResponse)
webhook_responses [] = some []
webhook_responses (ep ∷ eps) = elim ep.event_filters [
  | none ↦ none
  | some filters ↦ elim (webhook_responses eps) [
    | none ↦ none
    | some rest ↦ some (webhook_response ep filters ∷ rest)
  ]
]

abbrev pub has_webhook_id : String → WebhookEndpoint → Bool
has_webhook_id webhook_id ep = ep.id == webhook_id

abbrev pub has_other_id : String → WebhookEndpoint → Bool
has_other_id webhook_id ep = not (has_webhook_id webhook_id ep)

-- The check of the destination; a port that is no number raises in it.
abbrev check_destination : Verdict → Action (Unit {0})
check_destination Verdict.value_error = raise malformed
check_destination v = if is_accepted v then pure tt else raise (bad_request ErrorCode.ssrf_blocked)

module _ (jwt : Jwt) (o : Origin) (credentials : Credentials) where
  unfoldable pub list_webhooks : Action (List WebhookResponse)
  unfolding authorize sort_by
  list_webhooks = do
    authorize jwt o credentials
    endpoints ← query (λ d. sort_by webhook_later d.webhooks)
    or_raise (webhook_responses endpoints) malformed

  -- `id` and `raw_token` are drawn.
  module _ (crypto : Crypto) (net : Net) (cfg : Settings) (id raw_token : String) where
    abbrev pub new_webhook : WebhookCreateRequest → String → WebhookEndpoint
    new_webhook body raw_secret = record {
      id = id;
      name = body.name;
      url = body.url;
      secret_hash = crypto.hash_token raw_secret;
      secret_preview = preview raw_secret;
      enabled = true;
      event_filters = some body.event_filters;
      max_retries = body.max_retries;
      created_at = o.now;
      last_success_at = none;
      last_failure_at = none;
      last_failure_reason = none;
    }

    unfoldable pub create_webhook : WebhookCreateRequest → Action CreatedWebhook
    unfolding authorize validate_destination_url drop_text
    create_webhook body = do
      auth ← authorize jwt o credentials
      check_destination (validate_destination_url net cfg.webhook_allow_localhost body.url)
      let raw_secret = "whsec_" <> raw_token
      let ep = new_webhook body raw_secret
      taken ← query (λ d. exists_row (has_webhook_id id) d.webhooks)
      raise_if taken integrity_error
      modify (λ d. record d { webhooks = d.webhooks ++ (ep ∷ []) })
      record_audit (unaddressed o) auth.user.id "webhook.created" ("webhook:" <> id)
          (("name", text body.name) ∷ ("url", text body.url) ∷ [])
      pure (record {
        id = id;
        name = body.name;
        url = body.url;
        signing_secret = raw_secret;
        secret_preview = preview raw_secret;
      })

  unfoldable pub delete_webhook : String → Action (Unit {0})
  unfolding authorize
  delete_webhook webhook_id = do
    auth ← authorize jwt o credentials
    rows ← query (λ d. select (has_webhook_id webhook_id) d.webhooks)
    found ← scalar_one_or_none rows
    ep ← or_raise found not_found
    modify (λ d. record d { webhooks = select (has_other_id webhook_id) d.webhooks })
    record_audit (unaddressed o) auth.user.id "webhook.deleted" ("webhook:" <> webhook_id) []
