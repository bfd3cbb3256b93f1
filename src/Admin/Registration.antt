-- ===== src/Admin/Registration.antt =====
-- The registration of a webhook and its removal.
use relationship_os.Base.{
  ℕ, String, ◌<>◌, true, false, ◌≡◌, refl, sym, ap, ◌∙◌, some, List, [], ◌∷◌, ◌++◌, arith, eq_refl,
  select, select-append, append_nil, exists_row, inl, inr,
}
use relationship_os.Shared.Config.{Settings}
use relationship_os.Db.Rows.{WebhookEndpoint}
use relationship_os.Db.Session.{Session, ok}
use relationship_os.Ssrf.{Net, Url, is_accepted, validate_destination_url}
use relationship_os.Ssrf.Safe.{Resolution, validate_destination_url-resolves}
use relationship_os.Auth.Account.{Crypto, Origin}
use relationship_os.Auth.Token.{
  Jwt, Auth, Payload, Credentials, token_of, find_auth, get_current_user_and_session, require_roles,
}
use relationship_os.Conversations.Guard.{Decoded-cases}
use relationship_os.Admin.{authorize}
use relationship_os.Admin.Webhooks.{
  WebhookCreateRequest, CreatedWebhook, has_webhook_id, has_other_id, new_webhook, create_webhook,
  delete_webhook,
}

find_auth_webhooks :
    (now : ℕ) (p : Payload) (s : Session) → (find_auth now p s).1.work.webhooks ≡ s.work.webhooks
unfolding find_auth
find_auth_webhooks now p s = ground arith

module _ (jwt : Jwt) (o : Origin) (credentials : Credentials) where
  authorize_webhooks :
      (s : Session) → (authorize jwt o credentials s).1.work.webhooks ≡ s.work.webhooks
  unfolding authorize require_roles get_current_user_and_session
  authorize_webhooks s = elim (Decoded-cases (jwt.decode o.now (token_of credentials))) [
    | inl (p, e) ↦ ground (arith, e, find_auth_webhooks o.now p s)
    | inr (inl e) ↦ ground (arith, e)
    | inr (inr e) ↦ ground (arith, e)
  ]

  module _ (crypto : Crypto) (net : Net) (cfg : Settings) (id raw_token : String)
      (body : WebhookCreateRequest) (s : Session) where
    create_webhook_ok :
        {created : CreatedWebhook}
        → (create_webhook jwt o credentials crypto net cfg id raw_token body s).0 ≡ ok created
        → (is_accepted (validate_destination_url net cfg.webhook_allow_localhost body.url) ≡ true)
          × (exists_row (has_webhook_id id) s.work.webhooks ≡ false)
          × ((create_webhook jwt o credentials crypto net cfg id raw_token body s).1.work.webhooks
              ≡ s.work.webhooks
                ++ (new_webhook jwt o credentials crypto net cfg id raw_token body
                      ("whsec_" <> raw_token)
                    ∷ []))
    unfolding create_webhook
    create_webhook_ok h = ground (arith, h, authorize_webhooks s)

  -- A registration that is answered while localhost is not allowed has a destination whose host
  -- resolves, to public addresses only, and adds one enabled webhook with a fresh key.
  pub create_webhook-resolves :
      (crypto : Crypto) (net : Net) (cfg : Settings) (id raw_token : String)
      (body : WebhookCreateRequest) (s : Session) {created : CreatedWebhook}
      → cfg.webhook_allow_localhost ≡ false
      → (create_webhook jwt o credentials crypto net cfg id raw_token body s).0 ≡ ok created
      → let ep =
          new_webhook jwt o credentials crypto net cfg id raw_token body ("whsec_" <> raw_token) in
        ((parsed : Url) × (net.urlparse body.url ≡ some parsed) × Resolution net parsed)
        × (exists_row (has_webhook_id id) s.work.webhooks ≡ false)
        × ((create_webhook jwt o credentials crypto net cfg id raw_token body s).1.work.webhooks
            ≡ s.work.webhooks ++ (ep ∷ []))
  create_webhook-resolves crypto net cfg id raw_token body s no_local h =
      let (accepted, fresh, rows) = create_webhook_ok crypto net cfg id raw_token body s h in
      (
        validate_destination_url-resolves net body.url (
            ap (λ b. is_accepted (validate_destination_url net b body.url)) (sym no_local)
            ∙ accepted),
        fresh,
        rows,
      )

select-other_fresh :
    (id : String) (eps : List WebhookEndpoint)
    → exists_row (has_webhook_id id) eps ≡ false
    → (select (has_other_id id) eps ≡ eps) × (select (has_webhook_id id) eps ≡ [])
select-other_fresh id [] h = (refl, refl)
select-other_fresh id (ep ∷ eps) h = ground (arith, select-other_fresh id eps)

removed :
    (id : String) (ep : WebhookEndpoint) (eps : List WebhookEndpoint)
    → ep.id ≡ id
    → exists_row (has_webhook_id id) eps ≡ false
    → (select (has_other_id id) (eps ++ (ep ∷ [])) ≡ eps)
      × (select (has_webhook_id id) (eps ++ (ep ∷ [])) ≡ ep ∷ [])
removed id ep eps e h = ground (
  arith,
  select-append (has_other_id id) eps (ep ∷ []),
  select-append (has_webhook_id id) eps (ep ∷ []),
  select-other_fresh id eps h,
  append_nil eps,
  eq_refl id,
)

module _ (jwt : Jwt) (o : Origin) (credentials : Credentials) where
  -- A webhook that was registered can be removed by its key, by whoever is let in, and then the
  -- webhooks are as they were before.
  pub delete_webhook-create :
      (o' : Origin) (credentials' : Credentials) (crypto : Crypto) (net : Net) (cfg : Settings)
      (id raw_token : String) (body : WebhookCreateRequest) (s : Session) {created : CreatedWebhook}
      {a : Auth}
      → (create_webhook jwt o credentials crypto net cfg id raw_token body s).0 ≡ ok created
      → (authorize jwt o' credentials'
          (create_webhook jwt o credentials crypto net cfg id raw_token body s).1).0
        ≡ ok a
      → let s' = (create_webhook jwt o credentials crypto net cfg id raw_token body s).1 in
        ((delete_webhook jwt o' credentials' id s').0 ≡ ok tt)
        × ((delete_webhook jwt o' credentials' id s').1.work.webhooks ≡ s.work.webhooks)
  unfolding delete_webhook
  delete_webhook-create o' credentials' crypto net cfg id raw_token body s h let_in =
      let (accepted, fresh, rows) =
        create_webhook_ok jwt o credentials crypto net cfg id raw_token body s h in
      let ep =
        new_webhook jwt o credentials crypto net cfg id raw_token body ("whsec_" <> raw_token) in
      let s' = (create_webhook jwt o credentials crypto net cfg id raw_token body s).1 in
      ground (
        arith,
        let_in,
        rows,
        authorize_webhooks jwt o' credentials' s',
        removed id ep s.work.webhooks refl fresh,
      )
