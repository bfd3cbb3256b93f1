-- ===== src/Admin/Guard.antt =====
-- Who may use the administrator's routes.
use relationship_os.Base.{ℕ, String, Bool, false, ◌||◌, ◌≡◌, Option, arith, inl, inr}
use relationship_os.Shared.Constants.{is_admin, is_owner}
use relationship_os.Shared.Errors.{forbidden}
use relationship_os.Shared.Config.{Settings}
use relationship_os.Db.Rows.{Db}
use relationship_os.Db.Session.{Session, ok, err, open_session, get_db}
use relationship_os.Ssrf.{Net}
use relationship_os.Auth.Account.{Crypto, Origin}
use relationship_os.Auth.Token.{
  Jwt, Auth, Payload, Credentials, token_of, find_auth, get_current_user_and_session, require_roles,
}
use relationship_os.Conversations.Guard.{Decoded-cases}
use relationship_os.Admin.{
  authorize, get_system_health, list_all_sessions, revoke_session_admin, revoke_device_admin,
  list_failed_deliveries, retry_delivery, get_audit_logs,
}
use relationship_os.Admin.Webhooks.{
  WebhookCreateRequest, list_webhooks, create_webhook, delete_webhook,
}
use relationship_os.Admin.Integrity.{verify_database_integrity}

find_auth_stored : (now : ℕ) (p : Payload) (s : Session) → (find_auth now p s).1.stored ≡ s.stored
unfolding find_auth
find_auth_stored now p s = ground arith

module _ (jwt : Jwt) (o : Origin) (credentials : Credentials) where
  pub authorize_stored : (s : Session) → (authorize jwt o credentials s).1.stored ≡ s.stored
  unfolding authorize require_roles get_current_user_and_session
  authorize_stored s = elim (Decoded-cases (jwt.decode o.now (token_of credentials))) [
    | inl (p, e) ↦ ground (arith, e, find_auth_stored o.now p s)
    | inr (inl e) ↦ ground (arith, e)
    | inr (inr e) ↦ ground (arith, e)
  ]

  authorize_refuses :
      (s : Session) {a : Auth}
      → (get_current_user_and_session jwt o.now credentials s).0 ≡ ok a
      → (is_admin a.role || is_owner a.role) ≡ false
      → (authorize jwt o credentials s).0 ≡ err forbidden
  unfolding authorize require_roles
  authorize_refuses s who ordinary = ground (arith, who, ordinary)

  -- An authenticated user who is neither an owner nor an administrator is forbidden each of the
  -- eleven routes, and none of them changes the committed database.
  pub admin_refuses :
      (cfg : Settings) (crypto : Crypto) (net : Net) (id raw_token name : String)
      (user_id : Option String) (body : WebhookCreateRequest) (n : ℕ) (b : Bool) (d : Db) {a : Auth}
      → (get_current_user_and_session jwt o.now credentials (open_session d)).0 ≡ ok a
      → (is_admin a.role || is_owner a.role) ≡ false
      → (get_db (get_system_health jwt o credentials cfg b) d ≡ (err forbidden, d))
        × (get_db (list_all_sessions jwt o credentials) d ≡ (err forbidden, d))
        × (get_db (revoke_session_admin jwt o credentials id) d ≡ (err forbidden, d))
        × (get_db (revoke_device_admin jwt o credentials name user_id) d ≡ (err forbidden, d))
        × (get_db (list_webhooks jwt o credentials) d ≡ (err forbidden, d))
        × (get_db (create_webhook jwt o credentials crypto net cfg id raw_token body) d
            ≡ (err forbidden, d))
        × (get_db (delete_webhook jwt o credentials id) d ≡ (err forbidden, d))
        × (get_db (list_failed_deliveries jwt o credentials) d ≡ (err forbidden, d))
        × (get_db (retry_delivery jwt o credentials id) d ≡ (err forbidden, d))
        × (get_db (get_audit_logs jwt o credentials n) d ≡ (err forbidden, d))
        × (get_db (verify_database_integrity jwt o credentials) d ≡ (err forbidden, d))
  unfolding get_db get_system_health list_all_sessions revoke_session_admin revoke_device_admin
      list_webhooks create_webhook delete_webhook list_failed_deliveries retry_delivery
      get_audit_logs verify_database_integrity
  admin_refuses cfg crypto net id raw_token name user_id body n b d who ordinary =
      ground
        (arith, authorize_refuses (open_session d) who ordinary, authorize_stored (open_session d))
