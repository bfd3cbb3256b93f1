-- ===== src/Auth/Token.antt =====
-- apps/api/src/core/security.py: access tokens, the authentication of a request, and roles. `Jwt` is
-- what the code calls of PyJWT with its secret and algorithm.
pub mod Laws
use relationship_os.Base.{
  ℕ, ◌+◌, ◌*◌, ◌≤◌, String, Bool, true, false, ◌&&◌, ◌||◌, not, Option, none, some, List, [], ◌∷◌,
  ◌≡◌, ltb, select, update_where, if◌then◌else◌,
}
use relationship_os.Shared.Constants.{UserRole, is_admin, is_owner, is_recipient}
use relationship_os.Shared.Errors.{auth_invalid, auth_expired, forbidden}
use relationship_os.Shared.Config.{Settings}
use relationship_os.Db.Rows.{Db, User, LoginSession}
use relationship_os.Db.Session.{
  Action, ◌>>=◌, ◌>>◌, pure, raise, query, raise_if, or_raise, modify, scalar_one_or_none,
}
use relationship_os.Presence.{seconds}
use relationship_os.Auth.Account.{is_empty, has_session_id, with_sessions}
use relationship_os.Auth.Enrollment.{has_user_id, or_given}

pub record Claims : Type 0 where
  pub sub : String
  pub username : String
  pub role : UserRole
  pub session_id : String
  pub device_name : String
  pub exp : ℕ
  pub iat : ℕ

-- The claims that are read back.
pub record Payload : Type 0 where
  pub sub : String
  pub session_id : String

pub data Decoded : Type 0 where
  valid : Payload → Decoded
  expired_signature invalid_token : Decoded

-- `decode` is told the time.
pub record Jwt : Type 0 where
  pub encode : Claims → String
  pub decode : ℕ → String → Decoded

-- A token is read back from its issue until its expiry, which counts whole seconds, and is no empty text.
pub record IsLawful (jwt : Jwt) : Type 0 where
  pub decode-encode :
      (now : ℕ) (c : Claims)
      → c.iat ≤ now
      → now + seconds 1 ≤ c.exp
      → jwt.decode now (jwt.encode c) ≡ valid (record { sub = c.sub; session_id = c.session_id })
  pub encode-is_empty : (c : Claims) → is_empty (jwt.encode c) ≡ false

-- `require_roles(*allowed)` names a role by a test.
pub record Auth : Type 0 where
  pub user : User
  pub session : LoginSession
  pub role : UserRole

-- A request's bearer credentials and its `access_token` cookie.
pub record Credentials : Type 0 where
  pub bearer : Option String
  pub cookie : Option String

abbrev pub token_of : Credentials → String
token_of c = elim c.bearer [
  | some token ↦ token
  | none ↦ elim c.cookie [ some token ↦ token | none ↦ "" ]
]

abbrev pub is_open_session : String → LoginSession → Bool
is_open_session session_id l = has_session_id session_id l && not l.is_revoked

abbrev pub is_active_user : String → User → Bool
is_active_user user_id u = has_user_id user_id u && u.is_active

-- The checks of the database for a decoded token.
unfoldable pub find_auth : ℕ → Payload → Action Auth
find_auth now payload = do
  rows ← query (λ d. select (is_open_session payload.session_id) d.sessions)
  found ← scalar_one_or_none rows
  session ← or_raise found auth_invalid
  raise_if (ltb session.expires_at now) auth_expired
  users ← query (λ d. select (is_active_user payload.sub) d.users)
  who ← scalar_one_or_none users
  user ← or_raise who auth_invalid
  modify (
      with_sessions
        (update_where (has_session_id session.id) (λ l. record l { last_seen_at = now })))
  pure (record { user = user; session = record session { last_seen_at = now }; role = user.role })

module _ (jwt : Jwt) where
  unfoldable pub create_access_token : Settings → ℕ → User → String → Option String → String
  create_access_token cfg now user session_id device_name = jwt.encode (record {
    sub = user.id;
    username = user.username;
    role = user.role;
    session_id = session_id;
    device_name = or_given device_name "unknown";
    exp = now + seconds (cfg.access_token_expire_minutes * 60);
    iat = now;
  })

  unfoldable pub decode_access_token : ℕ → String → Action Payload
  decode_access_token now token = elim (jwt.decode now token) [
    | valid payload ↦ pure payload
    | expired_signature ↦ raise auth_expired
    | invalid_token ↦ raise auth_invalid
  ]

  unfoldable pub get_current_user_and_session : ℕ → Credentials → Action Auth
  unfolding decode_access_token
  get_current_user_and_session now credentials = do
    raise_if (is_empty (token_of credentials)) auth_invalid
    payload ← decode_access_token now (token_of credentials)
    raise_if (is_empty payload.sub || is_empty payload.session_id) auth_invalid
    find_auth now payload

  -- `require_roles`: the allowed roles are the test `allowed`; an administrator always passes.
  unfoldable pub require_roles : (UserRole → Bool) → ℕ → Credentials → Action Auth
  require_roles allowed now credentials = do
    auth ← get_current_user_and_session now credentials
    if is_admin auth.role
        then pure auth
        else (if allowed auth.role then pure auth else raise forbidden)
