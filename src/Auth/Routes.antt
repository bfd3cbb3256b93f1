-- ===== src/Auth/Routes.antt =====
-- routers/auth.py: login, enrollment, the issue of enrollment tokens, the caller's account and sessions,
-- and logout. A request is one
-- `Action`, run by `get_db`; the cookie that a response sets carries the token of its body.
pub mod Laws
use relationship_os.Base.{
  [], ◌∷◌, ℕ, ◌+◌, ◌*◌, String, Bool, true, ◌&&◌, ◌||◌, not, ◌==◌, leb, Option, none, some, List,
  select, if◌then◌else◌,
}
use relationship_os.Base.Sorting.{sort_by}
use relationship_os.Shared.Constants.{UserRole, is_admin, is_owner, is_recipient}
use relationship_os.Shared.Config.{Settings}
use relationship_os.Db.Rows.{Db, User, LoginSession}
use relationship_os.Db.Session.{
  Action, ◌>>=◌, ◌>>◌, pure, query, query_stored, commit, scalar_one_or_none,
}
use relationship_os.Presence.{seconds}
use relationship_os.Auth.Account.{
  has_session_id, Crypto, Origin, authenticate_user, create_session, revoke_session,
}
use relationship_os.Auth.Enrollment.{create_enrollment_token, redeem_enrollment_token}
use relationship_os.Auth.Token.{
  Jwt, Auth, Credentials, create_access_token, get_current_user_and_session, require_roles,
}

-- `TokenResponse`; `expires_in` is in seconds.
pub record TokenResponse : Type 0 where
  pub access_token : String
  pub expires_in : ℕ
  pub user : User

-- What a request draws from `secrets` and `uuid4`.
pub record Draws : Type 0 where
  pub id : String
  pub raw_token : String

-- `recipient`, or the caller if there is none
abbrev recipient_or : User → Option User → User
recipient_or caller none = caller
recipient_or caller (some u) = u

-- The query of `/sessions`. The responses of it and of `/me` hold columns of the rows that are
-- answered here.
abbrev pub is_own_session : String → LoginSession → Bool
is_own_session user_id l = l.user_id == user_id && not l.is_revoked

-- The time that the database has for a session. The queries do not flush, so that the time that the
-- authentication has just set takes no part in the order.
abbrev pub stored_last_seen : Db → LoginSession → ℕ
stored_last_seen stored l = elim (select (has_session_id l.id) stored.sessions) [
  | [] ↦ l.last_seen_at
  | row ∷ _ ↦ row.last_seen_at
]

abbrev last_seen_later : Db → LoginSession → LoginSession → Bool
last_seen_later stored a b = leb (stored_last_seen stored b) (stored_last_seen stored a)

module _ (cfg : Settings) (crypto : Crypto) (jwt : Jwt) where
  abbrev pub token_response : ℕ → User → String → String → TokenResponse
  token_response now user session_id device_name = record {
    access_token = create_access_token jwt cfg now user session_id (some device_name);
    expires_in = cfg.access_token_expire_minutes * 60;
    user = user;
  }

  unfoldable pub login : Origin → Draws → String → String → String → String → Action TokenResponse
  login o draws username password device_name platform = do
    user ← authenticate_user crypto o username password
    (session, _) ←
        create_session crypto cfg o.now draws.id draws.raw_token user device_name platform
    pure (token_response o.now user session.id device_name)

  unfoldable pub enroll : Origin → Draws → String → String → String → Action TokenResponse
  enroll o draws token device_name platform = do
    (user, session, _) ←
        redeem_enrollment_token crypto cfg o draws.id draws.raw_token token (some device_name)
          (some platform)
    pure (token_response o.now user session.id device_name)

  -- The token goes to the recipient if there is one, and to the caller otherwise.
  unfoldable pub issue_enrollment_token :
      Origin → Draws → Credentials → String → String → ℕ → Action (String × ℕ)
  issue_enrollment_token o draws credentials device_name platform hours = do
    auth ← require_roles jwt (λ r. is_owner r || is_admin r) o.now credentials
    rows ← query (λ d. select (λ u. is_recipient u.role) d.users)
    recipient ← scalar_one_or_none rows
    let target = recipient_or auth.user recipient
    token ←
        create_enrollment_token crypto o draws.id draws.raw_token target.id device_name platform
          hours
    pure (token, o.now + seconds (hours * 3600))

  abbrev pub get_me : ℕ → Credentials → Action User
  get_me now credentials = do
    auth ← get_current_user_and_session jwt now credentials
    pure auth.user

  unfoldable pub list_user_sessions : ℕ → Credentials → Action (List LoginSession)
  unfolding sort_by
  list_user_sessions now credentials = do
    auth ← get_current_user_and_session jwt now credentials
    query_stored (λ stored d.
        sort_by (last_seen_later stored) (select (is_own_session auth.user.id) d.sessions))

  unfoldable pub logout : Origin → Credentials → Action (Unit {0})
  logout o credentials = do
    auth ← get_current_user_and_session jwt o.now credentials
    revoke_session o auth.session.id auth.user.id
    commit
