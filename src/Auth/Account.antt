-- ===== src/Auth/Account.antt =====
-- `AuthService`: accounts, login sessions and the audit log. `Crypto` is what the code calls of
-- bcrypt and hashlib (packages/shared/src/crypto.py).
pub mod Laws
use Prim.Native.String
use relationship_os.Base.{
  ℕ, zero, suc, ◌+◌, ◌*◌, String, ◌<>◌, Bool, true, false, ◌&&◌, ◌||◌, not, Option, none, some,
  List, [], ◌∷◌, ◌++◌, ◌==◌, length, select, update_where, exists_row, if◌then◌else◌,
}
use relationship_os.Shared.Constants.{UserRole}
use relationship_os.Shared.Errors.{auth_invalid, forbidden, not_found, integrity_error}
use relationship_os.Shared.Config.{Settings}
use relationship_os.Db.Rows.{Db, User, LoginSession, AuditEvent, Detail, text, number}
use relationship_os.Db.Session.{
  Action, ◌>>=◌, ◌>>◌, pure, raise, query, raise_if, or_raise, modify, commit, scalar_one_or_none,
}
use relationship_os.Presence.{seconds}

pub record Crypto : Type 0 where
  pub hash_password : String → String
  pub verify_password : String → String → Bool
  pub hash_token : String → String

-- `not s`, `s or t`, and `ua[:255] if ua else None`
abbrev pub is_empty : String → Bool
is_empty String.[] = true
is_empty (String.◌∷◌ c s) = false

abbrev pub or_text : String → String → String
or_text s t = if is_empty s then t else s

unfoldable pub take_text : ℕ → String → String
take_text zero s = ""
take_text (suc n) String.[] = ""
take_text (suc n) (String.◌∷◌ c s) = String.◌∷◌ c (take_text n s)

abbrev pub clip_agent : Option String → Option String
clip_agent none = none
clip_agent (some ua) = if is_empty ua then none else some (take_text 255 ua)

-- Where a request comes from, and when.
pub record Origin : Type 0 where
  pub now : ℕ
  pub ip_address : Option String
  pub user_agent : Option String

abbrev pub audit_event : Origin → String → String → String → List (String × Detail) → AuditEvent
audit_event o actor_id action target details = record {
  actor_id = actor_id;
  action = action;
  target = target;
  ip_address = o.ip_address;
  user_agent = clip_agent o.user_agent;
  details = details;
  created_at = o.now;
}

abbrev pub record_audit :
    Origin → String → String → String → List (String × Detail) → Action (Unit {0})
record_audit o actor_id action target details =
    modify
      (λ d. record d { audits = d.audits ++ (audit_event o actor_id action target details ∷ []) })

abbrev pub reason : String → List (String × Detail)
reason why = ("reason", text why) ∷ []

abbrev pub has_username : String → User → Bool
has_username username u = u.username == username

abbrev pub has_session_id : String → LoginSession → Bool
has_session_id session_id l = l.id == session_id

module _ (crypto : Crypto) where
  abbrev pub new_user : ℕ → String → String → String → String → UserRole → User
  new_user now id username display_name password role = record {
    id = id;
    username = username;
    display_name = display_name;
    hashed_password = crypto.hash_password password;
    role = role;
    is_active = true;
    created_at = now;
    updated_at = now;
  }

  unfoldable pub create_user : ℕ → String → String → String → String → UserRole → Action User
  create_user now id username display_name password role = do
    rows ← query (λ d. select (has_username username) d.users)
    existing ← scalar_one_or_none rows
    elim existing [
      | some u ↦ raise forbidden
      | none ↦ (do
        let user = new_user now id username display_name password role
        modify (λ d. record d { users = d.users ++ (user ∷ []) })
        pure user)
    ]

  -- What follows the lookup of an active user.
  abbrev check_password : Origin → User → String → Action User
  check_password o user password =
      if crypto.verify_password password user.hashed_password
      then (record_audit o user.id "auth.login_success" ("user:" <> user.id) [] >> pure user)
      else (record_audit o user.id "auth.login_failed" ("user:" <> user.id)
            (reason "Password mismatch")
          >> raise auth_invalid)

  abbrev refuse_login : Origin → String → Action User
  refuse_login o username =
      record_audit o (or_text username "anonymous") "auth.login_failed" "user"
        (reason "User not found or inactive")
      >> raise auth_invalid

  unfoldable pub authenticate_user : Origin → String → String → Action User
  unfolding take_text
  authenticate_user o username password = do
    rows ← query (λ d. select (has_username username) d.users)
    found ← scalar_one_or_none rows
    elim found [
      | none ↦ refuse_login o username
      | some user ↦
          if user.is_active then check_password o user password else refuse_login o username
    ]

  abbrev pub new_session : Settings → ℕ → String → String → User → String → String → LoginSession
  new_session cfg now id raw_token user device_name platform = record {
    id = id;
    user_id = user.id;
    device_name = device_name;
    platform = platform;
    token_hash = crypto.hash_token raw_token;
    is_revoked = false;
    expires_at = now + seconds (cfg.access_token_expire_minutes * 60);
    created_at = now;
    last_seen_at = now;
  }

  -- The row's key and the hash of its token are unique; `id` and `raw_token` are drawn.
  unfoldable pub create_session :
      Settings → ℕ → String → String → User → String → String → Action (LoginSession × String)
  create_session cfg now id raw_token user device_name platform = do
    let session = new_session cfg now id raw_token user device_name platform
    taken ← query (λ d.
        exists_row (λ l. l.id == id || l.token_hash == crypto.hash_token raw_token) d.sessions)
    raise_if taken integrity_error
    modify (λ d. record d { sessions = d.sessions ++ (session ∷ []) })
    pure (session, raw_token)

abbrev pub revoked : LoginSession → LoginSession
revoked l = record l { is_revoked = true }

abbrev pub with_sessions : (List LoginSession → List LoginSession) → Db → Db
with_sessions f d = record d { sessions = f d.sessions }

unfoldable pub revoke_session : Origin → String → String → Action (Unit {0})
revoke_session o session_id actor_id = do
  rows ← query (λ d. select (has_session_id session_id) d.sessions)
  found ← scalar_one_or_none rows
  session ← or_raise found not_found
  modify (with_sessions (update_where (has_session_id session_id) revoked))
  record_audit (record o { user_agent = none }) actor_id "session.revoked"
      ("session:" <> session_id)
      (("user_id", text session.user_id) ∷ ("device_name", text session.device_name) ∷ [])
  commit

abbrev pub is_device : String → String → LoginSession → Bool
is_device user_id device_name l = l.user_id == user_id && l.device_name == device_name

-- The answer is the number of rows that matched.
unfoldable pub revoke_device : Origin → String → String → String → Action ℕ
revoke_device o user_id device_name actor_id = do
  rows ← query (λ d. select (λ l. is_device user_id device_name l && not l.is_revoked) d.sessions)
  modify (
      with_sessions
        (update_where (λ l. is_device user_id device_name l && not l.is_revoked) revoked))
  record_audit (record o { user_agent = none }) actor_id "device.revoked" ("device:" <> device_name)
      (("user_id", text user_id) ∷ ("revoked_sessions_count", number (length rows)) ∷ [])
  pure (length rows)
