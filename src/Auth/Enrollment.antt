-- ===== src/Auth/Enrollment.antt =====
-- `create_enrollment_token` and `redeem_enrollment_token`.
pub mod Laws
use relationship_os.Base.{
  ℕ, ◌+◌, ◌*◌, String, ◌<>◌, Bool, true, false, ◌&&◌, ◌||◌, not, Option, none, some, List, [], ◌∷◌,
  ◌++◌, ◌==◌, ltb, select, update_where, exists_row, if◌then◌else◌,
}
use relationship_os.Shared.Errors.{auth_invalid, auth_expired, integrity_error}
use relationship_os.Shared.Config.{Settings}
use relationship_os.Db.Rows.{Db, User, LoginSession, EnrollmentToken, Detail, text, number}
use relationship_os.Db.Session.{
  Action, ◌>>=◌, ◌>>◌, pure, raise, query, raise_if, modify, scalar_one_or_none,
}
use relationship_os.Presence.{seconds}
use relationship_os.Auth.Account.{Crypto, Origin, is_empty, record_audit, reason, create_session}

abbrev pub has_hash : String → EnrollmentToken → Bool
has_hash token_hash t = t.token_hash == token_hash

abbrev pub has_user_id : String → User → Bool
has_user_id user_id u = u.id == user_id

-- `given or default`
abbrev pub or_given : Option String → String → String
or_given none default = default
or_given (some s) default = if is_empty s then default else s

module _ (crypto : Crypto) where
  abbrev pub new_enrollment : ℕ → String → String → String → String → String → ℕ → EnrollmentToken
  new_enrollment now id raw_token user_id device_name platform expires_hours = record {
    id = id;
    token_hash = crypto.hash_token raw_token;
    user_id = user_id;
    device_name = device_name;
    platform = platform;
    is_used = false;
    is_revoked = false;
    expires_at = now + seconds (expires_hours * 3600);
    created_at = now;
  }

  -- The raw token, which is stored only as its hash. `id` and `raw_token` are drawn.
  unfoldable pub create_enrollment_token :
      Origin → String → String → String → String → String → ℕ → Action String
  create_enrollment_token o id raw_token user_id device_name platform expires_hours = do
    taken ← query (λ d. exists_row (has_hash (crypto.hash_token raw_token)) d.enrollments)
    raise_if taken integrity_error
    modify (λ d. record d {
      enrollments =
          d.enrollments
          ++ (new_enrollment o.now id raw_token user_id device_name platform expires_hours ∷ []);
    })
    record_audit (record o { ip_address = none; user_agent = none }) user_id "enrollment.created"
        ("user:" <> user_id)
        (("device_name", text device_name)
          ∷ ("platform", text platform)
          ∷ ("expires_hours", number expires_hours)
          ∷ [])
    pure raw_token

  -- A refused token: its audit row, and the exception.
  abbrev refuse_invalid : Origin → EnrollmentToken → String → Action (User × LoginSession × String)
  refuse_invalid o t why =
      record_audit o t.user_id "enrollment.redeem_failed" ("enrollment:" <> t.id) (reason why)
      >> raise auth_invalid

  abbrev refuse_expired : Origin → EnrollmentToken → Action (User × LoginSession × String)
  refuse_expired o t =
      record_audit o t.user_id "enrollment.redeem_failed" ("enrollment:" <> t.id)
        (reason "Token expired")
      >> raise auth_expired

  -- The session for an accepted token. `session_id` and `session_token` are drawn.
  abbrev grant :
      Settings
      → Origin
      → String
      → String
      → EnrollmentToken
      → Option String
      → Option String
      → User
      → Action (User × LoginSession × String)
  grant cfg o session_id session_token t device_name platform user = do
    (session, raw) ←
        create_session crypto cfg o.now session_id session_token user
          (or_given device_name t.device_name) (or_given platform t.platform)
    record_audit o user.id "enrollment.redeem_success" ("session:" <> session.id) (
        ("device_name", text (or_given device_name t.device_name))
        ∷ ("platform", text (or_given platform t.platform))
        ∷ [])
    pure (user, session, raw)

  -- What follows the four tests on the token.
  abbrev use_token :
      Settings
      → Origin
      → String
      → String
      → EnrollmentToken
      → Option String
      → Option String
      → Action (User × LoginSession × String)
  use_token cfg o session_id session_token t device_name platform = do
    modify (λ d. record d {
      enrollments =
          update_where (has_hash t.token_hash) (λ e. record e { is_used = true }) d.enrollments;
    })
    rows ← query (λ d. select (has_user_id t.user_id) d.users)
    found ← scalar_one_or_none rows
    elim found [
      | none ↦ raise auth_invalid
      | some user ↦
          if user.is_active
          then grant cfg o session_id session_token t device_name platform user
          else raise auth_invalid
    ]

  unfoldable pub redeem_enrollment_token :
      Settings
      → Origin
      → String
      → String
      → String
      → Option String
      → Option String
      → Action (User × LoginSession × String)
  redeem_enrollment_token cfg o session_id session_token raw_token device_name platform = do
    rows ← query (λ d. select (has_hash (crypto.hash_token raw_token)) d.enrollments)
    found ← scalar_one_or_none rows
    elim found [
      | none ↦
          record_audit o "anonymous" "enrollment.redeem_failed" "enrollment_token"
            (reason "Token not found")
          >> raise auth_invalid
      | some t ↦
          if t.is_revoked
          then refuse_invalid o t "Token revoked"
          else if t.is_used
          then refuse_invalid o t "Token already used"
          else if ltb t.expires_at o.now
          then refuse_expired o t
          else use_token cfg o session_id session_token t device_name platform
    ]
