-- ===== src/Admin.antt =====
-- routers/admin.py: what an owner or an administrator may see and do. A request is one `Action`,
-- run by `get_db`. The texts of the messages are left out, and so are the time stamps of answers.

pub mod Webhooks
pub mod Integrity
pub mod Guard
pub mod Registration
use relationship_os.Base.{
  ℕ, String, ◌<>◌, Bool, true, false, ◌&&◌, ◌||◌, not, Option, none, some, List, [], ◌∷◌, ◌++◌, map,
  ◌==◌, ltb, leb, eqb, length, select, take, update_where, if◌then◌else◌,
}
use relationship_os.Base.Sorting.{sort_by}
use relationship_os.Shared.Constants.{UserRole, DeliveryState, is_admin, is_owner}
use relationship_os.Shared.Errors.{not_found}
use relationship_os.Shared.Config.{Settings}
use relationship_os.Db.Rows.{
  Db, User, LoginSession, MessageDelivery, OutboxEvent, OutboxStatus, AuditEvent, pending,
  processing, delivered, failed, retrying,
}
use relationship_os.Auth.Routes.{stored_last_seen}
use relationship_os.Db.Session.{
  Action, ◌>>=◌, ◌>>◌, pure, query, query_stored, or_raise, modify, scalar_one_or_none,
}
use relationship_os.Auth.Account.{Origin, is_empty, record_audit, revoke_session, revoke_device}
use relationship_os.Auth.Token.{Jwt, Auth, Credentials, require_roles}

-- `OutboxEvent.status.in_(["pending", "retrying"])` and `== "failed"`
abbrev pub is_backlog : OutboxEvent → Bool
is_backlog e = elim e.status [ pending ↦ true | retrying ↦ true | _ ↦ false ]

abbrev pub is_failed : OutboxEvent → Bool
is_failed e = elim e.status [ failed ↦ true | _ ↦ false ]

abbrev pub is_active : ℕ → LoginSession → Bool
is_active now l = not l.is_revoked && ltb now l.expires_at

pub record Health : Type 0 where
  pub is_healthy : Bool
  pub database_connected : Bool
  pub pending_or_retrying : ℕ
  pub failed_dead_letter : ℕ
  pub active_sessions : ℕ
  pub discord_enabled : Bool
  pub webhook_enabled : Bool
  pub signal_enabled : Bool

-- `db_ok` says whether `select(1)` succeeds.
abbrev pub health : Settings → ℕ → Bool → Db → Health
health cfg now db_ok d =
    let failed_count = length (select is_failed d.outbox) in
    record {
      is_healthy = db_ok && eqb failed_count 0;
      database_connected = db_ok;
      pending_or_retrying = length (select is_backlog d.outbox);
      failed_dead_letter = failed_count;
      active_sessions = length (select (is_active now) d.sessions);
      discord_enabled = cfg.discord_enabled;
      webhook_enabled = cfg.webhook_enabled;
      signal_enabled = cfg.signal_enabled;
    }

abbrev seen_later : Db → LoginSession × User → LoginSession × User → Bool
seen_later stored a b = leb (stored_last_seen stored b.0) (stored_last_seen stored a.0)

-- `.join(User, Session.user_id == User.id)`
abbrev join_users : List User → List LoginSession → List (LoginSession × User)
join_users users [] = []
join_users users (l ∷ ls) =
    map (λ u. (l, u)) (select (λ u. u.id == l.user_id) users) ++ join_users users ls

abbrev pub all_sessions : Db → Db → List (LoginSession × User)
all_sessions stored d = take 100 (sort_by (seen_later stored) (join_users d.users d.sessions))

-- `last_attempted_at.desc()`, where NULL comes last.
abbrev attempted_later : MessageDelivery → MessageDelivery → Bool
attempted_later a b = elim b.last_attempted_at [
  | none ↦ true
  | some t ↦ elim a.last_attempted_at [ none ↦ false | some u ↦ leb t u ]
]

-- `MessageDelivery.status == "failed"`
abbrev is_failed_delivery : MessageDelivery → Bool
is_failed_delivery r = elim r.status [ DeliveryState.failed ↦ true | _ ↦ false ]

abbrev pub failed_deliveries : Db → List MessageDelivery
failed_deliveries d = take 50 (sort_by attempted_later (select is_failed_delivery d.deliveries))

abbrev created_later : AuditEvent → AuditEvent → Bool
created_later a b = leb b.created_at a.created_at

-- The routes record no address.
abbrev pub unaddressed : Origin → Origin
unaddressed o = record o { ip_address = none; user_agent = none }

-- `user_id or auth["user"].id`
abbrev user_or : Option String → String → String
user_or none own = own
user_or (some user_id) own = if is_empty user_id then own else user_id

abbrev pub has_delivery_id : String → MessageDelivery → Bool
has_delivery_id delivery_id r = r.id == delivery_id

abbrev pub requeued : MessageDelivery → MessageDelivery
requeued r = record r {
  status = DeliveryState.queued;
  failure_reason = some "Manual retry requested by admin";
}

abbrev pub reset : ℕ → OutboxEvent → OutboxEvent
reset now e = record e { status = pending; next_attempt_at = now; retry_count = 0 }

-- The change of one delivery, and the update of every failed outbox event.
abbrev pub with_retry : ℕ → String → Db → Db
with_retry now delivery_id d = record d {
  deliveries = update_where (has_delivery_id delivery_id) requeued d.deliveries;
  outbox = update_where is_failed (reset now) d.outbox;
}

module _ (jwt : Jwt) (o : Origin) (credentials : Credentials) where
  -- `require_roles(UserRole.ADMIN, UserRole.OWNER)`
  unfoldable pub authorize : Action Auth
  unfolding require_roles
  authorize = require_roles jwt (λ r. is_admin r || is_owner r) o.now credentials

  unfoldable pub get_system_health : Settings → Bool → Action Health
  unfolding authorize
  get_system_health cfg db_ok = do authorize; query (health cfg o.now db_ok)

  unfoldable pub list_all_sessions : Action (List (LoginSession × User))
  unfolding authorize sort_by
  list_all_sessions = do authorize; query_stored all_sessions

  unfoldable pub revoke_session_admin : String → Action (Unit {0})
  unfolding authorize revoke_session
  revoke_session_admin session_id = do
    auth ← authorize
    revoke_session (unaddressed o) session_id auth.user.id

  -- The answer is the number of sessions that were revoked.
  unfoldable pub revoke_device_admin : String → Option String → Action ℕ
  unfolding authorize revoke_device
  revoke_device_admin device_name user_id = do
    auth ← authorize
    revoke_device (unaddressed o) (user_or user_id auth.user.id) device_name auth.user.id

  unfoldable pub list_failed_deliveries : Action (List MessageDelivery)
  unfolding authorize sort_by
  list_failed_deliveries = do authorize; query failed_deliveries

  unfoldable pub retry_delivery : String → Action (Unit {0})
  unfolding authorize
  retry_delivery delivery_id = do
    auth ← authorize
    rows ← query (λ d. select (has_delivery_id delivery_id) d.deliveries)
    found ← scalar_one_or_none rows
    delivery ← or_raise found not_found
    modify (with_retry o.now delivery_id)
    record_audit (unaddressed o) auth.user.id "delivery.retry_triggered"
        ("delivery:" <> delivery_id) []

  -- FastAPI has checked that the limit is between 1 and 200.
  unfoldable pub get_audit_logs : ℕ → Action (List AuditEvent)
  unfolding authorize sort_by
  get_audit_logs limit = do authorize; query (λ d. take limit (sort_by created_later d.audits))
