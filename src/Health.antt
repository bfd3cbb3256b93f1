-- ===== src/Health.antt =====
-- routers/health.py: the public probes. `db_ok` says whether `select(1)` succeeds; the uptime and
-- the time stamps are left out.
use relationship_os.Base.{ℕ, String, Bool, true, false, length, select, if◌then◌else◌}
use relationship_os.Shared.Config.{Settings}
use relationship_os.Db.Rows.{OutboxEvent, pending}
use relationship_os.Db.Session.{Action, query}
use relationship_os.Admin.{is_active}

pub record PublicHealth : Type 0 where
  pub status : String
  pub app : String
  pub version : String
  pub database : String

abbrev pub public_health : Settings → Bool → PublicHealth
public_health cfg db_ok = record {
  status = if db_ok then "ok" else "degraded";
  app = cfg.app_name;
  version = cfg.app_version;
  database = if db_ok then "healthy" else "unhealthy";
}

-- The status of the response and its text.
abbrev pub readiness : Bool → ℕ × String
readiness db_ok = if db_ok then (200, "ready") else (503, "not_ready")

pub record Metrics : Type 0 where
  pub total_messages_persisted : ℕ
  pub outbox_pending_count : ℕ
  pub active_sessions_count : ℕ

abbrev is_pending : OutboxEvent → Bool
is_pending e = elim e.status [ pending ↦ true | _ ↦ false ]

unfoldable pub privacy_safe_metrics : ℕ → Action Metrics
privacy_safe_metrics now = query (λ d. record {
  total_messages_persisted = length d.messages;
  outbox_pending_count = length (select is_pending d.outbox);
  active_sessions_count = length (select (is_active now) d.sessions);
})
