-- ===== src/Presence.antt =====
-- `PresenceService` of apps/api/src/services/presence_service.py. `now` is the clock's reading, in
-- microseconds; `a < now - b` is written `a + b < now`, since the numbers here have no sign.
pub mod Expiry
use relationship_os.Base.{
  ℕ, ◌+◌, ◌*◌, String, Bool, true, false, ◌&&◌, not, Option, none, some, List, [], ◌∷◌, ◌++◌, ◌==◌,
  ltb, length, select, update_where, if◌then◌else◌,
}
use relationship_os.Shared.Constants.{PresenceState, is_offline}
use relationship_os.Db.Rows.{Db, UserPresence}
use relationship_os.Db.Session.{Action, ◌>>=◌, ◌>>◌, pure, query, modify, scalar_one_or_none}

abbrev pub seconds : ℕ → ℕ
seconds n = n * 1000000

abbrev pub heartbeat_timeout_seconds : ℕ
heartbeat_timeout_seconds = 60

abbrev pub is_user : String → UserPresence → Bool
is_user user_id p = p.user_id == user_id

abbrev pub find_presence : String → Action (Option UserPresence)
find_presence user_id = do
  rows ← query (λ d. select (is_user user_id) d.presences)
  scalar_one_or_none rows

abbrev pub with_presences : (List UserPresence → List UserPresence) → Db → Db
with_presences f d = record d { presences = f d.presences }

unfoldable pub update_presence : ℕ → String → PresenceState → String → Action UserPresence
update_presence now user_id status device_name = do
  found ← find_presence user_id
  let fresh : UserPresence = record {
    user_id = user_id;
    status = status;
    device_name = device_name;
    last_heartbeat_at = now;
  }
  elim found [
    | none ↦ modify (with_presences (λ ps. ps ++ (fresh ∷ []))) >> pure fresh
    | some p ↦ modify (with_presences (update_where (is_user user_id) (λ _. fresh))) >> pure fresh
  ]

abbrev pub is_stale : ℕ → ℕ → UserPresence → Bool
is_stale now timeout p =
    ltb (p.last_heartbeat_at + seconds timeout) now && not (is_offline p.status)

abbrev pub set_offline : UserPresence → UserPresence
set_offline p = record p { status = PresenceState.offline }

-- The status and the device that are reported.
unfoldable pub get_user_presence : ℕ → String → Action (PresenceState × String)
get_user_presence now user_id = do
  found ← find_presence user_id
  elim found [
    | none ↦ pure (PresenceState.offline, "")
    | some p ↦
        if is_stale now heartbeat_timeout_seconds p
        then (modify (with_presences (update_where (is_user user_id) set_offline))
            >> pure (PresenceState.offline, p.device_name))
        else pure (p.status, p.device_name)
  ]

-- The answer is the number of rows that matched.
unfoldable pub expire_stale_sessions : ℕ → ℕ → Action ℕ
expire_stale_sessions now timeout = do
  rows ← query (λ d. select (is_stale now timeout) d.presences)
  modify (with_presences (update_where (is_stale now timeout) set_offline))
  pure (length rows)
