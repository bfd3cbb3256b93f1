-- ===== src/Presence/Expiry.antt =====
-- Expiring on reading and expiring in bulk agree, and a heartbeat lasts for the timeout.
use relationship_os.Base.{
  ℕ, ◌+◌, ◌≤◌, String, ◌≡◌, refl, ◌⊎◌, inl, inr, List, [], ◌∷◌, arith, length, select,
  select-append, select-update_where, update_where, leb, if◌then◌else◌,
}
use relationship_os.Shared.Constants.{PresenceState}
use relationship_os.Db.Rows.{UserPresence}
use relationship_os.Db.Session.{Session, ok}
use relationship_os.Presence.{
  seconds, heartbeat_timeout_seconds, is_user, update_presence, is_stale, set_offline,
  get_user_presence, expire_stale_sessions,
}

one_row :
    (ps : List UserPresence) → length ps ≤ 1 → (ps ≡ []) ⊎ ((p : UserPresence) × (ps ≡ p ∷ []))
one_row [] h = inl refl
one_row (p ∷ []) h = inr (p, refl)
one_row (p ∷ q ∷ ps) h = absurd (omega arith)

select-expire :
    (now timeout : ℕ) (u : String) (ps : List UserPresence)
    → select (is_user u) (update_where (is_stale now timeout) set_offline ps)
      ≡ update_where (is_stale now timeout) set_offline (select (is_user u) ps)
select-expire now timeout u [] = refl
select-expire now timeout u (p ∷ ps) = ground (arith, select-expire now timeout u ps)

-- A user whose presence is known at most once is reported alike before and after a bulk expiry with
-- the heartbeat timeout at the same time.
pub get_user_presence-expire :
    (now : ℕ) (u : String) (s : Session)
    → length (select (is_user u) s.work.presences) ≤ 1
    → (get_user_presence now u (expire_stale_sessions now heartbeat_timeout_seconds s).1).0
      ≡ (get_user_presence now u s).0
unfolding get_user_presence expire_stale_sessions
get_user_presence-expire now u s one =
    ground (arith, select-expire now heartbeat_timeout_seconds u s.work.presences)

abbrev heartbeat : ℕ → String → PresenceState → String → UserPresence
heartbeat now u status device = record {
  user_id = u;
  status = status;
  device_name = device;
  last_heartbeat_at = now;
}

select-update_presence :
    (now : ℕ) (u : String) (status : PresenceState) (device : String) (s : Session)
    → length (select (is_user u) s.work.presences) ≤ 1
    → select (is_user u) (update_presence now u status device s).1.work.presences
      ≡ heartbeat now u status device ∷ []
unfolding update_presence
select-update_presence now u status device s one =
    elim (one_row (select (is_user u) s.work.presences) one) [
      | inl e ↦ ground (
        arith,
        e,
        select-append (is_user u) s.work.presences (heartbeat now u status device ∷ []),
      )
      | inr (p, e) ↦ ground (
        arith,
        e,
        select-update_where (is_user u) (heartbeat now u status device) s.work.presences p,
      )
    ]

-- For a user whose presence is known at most once, after a heartbeat the user is reported with
-- the given status and device until more than 60 seconds have passed, and as offline from then
-- on.
pub get_user_presence-update_presence :
    (now later : ℕ) (u : String) (status : PresenceState) (device : String) (s : Session)
    → length (select (is_user u) s.work.presences) ≤ 1
    → (get_user_presence later u (update_presence now u status device s).1).0
      ≡ ok (
        (if leb later (now + seconds heartbeat_timeout_seconds)
            then status
            else PresenceState.offline),
        device,
      )
unfolding get_user_presence
get_user_presence-update_presence now later u status device s one =
    ground (arith, select-update_presence now u status device s one)
