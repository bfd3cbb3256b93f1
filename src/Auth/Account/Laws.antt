-- ===== src/Auth/Account/Laws.antt =====
-- Who may log in, what a failed login leaves, and what a revocation does.
use relationship_os.Base.{
  ◌≤◌, String, ◌&&◌, not, ◌≡◌, refl, List, [], ◌∷◌, arith, length, select, update_where,
  if◌then◌else◌, ◌+◌, ◌<>◌, select-cases, inl, inr, length-append,
}
use relationship_os.Shared.Errors.{Error, auth_invalid}
use relationship_os.Db.Rows.{Db, User, LoginSession}
use relationship_os.Db.Session.{Session, ok, err, open_session, get_db}
use relationship_os.Auth.Account.{
  Crypto, Origin, has_username, authenticate_user, is_device, revoke_device, revoked, audit_event,
  reason, or_text,
}

close_all :
    (user_id device_name : String) (ls : List LoginSession)
    → select
        (λ l. is_device user_id device_name l && not l.is_revoked)
        (update_where (λ l. is_device user_id device_name l && not l.is_revoked) revoked ls)
      ≡ []
close_all u d [] = refl
close_all u d (l ∷ ls) = ground (arith, close_all u d ls)

module _ (crypto : Crypto) (o : Origin) where
  -- For a name that exactly one user has, a login is accepted exactly if this user is active and
  -- the password is the user's, and then answers the user.
  pub authenticate_user-decides :
      (username password : String) (s : Session) (u : User)
      → select (has_username username) s.work.users ≡ u ∷ []
      → (authenticate_user crypto o username password s).0 ≡ (
          if u.is_active && crypto.verify_password password u.hashed_password
          then ok u
          else err auth_invalid)
  unfolding authenticate_user
  authenticate_user-decides username password s u one = ground arith

  -- Every login attempt for a name of at most one user adds exactly one audit row to what the
  -- session sees, and a failed one is undone by the rollback of its request: the database is
  -- committed as it was, without the audit row.
  pub authenticate_user_failed :
      (username password : String) (d : Db) {e : Error}
      → length (select (has_username username) d.users) ≤ 1
      → (authenticate_user crypto o username password (open_session d)).0 ≡ err e
      → (length (authenticate_user crypto o username password (open_session d)).1.work.audits
          ≡ length d.audits + 1)
        × (get_db (authenticate_user crypto o username password) d ≡ (err auth_invalid, d))
  unfolding authenticate_user get_db
  authenticate_user_failed username password d one h =
      elim (select-cases (has_username username) d.users) [
        | inl e ↦ ground (
          arith,
          length-append d.audits (
              audit_event o (or_text username "anonymous") "auth.login_failed" "user"
                (reason "User not found or inactive")
              ∷ []),
        )
        | inr (inl (u, e, named)) ↦ ground (
          arith,
          length-append d.audits (
              audit_event o (or_text username "anonymous") "auth.login_failed" "user"
                (reason "User not found or inactive")
              ∷ []),
          length-append d.audits (
              audit_event o u.id "auth.login_failed" ("user:" <> u.id) (reason "Password mismatch")
              ∷ []),
        )
        | inr (inr (u, v, r, e)) ↦ absurd (ground arith)
      ]

-- After the call no session of the user on the device is open.
pub revoke_device-closes :
    (o : Origin) (user_id device_name actor_id : String) (s : Session)
    → select
        (λ l. is_device user_id device_name l && not l.is_revoked)
        (revoke_device o user_id device_name actor_id s).1.work.sessions
      ≡ []
unfolding revoke_device
revoke_device-closes o user_id device_name actor_id s =
    close_all user_id device_name s.work.sessions
