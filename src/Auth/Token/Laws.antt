-- ===== src/Auth/Token/Laws.antt =====
-- What a token opens.
use relationship_os.Base.{
  ℕ, ◌≤◌, String, Bool, true, ◌||◌, ◌≡◌, refl, List, [], ◌∷◌, arith, select, update_where,
  if◌then◌else◌, select-cases, inl, inr,
}
use relationship_os.Shared.Constants.{UserRole, is_admin}
use relationship_os.Shared.Errors.{auth_invalid, forbidden}
use relationship_os.Db.Rows.{LoginSession}
use relationship_os.Db.Session.{Session, ok, err, Returns}
use relationship_os.Auth.Account.{Origin, has_session_id, revoke_session, revoked}
use relationship_os.Auth.Token.{
  Jwt, Auth, Payload, valid, Credentials, token_of, is_open_session, is_active_user, find_auth,
  get_current_user_and_session, require_roles,
}

pub revoked_closed :
    (i : String) (ls : List LoginSession)
    → select (is_open_session i) (update_where (has_session_id i) revoked ls) ≡ []
revoked_closed i [] = refl
revoked_closed i (l ∷ ls) = ground (arith, revoked_closed i ls)

-- What an accepted request has been checked for.
abbrev pub IsAdmitted : ℕ → Payload → Auth → Type 0
IsAdmitted now p a =
    (is_active_user p.sub a.user ≡ true)
    × (is_open_session p.session_id a.session ≡ true)
    × (now ≤ a.session.expires_at)
    × (a.role ≡ a.user.role)

-- Whoever is let in has an active account and an open session that has not expired.
pub find_auth-IsAdmitted :
    (now : ℕ) (p : Payload) (s : Session) → Returns (find_auth now p s).0 (IsAdmitted now p)
unfolding find_auth
find_auth-IsAdmitted now p s = elim (select-cases (is_open_session p.session_id) s.work.sessions) [
  | inl e ↦ ground arith
  | inr (inl (l, e, open_l)) ↦ elim (select-cases (is_active_user p.sub) s.work.users) [
    | inl f ↦ ground arith
    | inr (inl (u, f, active_u)) ↦ ground arith
    | inr (inr (u, v, r, f)) ↦ ground arith
  ]
  | inr (inr (l, m, r, e)) ↦ ground arith
]

-- After a call that revoked a session, no claims of that session are accepted any more in what
-- the database session sees, whatever they say otherwise and whenever they are shown.
pub revoke_session-closes :
    (o : Origin) (session_id actor_id : String) (s : Session) (now : ℕ) (p : Payload)
    → (revoke_session o session_id actor_id s).0 ≡ ok tt
    → p.session_id ≡ session_id
    → (find_auth now p (revoke_session o session_id actor_id s).1).0 ≡ err auth_invalid
unfolding revoke_session find_auth
revoke_session-closes o session_id actor_id s now p done same =
    ground (arith, revoked_closed session_id s.work.sessions)

module _ (jwt : Jwt) where
  -- A request whose token decodes is accepted only for an active account with an open session that
  -- has not expired.
  pub get_current_user-IsAdmitted :
      (now : ℕ) (c : Credentials) (s : Session) (p : Payload)
      → jwt.decode now (token_of c) ≡ valid p
      → Returns (get_current_user_and_session jwt now c s).0 (IsAdmitted now p)
  unfolding get_current_user_and_session
  get_current_user-IsAdmitted now c s p decoded = ground (arith, find_auth-IsAdmitted now p s)

  -- With authenticated credentials, a role guard lets in exactly the administrators and the allowed
  -- roles.
  pub require_roles-decides :
      (allowed : UserRole → Bool) (now : ℕ) (c : Credentials) (s : Session) {a : Auth}
      → (get_current_user_and_session jwt now c s).0 ≡ ok a
      → (require_roles jwt allowed now c s).0
        ≡ (if is_admin a.role || allowed a.role then ok a else err forbidden)
  unfolding require_roles
  require_roles-decides allowed now c s h = ground arith
