-- ===== src/Auth/Enrollment/Laws.antt =====
-- An enrollment token is good once, until it expires or is revoked.
use relationship_os.Base.{
  ◌≤◌, String, true, false, ◌≡◌, refl, Option, List, [], ◌∷◌, arith, select, select-cases,
  update_where, inl, inr,
}
use relationship_os.Shared.Errors.{auth_invalid}
use relationship_os.Shared.Config.{Settings}
use relationship_os.Db.Rows.{Db, User, LoginSession, EnrollmentToken}
use relationship_os.Db.Session.{Session, ok, err, Returns}
use relationship_os.Auth.Account.{Crypto, Origin, create_session}
use relationship_os.Auth.Enrollment.{has_hash, has_user_id, redeem_enrollment_token}

abbrev used : EnrollmentToken → EnrollmentToken
used t = record t { is_used = true }

select-used :
    (h k : String) (ts : List EnrollmentToken)
    → select (has_hash h) (update_where (has_hash k) used ts)
      ≡ update_where (has_hash k) used (select (has_hash h) ts)
select-used h k [] = refl
select-used h k (t ∷ ts) = ground (arith, select-used h k ts)

module _ (crypto : Crypto) (cfg : Settings) (o : Origin) (id session_token : String) where
  -- What a redeemed token was checked for.
  abbrev pub IsRedeemable : String → Db → User × LoginSession × String → Type 0
  IsRedeemable raw d (user, session, _) =
      (t : EnrollmentToken) × (select (has_hash (crypto.hash_token raw)) d.enrollments ≡ t ∷ [])
      × (t.is_revoked ≡ false)
      × (t.is_used ≡ false)
      × (o.now ≤ t.expires_at)
      × (t.user_id ≡ user.id)
      × (user.is_active ≡ true)
      × (session.user_id ≡ user.id)

  -- A token that is redeemed is known by its hash, neither revoked nor used nor expired, and opens a
  -- session of the active user that it was issued for.
  pub redeem-IsRedeemable :
      (raw : String) (device platform : Option String) (s : Session)
      → Returns
          (redeem_enrollment_token crypto cfg o id session_token raw device platform s).0
          (IsRedeemable raw s.work)
  unfolding redeem_enrollment_token create_session
  redeem-IsRedeemable raw device platform s =
      elim (select-cases (has_hash (crypto.hash_token raw)) s.work.enrollments) [
        | inl e ↦ ground arith
        | inr (inl (t, e, known)) ↦ elim (select-cases (has_user_id t.user_id) s.work.users) [
          | inl f ↦ ground arith
          | inr (inl (u, f, same)) ↦ ground arith
          | inr (inr (u, v, r, f)) ↦ ground arith
        ]
        | inr (inr (t, u, r, e)) ↦ ground arith
      ]

  redeem-marks :
      (raw : String) (device platform : Option String) (s : Session) (t : EnrollmentToken)
      {a : User × LoginSession × String}
      → select (has_hash (crypto.hash_token raw)) s.work.enrollments ≡ t ∷ []
      → has_hash (crypto.hash_token raw) t ≡ true
      → (redeem_enrollment_token crypto cfg o id session_token raw device platform s).0 ≡ ok a
      → select
          (has_hash (crypto.hash_token raw))
          (redeem_enrollment_token crypto cfg o id session_token raw device platform
            s).1.work.enrollments
        ≡ used t ∷ []
  unfolding redeem_enrollment_token create_session
  redeem-marks raw device platform s t one known h =
      elim (select-cases (has_user_id t.user_id) s.work.users) [
        | inl f ↦ absurd (ground arith)
        | inr (inl (u, f, same)) ↦
            ground (arith, select-used (crypto.hash_token raw) t.token_hash s.work.enrollments)
        | inr (inr (u, v, r, f)) ↦ absurd (ground arith)
      ]

  redeem_used :
      (raw : String) (device platform : Option String) (s : Session) (t : EnrollmentToken)
      → select (has_hash (crypto.hash_token raw)) s.work.enrollments ≡ t ∷ []
      → t.is_used ≡ true
      → (redeem_enrollment_token crypto cfg o id session_token raw device platform s).0
        ≡ err auth_invalid
  unfolding redeem_enrollment_token
  redeem_used raw device platform s t one spent = ground arith

  redeem-ok-one :
      (raw : String) (device platform : Option String) (s : Session)
      {a : User × LoginSession × String}
      → (redeem_enrollment_token crypto cfg o id session_token raw device platform s).0 ≡ ok a
      → (t : EnrollmentToken) × (select (has_hash (crypto.hash_token raw)) s.work.enrollments
          ≡ t ∷ [])
        × (has_hash (crypto.hash_token raw) t ≡ true)
  unfolding redeem_enrollment_token
  redeem-ok-one raw device platform s h =
      elim (select-cases (has_hash (crypto.hash_token raw)) s.work.enrollments) [
        | inl e ↦ absurd (ground arith)
        | inr (inl found) ↦ found
        | inr (inr (t, u, r, e)) ↦ absurd (ground arith)
      ]

module _ (crypto : Crypto) (cfg : Settings) where
  -- A token that has been redeemed is refused from then on in what the session sees: at any time,
  -- from anywhere, for any device.
  pub redeem_twice :
      (o o' : Origin) (id id' token token' raw : String)
      (device device' platform platform' : Option String) (s : Session)
      {a : User × LoginSession × String}
      → (redeem_enrollment_token crypto cfg o id token raw device platform s).0 ≡ ok a
      → (redeem_enrollment_token crypto cfg o' id' token' raw device' platform'
          (redeem_enrollment_token crypto cfg o id token raw device platform s).1).0
        ≡ err auth_invalid
  redeem_twice o o' id id' token token' raw device device' platform platform' s h =
      let (t, one, known) = redeem-ok-one crypto cfg o id token raw device platform s h in
      redeem_used crypto cfg o' id' token' raw device' platform'
        (redeem_enrollment_token crypto cfg o id token raw device platform s).1 (used t)
        (redeem-marks crypto cfg o id token raw device platform s t one known h) refl
