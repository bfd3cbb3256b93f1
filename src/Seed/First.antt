-- ===== src/Seed/First.antt =====
-- What a run of the script that returns leaves.
use mathlib.Core.Path.{subst}
use relationship_os.Base.{
  ap2, ℕ, String, String-discrete, false, ap, ◌≡◌, refl, sym, ◌∙◌, inl, inr, some, [], ◌∷◌, arith,
  ◌==◌, append_nil, eq_refl, select, select-append, select-cases, first,
}
use relationship_os.Shared.Constants.{UserRole}
use relationship_os.Db.Rows.{Db, User}
use relationship_os.Db.Session.{
  Session, ok, Result-cases, open_session, in_session, ◌>>=◌, bind_returns,
}
use relationship_os.Message.Access.{
  RoomIds, shared_conversations, get_or_create_private_conversation,
}
use relationship_os.Message.Access.Room.{room_found, shared_same}
use relationship_os.Auth.Account.{Crypto, Origin, has_username, create_user, new_user}
use relationship_os.Auth.Enrollment.{create_enrollment_token}
use relationship_os.Seed.{
  SeedDraws, Seeded, find_or_create, furnish, seed, owner_pass, recipient_pass,
}

names_differ : ("recipient" == "owner") ≡ false
unfolding String-discrete
names_differ = refl

-- What a run that returned has left: both accounts, and the room of the two, are found.
pub record IsSeeded (r : Seeded) (d : Db) : Type 0 where
  pub owner : select (has_username "owner") d.users ≡ r.owner ∷ []
  pub recipient : select (has_username "recipient") d.users ≡ r.recipient ∷ []
  pub room : first (shared_conversations r.owner.id r.recipient.id d) ≡ some r.conversation

module _ (crypto : Crypto) (o : Origin) (draws : SeedDraws) (getenv : String → String) where
  -- The tables that the accounts' part leaves alone.
  account_found :
      (id name display password : String) (role : UserRole) (s : Session) {u : User}
      → (find_or_create crypto o draws getenv id name display password role s).0 ≡ ok u
      → let s' = (find_or_create crypto o draws getenv id name display password role s).1 in
        (select (has_username name) s'.work.users ≡ u ∷ [])
  unfolding find_or_create create_user
  account_found id name display password role s {u} h =
      elim (select-cases (has_username name) s.work.users) [
        | inl e ↦ ground (
          arith,
          e,
          eq_refl name,
          select-append (has_username name) s.work.users
              (new_user crypto o.now id name display password role ∷ []),
        )
        | inr (inl (x, e, known)) ↦ ground (arith, e)
        | inr (inr (x, y, r, e)) ↦ absurd (ground (arith, e))
      ]

  account_others :
      (other id name display password : String) (role : UserRole) (s : Session)
      → (name == other) ≡ false
      → select
          (has_username other)
          (find_or_create crypto o draws getenv id name display password role s).1.work.users
        ≡ select (has_username other) s.work.users
  unfolding find_or_create create_user
  account_others other id name display password role s ne =
      elim (select-cases (has_username name) s.work.users) [
        | inl e ↦ ground (
          arith,
          e,
          ne,
          append_nil (select (has_username other) s.work.users),
          select-append (has_username other) s.work.users
              (new_user crypto o.now id name display password role ∷ []),
        )
        | inr (inl (x, e, known)) ↦ ground (arith, e)
        | inr (inr (x, y, r, e)) ↦ ground (arith, e)
      ]

  -- An account that is there is answered, and nothing changes.
  pub account_kept :
      (id name display password : String) (role : UserRole) (s : Session) {u : User}
      → select (has_username name) s.work.users ≡ u ∷ []
      → find_or_create crypto o draws getenv id name display password role s ≡ (ok u, s)
  unfolding find_or_create
  account_kept id name display password role s h = ground (arith, h)

  room_users :
      (ids : RoomIds) (now : ℕ) (a b title : String) (s : Session)
      → (get_or_create_private_conversation now ids a b title s).1.work.users ≡ s.work.users
  unfolding get_or_create_private_conversation
  room_users ids now a b title s = ground arith

  token_tables :
      (user_id : String) (s : Session)
      → let s' =
          (create_enrollment_token crypto o draws.enrollment_id draws.raw_token user_id
            "Primary Terminal" "cross-platform" 72 s).1 in
        (s'.work.users ≡ s.work.users)
        × (s'.work.conversations ≡ s.work.conversations)
        × (s'.work.participants ≡ s.work.participants)
  unfolding create_enrollment_token
  token_tables user_id s = ground arith

  furnish-tables :
      (a b : User) (s : Session) {r : Seeded}
      → (furnish crypto o draws getenv a b s).0 ≡ ok r
      → let (room, s') =
          get_or_create_private_conversation o.now draws.room a.id b.id "Private Sanctuary" s in
        let d' = (furnish crypto o draws getenv a b s).1.stored in
        (r.owner ≡ a)
        × (r.recipient ≡ b)
        × (room ≡ ok r.conversation)
        × (d'.users ≡ s.work.users)
        × (d'.conversations ≡ s'.work.conversations)
        × (d'.participants ≡ s'.work.participants)
  unfolding furnish
  furnish-tables a b s {r} done =
      let room_step =
        get_or_create_private_conversation o.now draws.room a.id b.id "Private Sanctuary" in
      let s' = (room_step s).1 in
      elim (Result-cases (room_step s).0) [
        | inr (x, e) ↦ absurd (ground (arith, e, done))
        | inl (c, e) ↦
            let tables = token_tables b.id s' in
            let users = room_users draws.room o.now a.id b.id "Private Sanctuary" s in
            ground (arith, e, done, tables, users)
      ]

  furnish-IsSeeded :
      (a b : User) (s : Session) {r : Seeded}
      → select (has_username "owner") s.work.users ≡ a ∷ []
      → select (has_username "recipient") s.work.users ≡ b ∷ []
      → (furnish crypto o draws getenv a b s).0 ≡ ok r
      → IsSeeded r (furnish crypto o draws getenv a b s).1.stored
  furnish-IsSeeded a b s {r} there here done =
      let d' = (furnish crypto o draws getenv a b s).1.stored in
      let (same_a, same_b, answered, users, cs, ps) = furnish-tables a b s done in
      let s' =
        (get_or_create_private_conversation o.now draws.room a.id b.id "Private Sanctuary" s).1 in
      record {
        owner = ap (select (has_username "owner")) users ∙ there ∙ ap (λ u. u ∷ []) (sym same_a);
        recipient =
            ap (select (has_username "recipient")) users ∙ here ∙ ap (λ u. u ∷ []) (sym same_b);
        room =
            ap2 (λ x y. first (shared_conversations x y d')) (ap (λ u. u.id) same_a)
              (ap (λ u. u.id) same_b)
            ∙ ap first (shared_same a.id b.id s'.work d' cs ps)
            ∙ room_found o.now draws.room a.id b.id "Private Sanctuary" s answered;
      }

  pub seed-IsSeeded :
      (d : Db) {r : Seeded}
      → (in_session (seed crypto o draws getenv) d).0 ≡ ok r
      → IsSeeded r (in_session (seed crypto o draws getenv) d).1
  unfolding seed
  seed-IsSeeded d {r} done =
      let (a, e, go) =
        bind_returns
          (find_or_create crypto o draws getenv draws.owner_id "owner" "Owner (Primary)"
            (owner_pass crypto o draws getenv) UserRole.owner)
          (λ owner.
            find_or_create crypto o draws getenv draws.recipient_id "recipient"
              "Recipient (Partner)" (recipient_pass crypto o draws getenv) UserRole.recipient
            >>= furnish crypto o draws getenv owner)
          (open_session d) done in
      let s1 =
        (find_or_create crypto o draws getenv draws.owner_id "owner" "Owner (Primary)"
          (owner_pass crypto o draws getenv) UserRole.owner (open_session d)).1 in
      let (b, f, onward) =
        bind_returns
          (find_or_create crypto o draws getenv draws.recipient_id "recipient" "Recipient (Partner)"
            (recipient_pass crypto o draws getenv) UserRole.recipient)
          (furnish crypto o draws getenv a) s1 (ap (λ p. p.0) (sym go) ∙ done) in
      let s2 =
        (find_or_create crypto o draws getenv draws.recipient_id "recipient" "Recipient (Partner)"
          (recipient_pass crypto o draws getenv) UserRole.recipient s1).1 in
      subst (λ p. IsSeeded r p.1.stored) (sym (go ∙ onward))
        (furnish-IsSeeded a b s2
          (account_others "owner" draws.recipient_id "recipient" "Recipient (Partner)"
              (recipient_pass crypto o draws getenv) UserRole.recipient s1 names_differ
            ∙ account_found draws.owner_id "owner" "Owner (Primary)"
                (owner_pass crypto o draws getenv) UserRole.owner (open_session d) e)
          (account_found draws.recipient_id "recipient" "Recipient (Partner)"
            (recipient_pass crypto o draws getenv) UserRole.recipient s1 f)
          (ap (λ p. p.0) (sym (go ∙ onward)) ∙ done))
