-- ===== src/Seed/Again.antt =====
-- The script on a database that it has seeded before.
use relationship_os.Base.{String, false, ◌≡◌, [], ◌∷◌, ◌++◌, arith, exists_row}
use relationship_os.Shared.Constants.{UserRole}
use relationship_os.Db.Rows.{Db}
use relationship_os.Db.Session.{ok, open_session, in_session}
use relationship_os.Message.Access.Room.{room_kept}
use relationship_os.Auth.Account.{Crypto, Origin}
use relationship_os.Auth.Enrollment.{has_hash, new_enrollment, create_enrollment_token}
use relationship_os.Seed.{SeedDraws, Seeded, furnish, seed, owner_pass, recipient_pass}
use relationship_os.Seed.First.{IsSeeded, account_kept, seed-IsSeeded}

module _ (crypto : Crypto) (o : Origin) (draws : SeedDraws) (getenv : String → String) where
  -- A run on a database that was seeded.
  furnish_again :
      (r : Seeded) (d : Db)
      → IsSeeded r d
      → exists_row (has_hash (crypto.hash_token draws.raw_token)) d.enrollments ≡ false
      → let (result, s') = furnish crypto o draws getenv r.owner r.recipient (open_session d) in
        (result ≡ ok (record r { raw_token = draws.raw_token }))
        × (s'.stored.users ≡ d.users)
        × (s'.stored.conversations ≡ d.conversations)
        × (s'.stored.participants ≡ d.participants)
        × (s'.stored.enrollments
            ≡ d.enrollments
              ++ (new_enrollment crypto o.now draws.enrollment_id draws.raw_token r.recipient.id
                    "Primary Terminal" "cross-platform" 72
                  ∷ []))
  unfolding furnish create_enrollment_token
  furnish_again r d seeded fresh =
      let kept =
        room_kept o.now draws.room r.owner.id r.recipient.id "Private Sanctuary" (open_session d)
          seeded.room in
      ground (arith, fresh, kept)

  seed_furnishes :
      (r : Seeded) (d : Db)
      → IsSeeded r d
      → seed crypto o draws getenv (open_session d)
        ≡ furnish crypto o draws getenv r.owner r.recipient (open_session d)
  unfolding seed
  seed_furnishes r d seeded = ground (
    arith,
    account_kept crypto o draws getenv draws.owner_id "owner" "Owner (Primary)"
        (owner_pass crypto o draws getenv) UserRole.owner (open_session d) seeded.owner,
    account_kept crypto o draws getenv draws.recipient_id "recipient" "Recipient (Partner)"
        (recipient_pass crypto o draws getenv) UserRole.recipient (open_session d) seeded.recipient,
  )

-- After a run of the script that returned, another run, at any time and with other passwords in the
-- environment, whose token is new returns the same accounts and the same room; it leaves the
-- accounts, the conversations and their participants as they are, and adds one enrollment token for
-- the recipient.
pub seed_again :
    (crypto : Crypto) (o o' : Origin) (draws draws' : SeedDraws) (getenv getenv' : String → String)
    (d : Db) {r : Seeded}
    → (in_session (seed crypto o draws getenv) d).0 ≡ ok r
    → let d' = (in_session (seed crypto o draws getenv) d).1 in
      exists_row (has_hash (crypto.hash_token draws'.raw_token)) d'.enrollments ≡ false
      → let (result, last) = in_session (seed crypto o' draws' getenv') d' in
        (result ≡ ok (record r { raw_token = draws'.raw_token }))
        × (last.users ≡ d'.users)
        × (last.conversations ≡ d'.conversations)
        × (last.participants ≡ d'.participants)
        × (last.enrollments
            ≡ d'.enrollments
              ++ (new_enrollment crypto o'.now draws'.enrollment_id draws'.raw_token r.recipient.id
                    "Primary Terminal" "cross-platform" 72
                  ∷ []))
seed_again crypto o o' draws draws' getenv getenv' d {r} done fresh =
    let d' = (in_session (seed crypto o draws getenv) d).1 in
    let seeded = seed-IsSeeded crypto o draws getenv d done in
    ground (
      arith,
      seed_furnishes crypto o' draws' getenv' r d' seeded,
      furnish_again crypto o' draws' getenv' r d' seeded fresh,
    )
