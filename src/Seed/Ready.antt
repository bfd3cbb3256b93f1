-- ===== src/Seed/Ready.antt =====
-- A new deployment after the script.
use relationship_os.Base.{
  ◌+◌, ◌*◌, ◌≤◌, String, String-discrete, true, false, ◌≡◌, ◌≢◌, refl, some, List, [], ◌∷◌, arith,
  ◌==◌, eq_refl,
}
use relationship_os.Shared.Constants.{UserRole}
use relationship_os.Shared.Config.{Settings}
use relationship_os.Db.Rows.{
  Db, User, Conversation, ConversationParticipant, EnrollmentToken, empty_db,
}
use relationship_os.Db.Session.{ok, open_session, in_session}
use relationship_os.Presence.{seconds}
use relationship_os.Message.Access.{
  new_room, new_participant, create_room, get_or_create_private_conversation,
  verify_conversation_access,
}
use relationship_os.Auth.Account.{
  Crypto, Origin, new_user, new_session, create_user, authenticate_user, create_session,
}
use relationship_os.Auth.Enrollment.{
  or_given, new_enrollment, create_enrollment_token, redeem_enrollment_token,
}
use relationship_os.Seed.{SeedDraws, find_or_create, furnish, seed, owner_pass, recipient_pass}

owner_is_first : ("owner" == "recipient") ≡ false
unfolding String-discrete
owner_is_first = refl

recipient_is_second : ("recipient" == "owner") ≡ false
unfolding String-discrete
recipient_is_second = refl

module _ (crypto : Crypto) (o : Origin) (draws : SeedDraws) (getenv : String → String) where
  abbrev pub owner_row : User
  owner_row =
      new_user crypto o.now draws.owner_id "owner" "Owner (Primary)"
        (owner_pass crypto o draws getenv) UserRole.owner

  abbrev pub recipient_row : User
  recipient_row =
      new_user crypto o.now draws.recipient_id "recipient" "Recipient (Partner)"
        (recipient_pass crypto o draws getenv) UserRole.recipient

  abbrev pub token_row : EnrollmentToken
  token_row =
      new_enrollment crypto o.now draws.enrollment_id draws.raw_token draws.recipient_id
        "Primary Terminal" "cross-platform" 72

  abbrev pub room_row : Conversation
  room_row = new_room o.now draws.room.conversation "Private Sanctuary"

  abbrev pub participant_rows : List ConversationParticipant
  participant_rows =
      new_participant o.now draws.room.owner_participant draws.room.conversation draws.owner_id
      ∷ new_participant o.now draws.room.recipient_participant draws.room.conversation
          draws.recipient_id
      ∷ []

  seed_empty :
      draws.owner_id ≢ draws.recipient_id
      → let (result, d) = in_session (seed crypto o draws getenv) empty_db in
        (result
          ≡ ok (record {
            owner = owner_row;
            recipient = recipient_row;
            conversation = room_row;
            raw_token = draws.raw_token;
          }))
        × (d.users ≡ owner_row ∷ recipient_row ∷ [])
        × (d.conversations ≡ room_row ∷ [])
        × (d.participants ≡ participant_rows)
        × (d.enrollments ≡ token_row ∷ [])
        × (d.sessions ≡ [])
  unfolding seed furnish find_or_create create_user get_or_create_private_conversation create_room
      create_enrollment_token
  seed_empty ne = ground (
    arith,
    ne,
    owner_is_first,
    eq_refl draws.owner_id,
    eq_refl draws.recipient_id,
    eq_refl draws.room.conversation,
  )

  -- A database with the rows of a first run.
  record HasRows (d : Db) : Type 0 where
    users : d.users ≡ owner_row ∷ recipient_row ∷ []
    conversations : d.conversations ≡ room_row ∷ []
    participants : d.participants ≡ participant_rows
    enrollments : d.enrollments ≡ token_row ∷ []
    sessions : d.sessions ≡ []

  owner_enters :
      (d : Db)
      → draws.owner_id ≢ draws.recipient_id
      → HasRows d
      → (verify_conversation_access draws.room.conversation draws.owner_id UserRole.owner
          (open_session d)).0
        ≡ ok room_row
  unfolding verify_conversation_access
  owner_enters d ne rows =
      ground (arith, ne, eq_refl draws.room.conversation, eq_refl draws.owner_id)

  recipient_enters :
      (d : Db)
      → draws.owner_id ≢ draws.recipient_id
      → HasRows d
      → (verify_conversation_access draws.room.conversation draws.recipient_id UserRole.recipient
          (open_session d)).0
        ≡ ok room_row
  unfolding verify_conversation_access
  recipient_enters d ne rows =
      ground (arith, ne, eq_refl draws.room.conversation, eq_refl draws.recipient_id)

  module _
      (verifies : (p : String) → crypto.verify_password p (crypto.hash_password p) ≡ true) where
    owner_logs_in :
        (d : Db) (o' : Origin)
        → HasRows d
        → (authenticate_user crypto o' "owner"
            (owner_pass crypto o draws getenv)
            (open_session d)).0
          ≡ ok owner_row
    unfolding authenticate_user
    owner_logs_in d o' rows = ground (
      arith,
      verifies (owner_pass crypto o draws getenv),
      owner_is_first,
      recipient_is_second,
      eq_refl "owner",
    )

  token_redeemed :
      (d : Db) (o' : Origin) (cfg : Settings) (id token device platform : String)
      → draws.owner_id ≢ draws.recipient_id
      → o'.now ≤ o.now + seconds (72 * 3600)
      → HasRows d
      → (redeem_enrollment_token crypto cfg o' id token draws.raw_token
          (some device)
          (some platform)
          (open_session d)).0
        ≡ ok (
          recipient_row,
          new_session crypto cfg o'.now id token recipient_row
              (or_given (some device) "Primary Terminal")
              (or_given (some platform) "cross-platform"),
          token,
        )
  unfolding redeem_enrollment_token create_session
  token_redeemed d o' cfg id token device platform ne time rows =
      ground
        (arith, ne, time, eq_refl draws.recipient_id, eq_refl (crypto.hash_token draws.raw_token))

  seed_empty-HasRows :
      draws.owner_id ≢ draws.recipient_id
      → HasRows (in_session (seed crypto o draws getenv) empty_db).1
  seed_empty-HasRows ne =
      let (_, us, cs, ps, es, ss) = seed_empty ne in
      record { users = us; conversations = cs; participants = ps; enrollments = es; sessions = ss }

-- A run of the script on an empty database, with two different draws for the accounts' keys, makes
-- the deployment usable: the owner logs in with the password that the script has set, the
-- recipient's token is redeemed until 72 hours have passed, for a session of the recipient, and
-- both are let into the room that the script answers. Of bcrypt it is assumed that a password
-- verifies against its own hash.
pub seed_ready :
    (crypto : Crypto) (o o' : Origin) (draws : SeedDraws) (getenv : String → String)
    (cfg : Settings) (id token device platform : String)
    → ((p : String) → crypto.verify_password p (crypto.hash_password p) ≡ true)
    → draws.owner_id ≢ draws.recipient_id
    → o'.now ≤ o.now + seconds (72 * 3600)
    → let d = (in_session (seed crypto o draws getenv) empty_db).1 in
      let owner = owner_row crypto o draws getenv in
      let recipient = recipient_row crypto o draws getenv in
      let room = room_row crypto o draws getenv in
      ((in_session (seed crypto o draws getenv) empty_db).0
        ≡ ok (record {
          owner = owner;
          recipient = recipient;
          conversation = room;
          raw_token = draws.raw_token;
        }))
      × ((authenticate_user crypto o' "owner" (owner_pass crypto o draws getenv) (open_session d)).0
          ≡ ok owner)
      × ((redeem_enrollment_token crypto cfg o' id token draws.raw_token
            (some device)
            (some platform)
            (open_session d)).0
          ≡ ok (
            recipient,
            new_session crypto cfg o'.now id token recipient
                (or_given (some device) "Primary Terminal")
                (or_given (some platform) "cross-platform"),
            token,
          ))
      × ((verify_conversation_access room.id owner.id UserRole.owner (open_session d)).0 ≡ ok room)
      × ((verify_conversation_access room.id recipient.id UserRole.recipient (open_session d)).0
          ≡ ok room)
seed_ready crypto o o' draws getenv cfg id token device platform verifies ne time =
    let d = (in_session (seed crypto o draws getenv) empty_db).1 in
    let rows = seed_empty-HasRows crypto o draws getenv ne in
    (
      (seed_empty crypto o draws getenv ne).0,
      owner_logs_in crypto o draws getenv verifies d o' rows,
      token_redeemed crypto o draws getenv d o' cfg id token device platform ne time rows,
      owner_enters crypto o draws getenv d ne rows,
      recipient_enters crypto o draws getenv d ne rows,
    )
