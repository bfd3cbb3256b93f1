-- ===== src/Tests/Deploy.antt =====
-- A new deployment: its migrations, its first run of the script, its first requests, and the polls of
-- its worker.
use relationship_os.Base.{
  ℕ, ◌<>◌, String, String-discrete, true, false, ◌≡◌, ◌≢◌, ◌⊎◌, refl, none, some, List, [], ◌∷◌,
  ◌++◌, arith, eq_refl, ◌+◌, ◌≤◌, exists_row, All, length,
}
use relationship_os.Shared.Constants.{UserRole, ErrorCode}
use relationship_os.Shared.Errors.{forbidden}
use relationship_os.Db.Rows.{Db, Conversation, empty_db}
use relationship_os.Db.Session.{Session, ok, open_session, in_session}
use relationship_os.Message.Access.{
  RoomIds, new_room, create_room, get_or_create_private_conversation, verify_conversation_access,
}
use relationship_os.Message.Access.Room.{get_or_create_again}
use relationship_os.Auth.Account.{or_text, create_user, authenticate_user, new_session}
use relationship_os.Auth.Enrollment.{
  or_given, has_hash, new_enrollment, create_enrollment_token, redeem_enrollment_token,
}
use relationship_os.Middleware.{HttpRequest, is_login, too_many}
use relationship_os.Outbox.Worker.{is_waiting, Poll, run_loop}
use relationship_os.Outbox.Worker.Update.{left, budget}
use relationship_os.Outbox.Worker.Keys.{HasKeys}
use relationship_os.Outbox.Worker.Advance.{IsBefore}
use relationship_os.Outbox.Worker.Drain.{
  busy_polls, IsSpaced, IsHeld, run_loop-busy_polls, run_loop-drains,
}
use relationship_os.Seed.{SeedDraws, Seeded, find_or_create, furnish, seed, owner_pass}
use relationship_os.Seed.Again.{seed_again}
use relationship_os.Seed.Ready.{owner_row, recipient_row, room_row, seed_ready}
use relationship_os.App.{Cors, failed, service, unhandled, respond}
use relationship_os.App.Secured.{IsSecured, respond-IsSecured}
use relationship_os.Migration.{Database, apply, execute, migrate}
use relationship_os.Migration.Upgrade.{upgrade}
use relationship_os.Migration.Downgrade.{downgrade}
use relationship_os.Migration.Undo.{migrate-downgrade-upgrade}
use relationship_os.Tests.Data.{cfg, db}
use relationship_os.Tests.Worker.{one_attempt, ne_of_test}
use relationship_os.Tests.Accounts.{crypto, origin}

abbrev empty : Database
empty = record { tables = []; types = [] }

abbrev built : Database
built = elim (migrate true upgrade empty) [ none ↦ empty | some d ↦ d ]

upgraded : migrate true upgrade empty ≡ some built
unfolding String-discrete apply execute migrate
upgraded = refl

migrate-downgrade-upgrade_example :
    migrate true downgrade built ≡ some (record { tables = []; types = "userrole" ∷ [] })
migrate-downgrade-upgrade_example =
    migrate-downgrade-upgrade true empty built (λ name h. absurd cc) upgraded

-- The upgrade cannot be run again.
upgraded_again : migrate true upgrade (record { tables = []; types = "userrole" ∷ [] }) ≡ none
unfolding String-discrete apply execute migrate
upgraded_again = refl

abbrev poll_at : ℕ → Poll
poll_at now = record { now = now; ended = now + 2; attempts = λ id. one_attempt }

-- Six polls, five minutes apart: the first event has five attempts left, the second has one.
abbrev polls : List Poll
polls =
    poll_at 10
    ∷ poll_at 300000012
    ∷ poll_at 600000014
    ∷ poll_at 900000016
    ∷ poll_at 1200000018
    ∷ poll_at 1500000020
    ∷ []

outbox-HasKeys : HasKeys db.outbox
unfolding String-discrete
outbox-HasKeys = (refl, (refl, tt))

outbox-IsBefore : IsBefore 10 db.outbox
outbox-IsBefore = (omega arith, (omega arith, tt))

polls-IsSpaced : IsSpaced 10 polls
polls-IsSpaced =
    (omega arith, (omega arith, (omega arith, (omega arith, (omega arith, (omega arith, tt))))))

outbox_budget : budget db.outbox ≤ length polls
unfolding left
outbox_budget = omega arith

held : (now : ℕ) → IsHeld cfg (poll_at now)
held now id = record { marks = (refl, refl); settled = omega arith; marked = omega arith }

polls-IsHeld : All (IsHeld cfg) polls
polls-IsHeld = (
  held 10,
  (held 300000012, (held 600000014, (held 900000016, (held 1200000018, (held 1500000020, tt))))),
)

run_loop-drains_example : All (λ e. is_waiting e.status ≡ false) (run_loop cfg polls db).outbox
run_loop-drains_example =
    run_loop-drains cfg 10 polls db outbox-HasKeys polls-IsHeld outbox-IsBefore polls-IsSpaced
      outbox_budget

run_loop-busy_polls_example :
    busy_polls cfg polls db + budget (run_loop cfg polls db).outbox ≤ budget db.outbox
run_loop-busy_polls_example = run_loop-busy_polls cfg polls db outbox-HasKeys polls-IsHeld

abbrev room_ids : String → RoomIds
room_ids id = record {
  conversation = id;
  owner_participant = id <> "o";
  recipient_participant = id <> "r";
}

-- The two users before they have a room.
abbrev strangers : Db
strangers = record empty_db { users = db.users }

abbrev after_call : Session
after_call =
    (get_or_create_private_conversation 5 (room_ids "n") "ann" "bob" "New"
      (open_session strangers)).1

abbrev created : Conversation
created = new_room 5 "n" "New"

room_created :
    (get_or_create_private_conversation 5
      (room_ids "n")
      "ann"
      "bob"
      "New"
      (open_session strangers)).0
    ≡ ok created
unfolding String-discrete get_or_create_private_conversation create_room
room_created = refl

get_or_create_again_example :
    get_or_create_private_conversation 9 (room_ids "m") "ann" "bob" "Other" after_call
    ≡ (ok created, after_call)
get_or_create_again_example =
    get_or_create_again 5 9 (room_ids "n") (room_ids "m") "ann" "bob" "New" "Other"
      (open_session strangers) room_created

abbrev draws : String → SeedDraws
draws token = record {
  owner_id = "ann";
  owner_token = "t1";
  recipient_id = "bob";
  recipient_token = "t2";
  room = room_ids "c";
  enrollment_id = "e" <> token;
  raw_token = token;
}

abbrev getenv : String → String
getenv name = ""

abbrev deployed : Db
deployed = (in_session (seed crypto (origin 5) (draws "raw") getenv) empty_db).1

abbrev seeded : Seeded
seeded = record {
  owner = owner_row crypto (origin 5) (draws "raw") getenv;
  recipient = recipient_row crypto (origin 5) (draws "raw") getenv;
  conversation = room_row crypto (origin 5) (draws "raw") getenv;
  raw_token = "raw";
}

first_run : (in_session (seed crypto (origin 5) (draws "raw") getenv) empty_db).0 ≡ ok seeded
unfolding String-discrete seed furnish find_or_create create_user get_or_create_private_conversation
    create_room create_enrollment_token
first_run = refl

new_token : exists_row (has_hash (crypto.hash_token "raw2")) deployed.enrollments ≡ false
unfolding String-discrete seed furnish find_or_create create_user get_or_create_private_conversation
    create_room create_enrollment_token
new_token = refl

seed_again_example :
    let (result, last) = in_session (seed crypto (origin 9) (draws "raw2") getenv) deployed in
    (result ≡ ok (record seeded { raw_token = "raw2" }))
    × (last.users ≡ deployed.users)
    × (last.conversations ≡ deployed.conversations)
    × (last.participants ≡ deployed.participants)
    × (last.enrollments
        ≡ deployed.enrollments
          ++ (new_enrollment crypto 9 "eraw2" "raw2" "bob" "Primary Terminal" "cross-platform" 72
              ∷ []))
seed_again_example =
    seed_again crypto (origin 5) (origin 9) (draws "raw") (draws "raw2") getenv getenv empty_db
      first_run new_token

ann-ne-bob : ◌≢◌ {A = String} "ann" "bob"
unfolding String-discrete
ann-ne-bob = ne_of_test "ann" "bob" refl

verifies : (p : String) → crypto.verify_password p (crypto.hash_password p) ≡ true
verifies p = eq_refl ("#" <> p)

seed_ready_example :
    let d = deployed in
    let pass = owner_pass crypto (origin 5) (draws "raw") getenv in
    ((in_session (seed crypto (origin 5) (draws "raw") getenv) empty_db).0 ≡ ok seeded)
    × ((authenticate_user crypto (origin 9) "owner" pass (open_session d)).0 ≡ ok seeded.owner)
    × ((redeem_enrollment_token crypto cfg
          (origin 9)
          "s1"
          "t1"
          "raw"
          (some "phone")
          (some "android")
          (open_session d)).0
        ≡ ok (
          seeded.recipient,
          new_session crypto cfg 9 "s1" "t1" seeded.recipient
              (or_given (some "phone") "Primary Terminal")
              (or_given (some "android") "cross-platform"),
          "t1",
        ))
    × ((verify_conversation_access "c" "ann" UserRole.owner (open_session d)).0
        ≡ ok seeded.conversation)
    × ((verify_conversation_access "c" "bob" UserRole.recipient (open_session d)).0
        ≡ ok seeded.conversation)
seed_ready_example =
    seed_ready crypto (origin 5) (origin 9) (draws "raw") getenv cfg "s1" "t1" "phone" "android"
      verifies ann-ne-bob (omega arith)

abbrev request : HttpRequest
request = record {
  path = "/api/v1/conversations";
  method = "GET";
  client = some "1.2.3.4";
  request_id = "";
}

abbrev cors : Cors
cors = record {
  preflight = λ r. none;
  added = λ r. ("access-control-allow-credentials", "true") ∷ [];
}

-- Every endpoint raises `forbidden`.
respond-IsSecured_example :
    let reply =
      (respond
        (λ n. "1")
        cfg
        cors
        5
        "drawn"
        (λ r. failed (service forbidden))
        request
        (λ key. [])).0 in
    (cors.preflight request ≡ some reply)
    ⊎ (IsSecured cfg (or_text "" "drawn") (cors.added request) reply.response ⊎ (reply ≡ unhandled))
    ⊎ ((n : ℕ) × (reply.response.headers ≡ (too_many (λ n. "1") n).headers ++ cors.added request)
        × (reply.response.status ≡ 429)
        × (reply.code ≡ some ErrorCode.rate_limited)
        × (is_login request ≡ true))
respond-IsSecured_example =
    respond-IsSecured (λ n. "1") cfg cors 5 "drawn" (λ r. failed (service forbidden)) request
      (λ key. [])
