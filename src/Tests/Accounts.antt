-- ===== src/Tests/Accounts.antt =====
-- Logins, sessions, enrollment and tokens. The test's tokens spell out their claims.
use Prim.Native.Char.{code}
use relationship_os.Base.{
  ℕ, String, String-discrete, ◌<>◌, true, false, ◌≡◌, refl, none, some, [], ◌∷◌, arith, ◌==◌, eqb,
  if◌then◌else◌,
}
use relationship_os.Shared.Constants.{UserRole}
use relationship_os.Shared.Errors.{auth_invalid, forbidden}
use relationship_os.Db.Rows.{User, Db, LoginSession, EnrollmentToken}
use relationship_os.Db.Session.{Session, err, open_session}
use relationship_os.Auth.Account.{Crypto, Origin, is_empty, create_session, revoke_session}
use relationship_os.Auth.Enrollment.{redeem_enrollment_token}
use relationship_os.Auth.Enrollment.Laws.{redeem_twice}
use relationship_os.Auth.Token.{
  Jwt, IsLawful, Payload, valid, Credentials, find_auth, get_current_user_and_session,
}
use relationship_os.Auth.Token.Laws.{revoke_session-closes}
use relationship_os.Auth.Routes.{Draws}
use relationship_os.Base.Int.{pos}
use relationship_os.Conversations.{
  SendDraws, get_message_history, search_conversation, post_message, mark_conversation_read,
}
use relationship_os.Conversations.Guard.{routes_refuse}
use relationship_os.Tests.Data.{dump, payload, cfg, user, db}

abbrev pub crypto : Crypto
crypto = record {
  hash_password = λ p. "#" <> p;
  verify_password = λ p h. ("#" <> p) == h;
  hash_token = λ t. "h" <> t;
}

abbrev pub origin : ℕ → Origin
origin now = record { now = now; ip_address = some "1.2.3.4"; user_agent = none }

abbrev pub open_login : LoginSession
open_login = record {
  id = "s1";
  user_id = "ann";
  device_name = "phone";
  platform = "android";
  token_hash = "ht1";
  is_revoked = false;
  expires_at = 1000;
  created_at = 0;
  last_seen_at = 0;
}

abbrev enrollment : EnrollmentToken
enrollment = record {
  id = "e1";
  token_hash = "hraw";
  user_id = "bob";
  device_name = "tablet";
  platform = "android";
  is_used = false;
  is_revoked = false;
  expires_at = 1000;
  created_at = 0;
}

abbrev pub accounts : Db
accounts = record db { sessions = open_login ∷ []; enrollments = enrollment ∷ [] }

abbrev pub s0 : Session
s0 = open_session accounts

-- A token: each character of the account after an exclamation mark, a dash, and the session.
abbrev pub spell : String → String → String
spell String.[] i = String.◌∷◌ "-" i
spell (String.◌∷◌ c s) i = String.◌∷◌ "!" (String.◌∷◌ c (spell s i))

abbrev pub unspell : String → String × String
unspell String.[] = ("", "")
unspell (String.◌∷◌ x String.[]) = ("", "")
unspell (String.◌∷◌ x (String.◌∷◌ c s)) =
    let rest = unspell s in
    if eqb (code x) 33 then (String.◌∷◌ c rest.0, rest.1) else ("", String.◌∷◌ c s)

abbrev pub payload_of : String × String → Payload
payload_of (sub, session_id) = record { sub = sub; session_id = session_id }

abbrev pub jwt : Jwt
jwt = record {
  encode = λ c. spell c.sub c.session_id;
  decode = λ now t. valid (payload_of (unspell t));
}

unspell-spell : (s i : String) → unspell (spell s i) ≡ (s, i)
unspell-spell String.[] String.[] = refl
unspell-spell String.[] (String.◌∷◌ c i) = refl
unspell-spell (String.◌∷◌ c s) i = rw (unspell-spell s i) refl

spell-is_empty : (s i : String) → is_empty (spell s i) ≡ false
spell-is_empty String.[] i = refl
spell-is_empty (String.◌∷◌ c s) i = refl

pub jwt-IsLawful : IsLawful jwt
jwt-IsLawful = record {
  decode-encode = λ now c after soon. rw (unspell-spell c.sub c.session_id) refl;
  encode-is_empty = λ c. spell-is_empty c.sub c.session_id;
}

redeem_twice_example :
    (redeem_enrollment_token crypto cfg
      (origin 6)
      "s3"
      "t3"
      "raw"
      (some "phone")
      none
      (redeem_enrollment_token crypto cfg (origin 5) "s2" "t2" "raw" none none s0).1).0
    ≡ err auth_invalid
unfolding String-discrete redeem_enrollment_token create_session
redeem_twice_example =
    redeem_twice crypto cfg (origin 5) (origin 6) "s2" "s3" "t2" "t3" "raw" none (some "phone") none
      none s0 refl

abbrev credentials : Credentials
credentials = record { bearer = some (spell "ann" "s1"); cookie = none }

revoke_session-closes_example :
    (find_auth 7
      (record { sub = "ann"; session_id = "s1" })
      (revoke_session (origin 5) "s1" "ann" s0).1).0
    ≡ err auth_invalid
unfolding String-discrete revoke_session
revoke_session-closes_example =
    revoke_session-closes (origin 5) "s1" "ann" s0 7 (record { sub = "ann"; session_id = "s1" })
      refl refl

abbrev pub draws : Draws
draws = record { id = "s2"; raw_token = "t2" }

abbrev eve : User
eve = user "eve" UserRole.recipient

abbrev eve_session : Session
eve_session = open_session (record accounts {
  users = eve ∷ db.users;
  sessions = record open_login { id = "s9"; user_id = "eve" } ∷ [];
})

abbrev eve_credentials : Credentials
eve_credentials = record { bearer = some (spell "eve" "s9"); cookie = none }

abbrev send_draws : SendDraws
send_draws = record {
  message_id = "m3";
  discord_delivery_id = "d1";
  webhook_delivery_id = "d2";
  outbox_id = "o3";
  event_id = "e3";
}

routes_refuse_example :
    ((get_message_history jwt 7 eve_credentials "c" none none (pos 50) eve_session).0
      ≡ err forbidden)
    × ((search_conversation jwt 7 eve_credentials (λ q b. true) "c" "hi" (pos 50) eve_session).0
        ≡ err forbidden)
    × ((post_message jwt 7 eve_credentials dump cfg send_draws "c" "k" payload eve_session).0
        ≡ err forbidden)
    × ((mark_conversation_read jwt 7 eve_credentials "c" (pos 2) eve_session).0 ≡ err forbidden)
unfolding String-discrete get_current_user_and_session find_auth
routes_refuse_example =
    routes_refuse jwt 7 eve_credentials dump cfg send_draws (λ q b. true) "c" "k" "hi" payload none
      none (pos 50) (pos 2) eve_session refl refl refl (omega arith)
