-- ===== src/Auth/Routes/Laws.antt =====
-- A login opens a session that the API then accepts, and a failed request leaves nothing.
use relationship_os.Base.{
  ℕ, ◌+◌, ◌*◌, ◌≤◌, String, true, false, ◌||◌, ◌≡◌, refl, List, [], ◌∷◌, ◌++◌, arith, ◌==◌, select,
  select-append, select-first, exists_row, some, none,
}
use relationship_os.Shared.Config.{Settings}
use relationship_os.Db.Rows.{User, LoginSession}
use relationship_os.Db.Session.{Session, ok}
use relationship_os.Presence.{seconds}
use relationship_os.Auth.Account.{
  Crypto, Origin, is_empty, has_username, new_session, authenticate_user, create_session,
}
use relationship_os.Auth.Enrollment.{or_given}
use relationship_os.Auth.Token.{
  Jwt, IsLawful, Claims, is_open_session, is_active_user, create_access_token,
  get_current_user_and_session, find_auth,
}
use relationship_os.Auth.Routes.{Draws, token_response, login}

module _ (cfg : Settings) (crypto : Crypto) (jwt : Jwt) where
  login-session :
      (o : Origin) (draws : Draws) (username password device platform : String) (s : Session)
      (u : User)
      → select (has_username username) s.work.users ≡ u ∷ []
      → u.is_active ≡ true
      → crypto.verify_password password u.hashed_password ≡ true
      → exists_row
          (λ l. l.id == draws.id || l.token_hash == crypto.hash_token draws.raw_token)
          s.work.sessions
        ≡ false
      → let (result, s') = login cfg crypto jwt o draws username password device platform s in
        (s'.work.sessions
          ≡ s.work.sessions
            ++ (new_session crypto cfg o.now draws.id draws.raw_token u device platform ∷ []))
        × (s'.work.users ≡ s.work.users)
        × (result ≡ ok (token_response cfg crypto jwt o.now u draws.id device))
  unfolding login authenticate_user create_session
  login-session o draws username password device platform s u named active right fresh =
      ground arith

no_open_session :
    (i h : String) (ls : List LoginSession)
    → exists_row (λ l. l.id == i || l.token_hash == h) ls ≡ false
    → select (is_open_session i) ls ≡ []
no_open_session i h [] e = refl
no_open_session i h (l ∷ ls) e = ground (arith, no_open_session i h ls)

module _ (cfg : Settings) (crypto : Crypto) (jwt : Jwt) (law : IsLawful jwt) where
  open_token :
      (now later : ℕ) (u : User) (l : LoginSession) (device : String) (s : Session)
      → now ≤ later
      → later + seconds 1 ≤ now + seconds (cfg.access_token_expire_minutes * 60)
      → is_empty u.id ≡ false
      → is_empty l.id ≡ false
      → select (is_open_session l.id) s.work.sessions ≡ l ∷ []
      → later ≤ l.expires_at
      → select (is_active_user u.id) s.work.users ≡ u ∷ []
      → (get_current_user_and_session jwt later
          (record {
            bearer = some (create_access_token jwt cfg now u l.id (some device));
            cookie = none;
          })
          s).0
        ≡ ok (record { user = u; session = record l { last_seen_at = later }; role = u.role })
  unfolding get_current_user_and_session find_auth create_access_token
  open_token now later u l device s after soon ne ne' found fresh who =
      let claims : Claims = record {
        sub = u.id;
        username = u.username;
        role = u.role;
        session_id = l.id;
        device_name = or_given (some device) "unknown";
        exp = now + seconds (cfg.access_token_expire_minutes * 60);
        iat = now;
      } in
      ground (arith, law.decode-encode later claims after soon, law.encode-is_empty claims)

  -- Assumed that PyJWT reads a token back from its issue until its expiry: with the right password of the only
  -- user of a name and of a key, who is active, and with a fresh session key and token, the login
  -- answers a token, and this token is accepted in what the session sees afterwards, as this user
  -- and for the new session, from the login until one second before it expires.
  pub login-accepted :
      (o : Origin) (draws : Draws) (username password device platform : String) (s : Session)
      (u : User) (later : ℕ)
      → select (has_username username) s.work.users ≡ u ∷ []
      → select (is_active_user u.id) s.work.users ≡ u ∷ []
      → crypto.verify_password password u.hashed_password ≡ true
      → exists_row
          (λ l. l.id == draws.id || l.token_hash == crypto.hash_token draws.raw_token)
          s.work.sessions
        ≡ false
      → is_empty u.id ≡ false
      → is_empty draws.id ≡ false
      → o.now ≤ later
      → later + seconds 1 ≤ o.now + seconds (cfg.access_token_expire_minutes * 60)
      → let (result, s') = login cfg crypto jwt o draws username password device platform s in
        let r = token_response cfg crypto jwt o.now u draws.id device in
        let l = new_session crypto cfg o.now draws.id draws.raw_token u device platform in
        (result ≡ ok r)
        × ((get_current_user_and_session jwt later
              (record { bearer = some r.access_token; cookie = none })
              s').0
            ≡ ok (record { user = u; session = record l { last_seen_at = later }; role = u.role }))
  login-accepted o draws username password device platform s u later named who right fresh ne ne'
        after soon =
      let s' = (login cfg crypto jwt o draws username password device platform s).1 in
      let l = new_session crypto cfg o.now draws.id draws.raw_token u device platform in
      let active : u.is_active ≡ true =
        ground (arith, select-first (is_active_user u.id) s.work.users u [] who) in
      let (added, kept, answered) =
        login-session cfg crypto jwt o draws username password device platform s u named active
          right fresh in
      let found : select (is_open_session draws.id) s'.work.sessions ≡ l ∷ [] =
        rw
          (
            added,
            select-append (is_open_session draws.id) s.work.sessions (l ∷ []),
            no_open_session draws.id (crypto.hash_token draws.raw_token) s.work.sessions fresh,
          )
          (ground arith) in
      (
        answered,
        open_token o.now later u l device s' after soon ne ne' found (omega arith) (rw kept who),
      )
