-- ===== src/WebSocket/Opening.antt =====
-- How a connection opens.
use relationship_os.Base.{ℕ, String, ◌≡◌, none, some, arith}
use relationship_os.Shared.Constants.{ErrorCode}
use relationship_os.Db.Rows.{Db}
use relationship_os.Db.Session.{ok, open_session}
use relationship_os.Auth.Account.{Origin, revoke_session}
use relationship_os.Auth.Token.{Jwt, Payload, valid, decode_access_token}
use relationship_os.Auth.Token.Laws.{revoked_closed}
use relationship_os.WebSocket.{
  ServerFrame, World, auth, say, find_user, try_token, authenticate, connect,
}

module _ (jwt : Jwt) where
  try_token_revoked :
      (o : Origin) (session_id actor_id : String) (d : Db) (now : ℕ) (token : String) (p : Payload)
      → (revoke_session o session_id actor_id (open_session d)).0 ≡ ok tt
      → jwt.decode now token ≡ valid p
      → p.session_id ≡ session_id
      → try_token jwt now token (revoke_session o session_id actor_id (open_session d)).1.stored
        ≡ none
  unfolding try_token decode_access_token find_user revoke_session
  try_token_revoked o session_id actor_id d now token p done decoded same =
      ground (arith, done, decoded, same, revoked_closed session_id d.sessions)

  -- After a session was revoked, no token of this session opens a connection, neither in the query
  -- nor in the first frame: the socket is told that the authentication failed, and nothing else
  -- changes.
  pub connect_revoked :
      (o : Origin) (session_id actor_id : String) (d : Db) (now later : ℕ) (first second : String)
      (p q : Payload) (ws : ℕ) (w : World)
      → (revoke_session o session_id actor_id (open_session d)).0 ≡ ok tt
      → w.db ≡ (revoke_session o session_id actor_id (open_session d)).1.stored
      → jwt.decode now first ≡ valid p
      → p.session_id ≡ session_id
      → jwt.decode later second ≡ valid q
      → q.session_id ≡ session_id
      → connect jwt now (some first) (auth later second) ws w
        ≡ say ws (ServerFrame.error_frame ErrorCode.auth_invalid) w
  unfolding connect authenticate
  connect_revoked o session_id actor_id d now later first second p q ws w done here dp sp dq sq =
      ground (
        arith,
        here,
        try_token_revoked o session_id actor_id d now first p done dp sp,
        try_token_revoked o session_id actor_id d later second q done dq sq,
      )
