-- ===== src/WebSocket.antt =====
-- `websocket_endpoint` of apps/api/src/routers/websocket.py: the frames, the state that the
-- connections share, and how a connection opens. A socket is known by a number, as in Hub. `sent`
-- lists the frames that the sockets took, in order; a send to the connection's own socket that
-- raises is the incoming event `failure` of WebSocket/Loop.
pub mod Frames
pub mod Loop
pub mod Keeps
pub mod Numbering
pub mod Members
pub mod Safety
pub mod Replay
pub mod Opening
pub mod Closing
use relationship_os.Base.{
  ℕ, String, Bool, true, false, ◌&&◌, not, Option, none, some, List, [], ◌∷◌, ◌++◌, map, ltb, eqb,
  select, if◌then◌else◌,
}
use relationship_os.Base.Int.{ℤ}
use relationship_os.Shared.Constants.{UserRole, PresenceState, ErrorCode}
use relationship_os.Db.Rows.{Db, User, Message, LoginSession}
use relationship_os.Db.Session.{
  Action, Result, ok, err, ◌>>=◌, ◌>>◌, pure, query, commit, scalar_one_or_none, in_session,
}
use relationship_os.Presence.{update_presence}
use relationship_os.Hub.{ConnectionManager, broadcast_to_room}
use relationship_os.Auth.Account.{is_empty}
use relationship_os.Auth.Enrollment.{has_user_id}
use relationship_os.Auth.Token.{Jwt, Payload, is_open_session, decode_access_token}

-- The dictionary `user_data`
pub record UserData : Type 0 where
  pub user_id : String
  pub session_id : String
  pub username : String
  pub display_name : String
  pub role : UserRole
  pub device_name : String

-- The frames that the server sends; the timestamps are left out.
pub data ServerFrame : Type 0 where
  error_frame : ErrorCode → ServerFrame
  ack : String → UserRole → ServerFrame
  pong : ServerFrame
  replay : String → List Message → Option ℤ → ServerFrame
  presence : String → Option String → PresenceState → ServerFrame
  event : Message → String → ServerFrame
  typing : String → String → String → Bool → ServerFrame
  read : String → String → ℤ → ServerFrame

-- A connection that was opened, with `current_conv_id`.
pub record Connection : Type 0 where
  pub user : UserData
  pub current_conv_id : Option String
  pub is_open : Bool

pub record World : Type 0 where
  pub db : Db
  pub hub : ConnectionManager
  pub connections : ℕ → Option Connection
  pub sent : List (ℕ × ServerFrame)

abbrev pub say : ℕ → ServerFrame → World → World
say ws frame w = record w { sent = w.sent ++ ((ws, frame) ∷ []) }

-- `ws_manager.broadcast_to_room`, with the frames that arrive.
abbrev pub broadcast : (ℕ → Bool) → String → ServerFrame → Option ℕ → World → World
broadcast alive conv_id frame exclude_ws w =
    let (reached, hub) = broadcast_to_room alive conv_id exclude_ws w.hub in
    record w { hub = hub; sent = w.sent ++ map (λ ws. (ws, frame)) reached }

abbrev pub put_connection : ℕ → Connection → (ℕ → Option Connection) → ℕ → Option Connection
put_connection ws conn conns x = if eqb x ws then some conn else conns x

abbrev pub user_data : User → LoginSession → UserData
user_data user session = record {
  user_id = user.id;
  session_id = session.id;
  username = user.username;
  display_name = user.display_name;
  role = user.role;
  device_name = session.device_name;
}

-- `if user and user.is_active`
abbrev check_user : Option User → LoginSession → Option UserData
check_user none session = none
check_user (some user) session = if user.is_active then some (user_data user session) else none

abbrev check_session : ℕ → Payload → Option LoginSession → Action (Option UserData)
check_session now payload none = pure none
check_session now payload (some session) =
    if ltb now session.expires_at
    then (do
      rows ← query (λ d. select (has_user_id payload.sub) d.users)
      user ← scalar_one_or_none rows
      pure (check_user user session))
    else pure none

-- The lookup of a decoded token's session and user.
unfoldable pub find_user : ℕ → Payload → Action (Option UserData)
find_user now payload = do
  rows ← query (λ d. select (is_open_session payload.session_id) d.sessions)
  session ← scalar_one_or_none rows
  check_session now payload session

-- The presence of a user whose connection is open, committed.
unfoldable pub go_online : ℕ → UserData → Action (Unit {0})
unfolding update_presence
go_online now user = do
  update_presence now user.user_id PresenceState.online user.device_name
  commit

-- What is received within ten seconds if the query has authenticated nobody: an `auth` frame with
-- its time and its token, or anything else.
pub data FirstFrame : Type 0 where
  auth : ℕ → String → FirstFrame
  other nothing : FirstFrame

-- `except Exception`
abbrev or_none : Result (Option UserData) → Option UserData
or_none (ok found) = found
or_none (err e) = none

module _ (jwt : Jwt) where
  unfoldable pub try_token : ℕ → String → Db → Option UserData
  unfolding decode_access_token find_user
  try_token now token d =
      or_none (in_session (decode_access_token jwt now token >>= find_user now) d).0

  abbrev pub try_query : ℕ → Option String → Db → Option UserData
  try_query now none d = none
  try_query now (some token) d = if is_empty token then none else try_token now token d

  abbrev pub try_frame : FirstFrame → Db → Option UserData
  try_frame (auth now token) d = try_token now token d
  try_frame _ d = none

  unfoldable pub authenticate : ℕ → Option String → FirstFrame → Db → Option UserData
  authenticate now token init d = elim (try_query now token d) [
    | some user ↦ some user
    | none ↦ try_frame init d
  ]

  abbrev fresh_connection : UserData → Connection
  fresh_connection user = record { user = user; current_conv_id = none; is_open = true }

  -- The endpoint up to its loop: it refuses and closes, or it records the user as online and
  -- acknowledges.
  unfoldable pub connect : ℕ → Option String → FirstFrame → ℕ → World → World
  unfolding authenticate go_online
  connect now token init ws w = elim (authenticate now token init w.db) [
    | none ↦ say ws (ServerFrame.error_frame ErrorCode.auth_invalid) w
    | some user ↦
        let (r, d) = in_session (go_online now user) w.db in
        elim r [
          | err e ↦ record w { db = d }
          | ok _ ↦ say ws (ServerFrame.ack user.user_id user.role) (record w {
            db = d;
            connections = put_connection ws (fresh_connection user) w.connections;
          })
        ]
  ]
