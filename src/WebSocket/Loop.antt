-- ===== src/WebSocket/Loop.antt =====
-- The life of the connections: what arrives at each socket, in one order, and the end of a
-- connection. Frames of one socket are handled one after another, and a handler as one step.
use relationship_os.Base.{ℕ, String, false, ◌||◌, Option, none, some, List, [], ◌∷◌, if◌then◌else◌}
use relationship_os.Shared.Constants.{PresenceState}
use relationship_os.Shared.Event.{CanonicalMessageEvent}
use relationship_os.Shared.Config.{Settings}
use relationship_os.Db.Session.{Action, Result, ok, err, ◌>>◌, commit, in_session}
use relationship_os.Presence.{update_presence}
use relationship_os.Hub.{unregister, has_other_conns}
use relationship_os.Auth.Account.{is_empty}
use relationship_os.Auth.Token.{Jwt}
use relationship_os.WebSocket.{
  UserData, ServerFrame, Connection, World, FirstFrame, broadcast, connect, put_connection,
}
use relationship_os.WebSocket.Frames.{ClientFrame, Moment, handle_frame}

pub data Incoming : Type 0 where
  opened : Moment → Option String → FirstFrame → Incoming
  frame : Moment → ClientFrame → Incoming
  disconnected : Moment → Incoming
  failure : Incoming

unfoldable pub go_offline : ℕ → String → Action (Unit {0})
unfolding update_presence
go_offline now user_id = do update_presence now user_id PresenceState.offline ""; commit

-- `except WebSocketDisconnect`: the presence is told only if the user has no other socket in a
-- room.
unfoldable pub on_disconnect : Moment → ℕ → UserData → World → World
unfolding go_offline
on_disconnect at ws user w =
    let (meta, hub) = unregister ws w.hub in
    let gone = record w { hub = hub } in
    elim meta [
      | none ↦ gone
      | some m ↦
          if is_empty m.conversation_id || has_other_conns user.user_id hub
          then gone
          else (let (r, d) = in_session (go_offline at.now user.user_id) w.db in
              let told = record gone { db = d } in
              elim r [
                | err e ↦ told
                | ok _ ↦
                    broadcast at.alive m.conversation_id
                      (ServerFrame.presence user.user_id none PresenceState.offline) none told
              ])
    ]

-- `except Exception`
abbrev pub on_error : ℕ → World → World
on_error ws w = record w { hub = (unregister ws w.hub).1 }

abbrev pub close : ℕ → Connection → World → World
close ws conn w = record w {
  connections = put_connection ws (record conn { is_open = false }) w.connections;
}

abbrev pub proceed : ℕ → Connection → Result (Option String) × World → World
proceed ws conn (ok current, w) = record w {
  connections = put_connection ws (record conn { current_conv_id = current }) w.connections;
}
proceed ws conn (err e, w) = close ws conn (on_error ws w)

module _ (jwt : Jwt) (dump : CanonicalMessageEvent → String) (cfg : Settings) where
  -- What an open connection makes of what arrives.
  unfoldable pub serve : ℕ → Connection → Incoming → World → World
  unfolding handle_frame on_disconnect
  serve ws conn (opened at token init) w = w
  serve ws conn (frame at f) w =
      proceed ws conn (handle_frame dump cfg at ws conn.user conn.current_conv_id f w)
  serve ws conn (disconnected at) w = close ws conn (on_disconnect at ws conn.user w)
  serve ws conn failure w = close ws conn (on_error ws w)

  -- A socket opens once.
  abbrev pub admit_socket : ℕ → Incoming → World → World
  admit_socket ws (opened at token init) w = connect jwt at.now token init ws w
  admit_socket ws _ w = w

  unfoldable pub receive : ℕ × Incoming → World → World
  unfolding serve connect
  receive (ws, incoming) w = elim (w.connections ws) [
    | none ↦ admit_socket ws incoming w
    | some conn ↦ if conn.is_open then serve ws conn incoming w else w
  ]

  unfoldable pub receive_all : List (ℕ × Incoming) → World → World
  unfolding receive
  receive_all [] w = w
  receive_all (x ∷ xs) w = receive_all xs (receive x w)
