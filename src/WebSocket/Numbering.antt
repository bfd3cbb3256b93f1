-- ===== src/WebSocket/Numbering.antt =====
-- The numbering of the messages, however the frames of all connections arrive.
use relationship_os.Base.{
  ℕ, String, ◌≡◌, refl, sym, Option, List, [], ◌∷◌, arith, Option-cases, inl, inr,
}
use mathlib.Core.Path.{subst}
use relationship_os.Shared.Event.{CanonicalMessageEvent}
use relationship_os.Shared.Config.{Settings}
use relationship_os.Db.Session.{Result, ok, err, open_session}
use relationship_os.Message.Send.Sequence.{IsWellNumbered}
use relationship_os.Auth.Token.{Jwt}
use relationship_os.WebSocket.{UserData, Connection, World, FirstFrame, authenticate, connect}
use relationship_os.WebSocket.Frames.{
  ClientFrame, ping, sync, send, typing, read, other_action, bad_frame, Moment, conv_or, on_ping,
  on_sync, on_send, on_typing, on_read, handle_frame,
}
use relationship_os.WebSocket.Loop.{
  Incoming, opened, frame, disconnected, failure, on_disconnect, proceed, admit_socket, serve,
  receive, receive_all,
}
use relationship_os.WebSocket.Keeps.{
  go_online_tables, go_offline_tables, read_query_tables, sync_query_same,
  send_query-IsWellNumbered,
}

module _ (dump : CanonicalMessageEvent → String) (cfg : Settings) where
  handle_frame-IsWellNumbered :
      (at : Moment) (ws : ℕ) (user : UserData) (current : Option String) (f : ClientFrame)
      (w : World)
      → IsWellNumbered w.db.messages
      → IsWellNumbered (handle_frame dump cfg at ws user current f w).1.db.messages
  unfolding handle_frame on_ping on_sync on_send on_typing on_read
  handle_frame-IsWellNumbered at ws user current ping w h =
      ground (arith, go_online_tables at.now user w.db)
  handle_frame-IsWellNumbered at ws user current (sync c k) w h =
      ground (arith, sync_query_same user c k (open_session w.db))
  handle_frame-IsWellNumbered at ws user current (send c key text) w h =
      ground (arith, send_query-IsWellNumbered dump cfg at user (conv_or c current) key text w.db h)
  handle_frame-IsWellNumbered at ws user current (typing c b) w h = ground arith
  handle_frame-IsWellNumbered at ws user current (read c k) w h =
      ground (arith, read_query_tables user (conv_or c current) k c user.user_id w.db)
  handle_frame-IsWellNumbered at ws user current other_action w h = h
  handle_frame-IsWellNumbered at ws user current bad_frame w h = h

  on_disconnect-messages :
      (at : Moment) (ws : ℕ) (user : UserData) (w : World)
      → (on_disconnect at ws user w).db.messages ≡ w.db.messages
  unfolding on_disconnect
  on_disconnect-messages at ws user w = ground (arith, go_offline_tables at.now user.user_id w.db)

  module _ (jwt : Jwt) where
    connect-messages :
        (now : ℕ) (token : Option String) (init : FirstFrame) (ws : ℕ) (w : World)
        → (connect jwt now token init ws w).db.messages ≡ w.db.messages
    unfolding connect
    connect-messages now token init ws w =
        elim (Option-cases (authenticate jwt now token init w.db)) [
          | inl e ↦ ground (arith, e)
          | inr (user, e) ↦ ground (arith, e, go_online_tables now user w.db)
        ]

    proceed-messages :
        (ws : ℕ) (conn : Connection) (r : Result (Option String) × World)
        → (proceed ws conn r).db.messages ≡ r.1.db.messages
    proceed-messages ws conn (ok c, w) = refl
    proceed-messages ws conn (err e, w) = refl

    serve-IsWellNumbered :
        (ws : ℕ) (conn : Connection) (i : Incoming) (w : World)
        → IsWellNumbered w.db.messages
        → IsWellNumbered (serve jwt dump cfg ws conn i w).db.messages
    unfolding serve
    serve-IsWellNumbered ws conn (opened at token init) w h = h
    serve-IsWellNumbered ws conn (frame at f) w h =
        subst IsWellNumbered
          (sym (
            proceed-messages ws conn
              (handle_frame dump cfg at ws conn.user conn.current_conv_id f w)))
          (handle_frame-IsWellNumbered at ws conn.user conn.current_conv_id f w h)
    serve-IsWellNumbered ws conn (disconnected at) w h =
        subst IsWellNumbered (sym (on_disconnect-messages at ws conn.user w)) h
    serve-IsWellNumbered ws conn failure w h = h

    admit-IsWellNumbered :
        (ws : ℕ) (i : Incoming) (w : World)
        → IsWellNumbered w.db.messages
        → IsWellNumbered (admit_socket jwt dump cfg ws i w).db.messages
    admit-IsWellNumbered ws (opened at token init) w h =
        subst IsWellNumbered (sym (connect-messages at.now token init ws w)) h
    admit-IsWellNumbered ws (frame at f) w h = h
    admit-IsWellNumbered ws (disconnected at) w h = h
    admit-IsWellNumbered ws failure w h = h

    receive-IsWellNumbered :
        (x : ℕ × Incoming) (w : World)
        → IsWellNumbered w.db.messages
        → IsWellNumbered (receive jwt dump cfg x w).db.messages
    unfolding receive
    receive-IsWellNumbered (ws, i) w h = elim (Option-cases (w.connections ws)) [
      | inl e ↦ ground (arith, e, admit-IsWellNumbered ws i w h)
      | inr (conn, e) ↦ ground (arith, e, serve-IsWellNumbered ws conn i w h)
    ]

    -- Whatever arrives at the sockets, in whatever order, if the messages of every conversation are
    -- numbered from 1 without a gap and no two clash, then so they are afterwards.
    pub receive_all-IsWellNumbered :
        (xs : List (ℕ × Incoming)) (w : World)
        → IsWellNumbered w.db.messages
        → IsWellNumbered (receive_all jwt dump cfg xs w).db.messages
    unfolding receive_all
    receive_all-IsWellNumbered [] w h = h
    receive_all-IsWellNumbered (x ∷ xs) w h =
        receive_all-IsWellNumbered xs (receive jwt dump cfg x w) (receive-IsWellNumbered x w h)
