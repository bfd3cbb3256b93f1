-- ===== src/WebSocket/Safety.antt =====
-- Whoever is in a conversation's room may enter the conversation, however the frames of all
-- connections arrive.
use relationship_os.Base.{
  ℕ, String, true, false, ◌≡◌, refl, sym, ap, ◌∙◌, Option, none, some, List, [], ◌∷◌, arith,
  Bool-cases, Option-cases, ◌⊎◌, inl, inr, eqb,
}
use relationship_os.Shared.Event.{CanonicalMessageEvent}
use relationship_os.Shared.Config.{Settings}
use relationship_os.Db.Session.{Result, ok, err}
use relationship_os.Hub.{has, room_of, unregister}
use relationship_os.Hub.Rooms.{unregister-stays}
use relationship_os.Hub.Broadcast.{broadcast_to_room-stays}
use relationship_os.Auth.Token.{Jwt}
use relationship_os.WebSocket.{
  UserData, Connection, World, FirstFrame, authenticate, connect, put_connection,
}
use relationship_os.WebSocket.Frames.{ClientFrame, Moment, handle_frame}
use relationship_os.WebSocket.Loop.{
  Incoming, opened, frame, disconnected, failure, on_disconnect, proceed, admit_socket, close,
  on_error, serve, receive, receive_all,
}
use relationship_os.WebSocket.Keeps.{go_online_tables, go_offline_tables}
use relationship_os.WebSocket.Members.{
  can_enter, IsAuthorised, IsStep, step-IsAuthorised, handle_frame-connections,
  handle_frame-can_enter, handle_frame-rooms,
}

-- A connection that keeps its user.
put-connected :
    (ws : ℕ) (conn conn' : Connection) (conns : ℕ → Option Connection) (x : ℕ) (old : Connection)
    → conns ws ≡ some conn
    → conn'.user ≡ conn.user
    → conns x ≡ some old
    → (new : Connection) × (put_connection ws conn' conns x ≡ some new) × (new.user ≡ old.user)
put-connected ws conn conn' conns x old here same e = elim (Bool-cases (eqb x ws)) [
  | inl f ↦
      let p : x ≡ ws = ground (arith, f) in
      let q : some old ≡ some conn = sym e ∙ ap conns p ∙ here in
      (conn', ground (arith, f), ground (arith, q, same))
  | inr f ↦ (old, ground (arith, f, e), refl)
]

module _ (ws : ℕ) (conn : Connection) (w : World) (here : w.connections ws ≡ some conn) where
  proceed-IsStep :
      (r : Result (Option String)) (w' : World)
      → w'.connections ≡ w.connections
      → ((u : UserData) (c : String) → can_enter u c w'.db ≡ can_enter u c w.db)
      → ((c : String) (x : ℕ)
          → has x (room_of w'.hub c) ≡ true
          → (has x (room_of w.hub c) ≡ true) ⊎ ((x ≡ ws) × (can_enter conn.user c w.db ≡ true)))
      → IsStep w (proceed ws conn (r, w'))
  proceed-IsStep (ok current) w' same allowed rooms = record {
    rooms = λ c x h. elim (rooms c x h) [
      | inl old ↦ inl old
      | inr (p, k) ↦ inr (conn, ap w.connections p ∙ here, k)
    ];
    connected = λ x old e.
        put-connected ws conn (record conn { current_conv_id = current }) w'.connections x old
          (ap (λ f. f ws) same ∙ here) refl (ap (λ f. f x) same ∙ e);
    allowed = allowed;
  }
  proceed-IsStep (err y) w' same allowed rooms = record {
    rooms = λ c x h. elim (rooms c x (unregister-stays ws x w'.hub c h)) [
      | inl old ↦ inl old
      | inr (p, k) ↦ inr (conn, ap w.connections p ∙ here, k)
    ];
    connected = λ x old e.
        put-connected ws conn (record conn { is_open = false }) w'.connections x old
          (ap (λ f. f ws) same ∙ here) refl (ap (λ f. f x) same ∙ e);
    allowed = allowed;
  }

  handle_frame-IsStep :
      (dump : CanonicalMessageEvent → String) (cfg : Settings) (at : Moment) (f : ClientFrame)
      → IsStep w (proceed ws conn (handle_frame dump cfg at ws conn.user conn.current_conv_id f w))
  handle_frame-IsStep dump cfg at f =
      let (r, w') = handle_frame dump cfg at ws conn.user conn.current_conv_id f w in
      proceed-IsStep r w'
        (handle_frame-connections dump cfg at ws conn.user conn.current_conv_id f w)
        (handle_frame-can_enter dump cfg at ws conn.user conn.current_conv_id f w)
        (handle_frame-rooms dump cfg at ws conn.user conn.current_conv_id f w)

  close-IsStep :
      (w' : World)
      → w'.connections ≡ w.connections
      → ((u : UserData) (c : String) → can_enter u c w'.db ≡ can_enter u c w.db)
      → ((c : String) (x : ℕ) → has x (room_of w'.hub c) ≡ true → has x (room_of w.hub c) ≡ true)
      → IsStep w (close ws conn w')
  close-IsStep w' same allowed rooms = record {
    rooms = λ c x h. inl (rooms c x h);
    connected = λ x old e.
        put-connected ws conn (record conn { is_open = false }) w'.connections x old
          (ap (λ f. f ws) same ∙ here) refl (ap (λ f. f x) same ∙ e);
    allowed = allowed;
  }

on_disconnect-connections :
    (at : Moment) (ws : ℕ) (user : UserData) (w : World)
    → (on_disconnect at ws user w).connections ≡ w.connections
unfolding on_disconnect
on_disconnect-connections at ws user w = ground arith

on_disconnect-can_enter :
    (at : Moment) (ws : ℕ) (user : UserData) (w : World) (u : UserData) (c : String)
    → can_enter u c (on_disconnect at ws user w).db ≡ can_enter u c w.db
unfolding on_disconnect
on_disconnect-can_enter at ws user w u c =
    ground (arith, go_offline_tables at.now user.user_id w.db)

on_disconnect-rooms :
    (at : Moment) (ws : ℕ) (user : UserData) (w : World) (c : String) (x : ℕ)
    → has x (room_of (on_disconnect at ws user w).hub c) ≡ true
    → has x (room_of w.hub c) ≡ true
unfolding on_disconnect
on_disconnect-rooms at ws user w c x h = elim (Option-cases (unregister ws w.hub).0) [
  | inl e ↦ unregister-stays ws x w.hub c (ground (arith, e, h))
  | inr (meta, e) ↦ unregister-stays ws x w.hub c (
      ground (
        arith,
        e,
        h,
        broadcast_to_room-stays at.alive meta.conversation_id none (unregister ws w.hub).1 x c,
      ))
]

none-some : {A : Type 0} {a : A} → ◌≡◌ {A = Option A} none (some a) → ⊥
none-some h = cc

module _ (jwt : Jwt) (dump : CanonicalMessageEvent → String) (cfg : Settings) where
  serve-IsAuthorised :
      (ws : ℕ) (conn : Connection) (i : Incoming) (w : World)
      → w.connections ws ≡ some conn
      → IsAuthorised w
      → IsAuthorised (serve jwt dump cfg ws conn i w)
  unfolding serve
  serve-IsAuthorised ws conn (opened at token init) w here inv = inv
  serve-IsAuthorised ws conn (frame at f) w here inv =
      step-IsAuthorised w _ (handle_frame-IsStep ws conn w here dump cfg at f) inv
  serve-IsAuthorised ws conn (disconnected at) w here inv =
      step-IsAuthorised w _
        (close-IsStep ws conn w here (on_disconnect at ws conn.user w)
          (on_disconnect-connections at ws conn.user w) (on_disconnect-can_enter at ws conn.user w)
          (on_disconnect-rooms at ws conn.user w))
        inv
  serve-IsAuthorised ws conn failure w here inv =
      step-IsAuthorised w _
        (close-IsStep ws conn w here (on_error ws w) refl (λ u c. refl)
          (λ c x h. unregister-stays ws x w.hub c h))
        inv

  module _ (now : ℕ) (token : Option String) (init : FirstFrame) (ws : ℕ) (w : World) where
    connect-hub : (connect jwt now token init ws w).hub ≡ w.hub
    unfolding connect
    connect-hub = ground (arith, Option-cases (authenticate jwt now token init w.db))

    connect-can_enter :
        (u : UserData) (c : String)
        → can_enter u c (connect jwt now token init ws w).db ≡ can_enter u c w.db
    unfolding connect
    connect-can_enter u c = elim (Option-cases (authenticate jwt now token init w.db)) [
      | inl e ↦ ground (arith, e)
      | inr (user, e) ↦ ground (arith, e, go_online_tables now user w.db)
    ]

    connect-connections :
        (x : ℕ)
        → (eqb x ws ≡ true) ⊎ ((connect jwt now token init ws w).connections x ≡ w.connections x)
    unfolding connect
    connect-connections x = elim (Bool-cases (eqb x ws)) [
      | inl f ↦ inl f
      | inr f ↦ inr (ground (arith, f, Option-cases (authenticate jwt now token init w.db)))
    ]

  connect-IsStep :
      (now : ℕ) (token : Option String) (init : FirstFrame) (ws : ℕ) (w : World)
      → w.connections ws ≡ none
      → IsStep w (connect jwt now token init ws w)
  connect-IsStep now token init ws w free = record {
    rooms = λ c x h.
        inl (sym (ap (λ hub. has x (room_of hub c)) (connect-hub now token init ws w)) ∙ h);
    connected = λ x old e. elim (connect-connections now token init ws w x) [
      | inl f ↦
          let p : x ≡ ws = ground (arith, f) in
          absurd (none-some (sym free ∙ sym (ap w.connections p) ∙ e))
      | inr same ↦ (old, same ∙ e, refl)
    ];
    allowed = connect-can_enter now token init ws w;
  }

  admit-IsAuthorised :
      (ws : ℕ) (i : Incoming) (w : World)
      → w.connections ws ≡ none
      → IsAuthorised w
      → IsAuthorised (admit_socket jwt dump cfg ws i w)
  admit-IsAuthorised ws (opened at token init) w free inv =
      step-IsAuthorised w _ (connect-IsStep at.now token init ws w free) inv
  admit-IsAuthorised ws (frame at f) w free inv = inv
  admit-IsAuthorised ws (disconnected at) w free inv = inv
  admit-IsAuthorised ws failure w free inv = inv

  receive-IsAuthorised :
      (x : ℕ × Incoming) (w : World) → IsAuthorised w → IsAuthorised (receive jwt dump cfg x w)
  unfolding receive
  receive-IsAuthorised (ws, i) w inv = elim (Option-cases (w.connections ws)) [
    | inl e ↦ ground (arith, e, admit-IsAuthorised ws i w e inv)
    | inr (conn, e) ↦ ground (arith, e, serve-IsAuthorised ws conn i w e inv)
  ]

  -- Whatever arrives at the sockets, in whatever order, if every socket in a conversation's room
  -- has opened a connection whose user is an administrator or a participant of the conversation,
  -- then so it is afterwards.
  pub receive_all-IsAuthorised :
      (xs : List (ℕ × Incoming)) (w : World)
      → IsAuthorised w
      → IsAuthorised (receive_all jwt dump cfg xs w)
  unfolding receive_all
  receive_all-IsAuthorised [] w inv = inv
  receive_all-IsAuthorised (x ∷ xs) w inv =
      receive_all-IsAuthorised xs (receive jwt dump cfg x w) (receive-IsAuthorised x w inv)
