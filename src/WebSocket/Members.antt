-- ===== src/WebSocket/Members.antt =====
-- Who is in a conversation's room, however the frames of all connections arrive.
use relationship_os.Base.{
  ℕ, String, Bool, true, ◌||◌, ◌≡◌, refl, ap, ◌∙◌, Option, none, some, List, [], ◌∷◌, arith,
  exists_row, select, select-cases, eq_of_test, ◌==◌, ◌⊎◌, inl, inr,
}
use relationship_os.Base.Int.{ℤ}
use relationship_os.Shared.Constants.{is_admin}
use relationship_os.Shared.Event.{CanonicalMessageEvent}
use relationship_os.Shared.Config.{Settings}
use relationship_os.Db.Rows.{Db, Conversation, Message}
use relationship_os.Db.Session.{Session, ok, open_session, Result-cases}
use relationship_os.Message.Access.{is_member, verify_conversation_access}
use relationship_os.Message.History.{get_history}
use relationship_os.Hub.{has, room_of, register}
use relationship_os.Hub.Rooms.{has-register}
use relationship_os.Hub.Broadcast.{broadcast_to_room-stays}
use relationship_os.WebSocket.{UserData, Connection, World}
use relationship_os.WebSocket.Frames.{
  ClientFrame, ping, sync, send, typing, read, other_action, bad_frame, Moment, conv_or, sync_query,
  metadata_of, on_ping, on_sync, on_send, on_typing, on_read, handle_frame,
}
use relationship_os.WebSocket.Keeps.{
  go_online_tables, read_query_tables, sync_query_same, send_query_participants,
}

-- An administrator, or a participant.
abbrev pub can_enter : UserData → String → Db → Bool
can_enter user c d = is_admin user.role || exists_row (is_member c user.user_id) d.participants

-- Whoever is in the room of a conversation has opened a connection, and may enter it.
pub record IsAuthorised (w : World) : Type 0 where
  pub members :
      (c : String) (ws : ℕ)
      → has ws (room_of w.hub c) ≡ true
      → (conn : Connection) × (w.connections ws ≡ some conn) × (can_enter conn.user c w.db ≡ true)

-- What a step does to the rooms, the connections and the memberships.
pub record IsStep (w w' : World) : Type 0 where
  pub rooms :
      (c : String) (ws : ℕ)
      → has ws (room_of w'.hub c) ≡ true
      → (has ws (room_of w.hub c) ≡ true)
        ⊎ ((conn : Connection) × (w.connections ws ≡ some conn)
            × (can_enter conn.user c w.db ≡ true))
  pub connected :
      (ws : ℕ) (conn : Connection)
      → w.connections ws ≡ some conn
      → (conn' : Connection) × (w'.connections ws ≡ some conn') × (conn'.user ≡ conn.user)
  pub allowed : (user : UserData) (c : String) → can_enter user c w'.db ≡ can_enter user c w.db

pub step-IsAuthorised : (w w' : World) → IsStep w w' → IsAuthorised w → IsAuthorised w'
step-IsAuthorised w w' st inv = record {
  members = λ c ws h. elim (st.rooms c ws h) [
    | inl old ↦
        let (conn, e, k) = inv.members c ws old in
        let (conn', e', same) = st.connected ws conn e in
        (conn', e', st.allowed conn'.user c ∙ ap (λ u. can_enter u c w.db) same ∙ k)
    | inr (conn, e, k) ↦
        let (conn', e', same) = st.connected ws conn e in
        (conn', e', st.allowed conn'.user c ∙ ap (λ u. can_enter u c w.db) same ∙ k)
  ];
}

exists-select_one :
    {A : Type 0} (p : A → Bool) (xs : List A) (x : A) (r : List A)
    → select p xs ≡ x ∷ r
    → exists_row p xs ≡ true
exists-select_one p [] x r h = absurd cc
exists-select_one p (y ∷ xs) x r h = ground (arith, exists-select_one p xs x r)

pub verify-can_enter :
    (user : UserData) (c : String) (s : Session) (conv : Conversation)
    → (verify_conversation_access c user.user_id user.role s).0 ≡ ok conv
    → (conv.id ≡ c) × (can_enter user c s.work ≡ true)
unfolding verify_conversation_access
verify-can_enter user c s conv h = elim (select-cases (λ k. k.id == c) s.work.conversations) [
  | inl e ↦ absurd (ground arith)
  | inr (inl (k, e, named)) ↦ elim (select-cases (is_member c user.user_id) s.work.participants) [
    | inl f ↦ ground (arith, eq_of_test k.id c named)
    | inr (inl (p, f, member)) ↦ ground (
      arith,
      eq_of_test k.id c named,
      exists-select_one (is_member c user.user_id) s.work.participants p [] f,
    )
    | inr (inr (p, q, r, f)) ↦ ground (
      arith,
      eq_of_test k.id c named,
      exists-select_one (is_member c user.user_id) s.work.participants p (q ∷ r) f,
    )
  ]
  | inr (inr (k, l, r, e)) ↦ absurd (ground arith)
]

sync_query-can_enter :
    (user : UserData) (c : Option String) (k : Option ℤ) (s : Session) (conv : Conversation)
    (ms : List Message)
    → (sync_query user c k s).0 ≡ ok (conv, ms)
    → can_enter user conv.id s.work ≡ true
unfolding sync_query get_history
sync_query-can_enter user none k s conv ms h = absurd (ground arith)
sync_query-can_enter user (some c) k s conv ms h =
    elim (Result-cases (verify_conversation_access c user.user_id user.role s).0) [
      | inl (found, e) ↦
          let (named, entered) = verify-can_enter user c s found e in
          ground (arith, e, named, entered)
      | inr (x, e) ↦ absurd (ground (arith, e))
    ]

module _ (dump : CanonicalMessageEvent → String) (cfg : Settings) (at : Moment) (ws : ℕ)
    (user : UserData) (current : Option String) where
  pub handle_frame-connections :
      (f : ClientFrame) (w : World)
      → (handle_frame dump cfg at ws user current f w).1.connections ≡ w.connections
  unfolding handle_frame on_ping on_sync on_send on_typing on_read
  handle_frame-connections ping w = ground arith
  handle_frame-connections (sync c k) w = ground arith
  handle_frame-connections (send c key text) w = ground arith
  handle_frame-connections (typing c b) w = ground arith
  handle_frame-connections (read c k) w = ground arith
  handle_frame-connections other_action w = refl
  handle_frame-connections bad_frame w = refl

  pub handle_frame-can_enter :
      (f : ClientFrame) (w : World) (u : UserData) (c : String)
      → can_enter u c (handle_frame dump cfg at ws user current f w).1.db ≡ can_enter u c w.db
  unfolding handle_frame on_ping on_sync on_send on_typing on_read
  handle_frame-can_enter ping w u c = ground (arith, go_online_tables at.now user w.db)
  handle_frame-can_enter (sync conv k) w u c =
      ground (arith, sync_query_same user conv k (open_session w.db))
  handle_frame-can_enter (send conv key text) w u c =
      ground (arith, send_query_participants dump cfg at user (conv_or conv current) key text w.db)
  handle_frame-can_enter (typing conv b) w u c = ground arith
  handle_frame-can_enter (read conv k) w u c =
      ground (arith, read_query_tables user (conv_or conv current) k c u.user_id w.db)
  handle_frame-can_enter other_action w u c = refl
  handle_frame-can_enter bad_frame w u c = refl

  on_sync-rooms :
      (conv : Option String) (k : Option ℤ) (w : World) (c : String) (x : ℕ)
      → has x (room_of (on_sync dump cfg at ws user current conv k w).1.hub c) ≡ true
      → (has x (room_of w.hub c) ≡ true) ⊎ ((x ≡ ws) × (can_enter user c w.db ≡ true))
  unfolding on_sync
  on_sync-rooms conv k w c x h =
      elim (Result-cases (sync_query user conv k (open_session w.db)).0) [
        | inl ((found, ms), e) ↦
            let hub = register ws (metadata_of found.id user) w.hub in
            let entered = sync_query-can_enter user conv k (open_session w.db) found ms e in
            elim (has-register ws x (metadata_of found.id user) w.hub c (
              broadcast_to_room-stays at.alive found.id (some ws) hub x c (ground (arith, e, h)))) [
                | inl old ↦ inl old
                | inr (same, room) ↦ inr (same, ap (λ i. can_enter user i w.db) room ∙ entered)
              ]
        | inr (y, e) ↦ inl (ground (arith, e, h))
      ]

  pub handle_frame-rooms :
      (f : ClientFrame) (w : World) (c : String) (x : ℕ)
      → has x (room_of (handle_frame dump cfg at ws user current f w).1.hub c) ≡ true
      → (has x (room_of w.hub c) ≡ true) ⊎ ((x ≡ ws) × (can_enter user c w.db ≡ true))
  unfolding handle_frame on_ping on_send on_typing on_read
  handle_frame-rooms ping w c x h = inl (ground (arith, h))
  handle_frame-rooms (sync conv k) w c x h = on_sync-rooms conv k w c x h
  handle_frame-rooms (send conv key text) w c x h =
      inl
        (ground (arith, h, broadcast_to_room-stays at.alive (conv_or conv current) none w.hub x c))
  handle_frame-rooms (typing conv b) w c x h = inl (
      ground
        (arith, h, broadcast_to_room-stays at.alive (conv_or conv current) (some ws) w.hub x c))
  handle_frame-rooms (read conv k) w c x h = inl (
      ground
        (arith, h, broadcast_to_room-stays at.alive (conv_or conv current) (some ws) w.hub x c))
  handle_frame-rooms other_action w c x h = inl h
  handle_frame-rooms bad_frame w c x h = inl h
