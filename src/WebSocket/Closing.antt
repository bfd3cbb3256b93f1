-- ===== src/WebSocket/Closing.antt =====
-- How a connection that a client closes ends.
use relationship_os.Base.{
  ℕ, String, Bool, Option, List, false, ◌≡◌, refl, ap, ◌∙◌, none, some, [], ◌∷◌, ◌++◌, map, arith,
  ◌≤◌, length, select, if◌then◌else◌, not, ◌&&◌, ◌==◌, eqb, eq_refl, exists_row, Option-cases, inl,
  inr,
}
use relationship_os.Shared.Constants.{PresenceState}
use relationship_os.Db.Rows.{Db}
use relationship_os.Db.Session.{Session, ok, open_session, in_session}
use relationship_os.Presence.{is_user, update_presence, get_user_presence}
use relationship_os.Presence.Expiry.{get_user_presence-update_presence}
use relationship_os.Hub.{
  Metadata, ConnectionManager, discard, put_metadata, nonempty, room_of, send_all, is_of, any_of,
  unregister, has_other_conns, broadcast_to_room,
}
use relationship_os.Auth.Account.{is_empty}
use relationship_os.WebSocket.{UserData, ServerFrame, World}
use relationship_os.WebSocket.Frames.{Moment}
use relationship_os.WebSocket.Loop.{go_offline, on_disconnect}

go_offline-eq :
    (now : ℕ) (u : String) (d : Db)
    → length (select (is_user u) d.presences) ≤ 1
    → in_session (go_offline now u) d
      ≡ (ok tt, (update_presence now u PresenceState.offline "" (open_session d)).1.work)
unfolding go_offline update_presence
go_offline-eq now u d one = ground arith

presence_of_work :
    (later : ℕ) (u : String) (s : Session)
    → (get_user_presence later u (open_session s.work)).0 ≡ (get_user_presence later u s).0
unfolding get_user_presence
presence_of_work later u s = ground arith

-- The presence of a user who went offline.
offline_presence :
    (now later : ℕ) (u : String) (d : Db)
    → length (select (is_user u) d.presences) ≤ 1
    → (get_user_presence later u (open_session (in_session (go_offline now u) d).1)).0
      ≡ ok (PresenceState.offline, "")
offline_presence now later u d one =
    let s = (update_presence now u PresenceState.offline "" (open_session d)).1 in
    ground (
      arith,
      go_offline-eq now u d one,
      presence_of_work later u s,
      get_user_presence-update_presence now later u PresenceState.offline "" (open_session d) one,
    )

-- Whether what is kept of a socket is a user's.
abbrev pub belongs_to : String → Option Metadata → Bool
belongs_to user_id none = false
belongs_to user_id (some meta) = meta.user_id == user_id

is_of-belongs : (u : String) (m : Option Metadata) → is_of u m ≡ belongs_to u m
is_of-belongs u none = refl
is_of-belongs u (some meta) = refl

-- A socket that is still registered once `ws` has gone, with a user's metadata.
any_of-discard :
    (u : String) (ws : ℕ) (metas : ℕ → Option Metadata) (xs : List ℕ)
    → any_of u (put_metadata ws none metas) (discard ws xs)
      ≡ exists_row (λ x. not (eqb x ws) && belongs_to u (metas x)) xs
any_of-discard u ws metas [] = refl
any_of-discard u ws metas (x ∷ xs) =
    ground (arith, any_of-discard u ws metas xs, is_of-belongs u (metas x))

send_all-discard :
    (alive : ℕ → Bool) (ws : ℕ) (xs : List ℕ)
    → (send_all alive none (discard ws xs)).0 ≡ select (λ x. not (eqb x ws) && alive x) xs
send_all-discard alive ws [] = refl
send_all-discard alive ws (x ∷ xs) = ground (arith, send_all-discard alive ws xs)

nonempty-or : (xs : List ℕ) → elim (nonempty xs) [ none ↦ [] | some ys ↦ ys ] ≡ xs
nonempty-or [] = refl
nonempty-or (x ∷ xs) = refl

room_of-unregister :
    (ws : ℕ) (m : ConnectionManager) (meta : Metadata)
    → m.socket_metadata ws ≡ some meta
    → room_of (unregister ws m).1 meta.conversation_id ≡ discard ws (room_of m meta.conversation_id)
unfolding unregister
room_of-unregister ws m meta h = elim (Option-cases (m.active_rooms meta.conversation_id)) [
  | inl e ↦ ground (arith, h, e)
  | inr (room, e) ↦
      ground (arith, h, e, eq_refl meta.conversation_id, nonempty-or (discard ws room))
]

has_other_conns-unregister :
    (u : String) (ws : ℕ) (m : ConnectionManager) (meta : Metadata)
    → m.socket_metadata ws ≡ some meta
    → has_other_conns u (unregister ws m).1
      ≡ exists_row (λ x. not (eqb x ws) && belongs_to u (m.socket_metadata x)) m.sockets
unfolding unregister
has_other_conns-unregister u ws m meta h =
    ground (arith, h, any_of-discard u ws m.socket_metadata m.sockets)

broadcast-reached :
    (alive : ℕ → Bool) (ws : ℕ) (m : ConnectionManager) (meta : Metadata)
    → m.socket_metadata ws ≡ some meta
    → (broadcast_to_room alive meta.conversation_id none (unregister ws m).1).0
      ≡ select (λ x. not (eqb x ws) && alive x) (room_of m meta.conversation_id)
unfolding broadcast_to_room
broadcast-reached alive ws m meta h =
    ap (λ room. (send_all alive none room).0) (room_of-unregister ws m meta h)
    ∙ send_all-discard alive ws (room_of m meta.conversation_id)

-- The same, told by what the code asks the hub.
on_disconnect-branches :
    (at : Moment) (ws later : ℕ) (user : UserData) (w : World) (meta : Metadata)
    → w.hub.socket_metadata ws ≡ some meta
    → is_empty meta.conversation_id ≡ false
    → length (select (is_user user.user_id) w.db.presences) ≤ 1
    → let hub = (unregister ws w.hub).1 in
      let stays = has_other_conns user.user_id hub in
      let w' = on_disconnect at ws user w in
      let gone = ServerFrame.presence user.user_id none PresenceState.offline in
      let reached = (broadcast_to_room at.alive meta.conversation_id none hub).0 in
      ((get_user_presence later user.user_id (open_session w'.db)).0 ≡ (
        if stays
        then (get_user_presence later user.user_id (open_session w.db)).0
        else ok (PresenceState.offline, "")))
      × (w'.sent ≡ (if stays then w.sent else w.sent ++ map (λ x. (x, gone)) reached))
unfolding on_disconnect unregister
on_disconnect-branches at ws later user w meta registered room one = ground (
  arith,
  registered,
  room,
  go_offline-eq at.now user.user_id w.db one,
  offline_presence at.now later user.user_id w.db one,
)

-- When a client closes a socket of a room, and its user's presence is known at most once: if another
-- of the registered sockets is the same user's, the user's presence is answered as before and nobody
-- is told; otherwise the answer of the database that is left is offline, at any time, and every other
-- socket of the room that can be reached is told so, in the room's order.
pub on_disconnect-decides :
    (at : Moment) (ws later : ℕ) (user : UserData) (w : World) (meta : Metadata)
    → w.hub.socket_metadata ws ≡ some meta
    → is_empty meta.conversation_id ≡ false
    → length (select (is_user user.user_id) w.db.presences) ≤ 1
    → let stays =
        exists_row
          (λ x. not (eqb x ws) && belongs_to user.user_id (w.hub.socket_metadata x))
          w.hub.sockets in
      let w' = on_disconnect at ws user w in
      let gone = ServerFrame.presence user.user_id none PresenceState.offline in
      let others =
        select (λ x. not (eqb x ws) && at.alive x) (room_of w.hub meta.conversation_id) in
      ((get_user_presence later user.user_id (open_session w'.db)).0 ≡ (
        if stays
        then (get_user_presence later user.user_id (open_session w.db)).0
        else ok (PresenceState.offline, "")))
      × (w'.sent ≡ (if stays then w.sent else w.sent ++ map (λ x. (x, gone)) others))
on_disconnect-decides at ws later user w meta registered room one =
    let (answer, told) = on_disconnect-branches at ws later user w meta registered room one in
    let same = has_other_conns-unregister user.user_id ws w.hub meta registered in
    let gone = ServerFrame.presence user.user_id none PresenceState.offline in
    (
      answer
          ∙ ap
              (λ b.
                if b
                then (get_user_presence later user.user_id (open_session w.db)).0
                else ok (PresenceState.offline, ""))
              same,
      told
          ∙ ap
              (λ b.
                if b
                then w.sent
                else w.sent
                  ++ map (λ x. (x, gone))
                      (broadcast_to_room at.alive meta.conversation_id none
                        (unregister ws w.hub).1).0)
              same
          ∙ ap
              (λ xs.
                if exists_row
                  (λ x. not (eqb x ws) && belongs_to user.user_id (w.hub.socket_metadata x))
                  w.hub.sockets
                then w.sent
                else w.sent ++ map (λ x. (x, gone)) xs)
              (broadcast-reached at.alive ws w.hub meta registered),
    )
