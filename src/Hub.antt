-- ===== src/Hub.antt =====
-- `ConnectionManager` of apps/api/src/routers/websocket.py: the sockets that are in a conversation's
-- room. A socket is known by a number; a room's set is a list without repetitions.
pub mod Rooms
pub mod Broadcast
use relationship_os.Base.{
  ℕ, String, Bool, true, false, ◌||◌, Option, none, some, List, [], ◌∷◌, ◌==◌, eqb, if◌then◌else◌,
}
use relationship_os.Shared.Constants.{UserRole}

pub record Metadata : Type 0 where
  pub conversation_id : String
  pub user_id : String
  pub session_id : String
  pub username : String
  pub role : UserRole

-- The two dictionaries: `none` is a missing key. The keys of the second are `sockets`.
pub record ConnectionManager : Type 0 where
  pub active_rooms : String → Option (List ℕ)
  pub socket_metadata : ℕ → Option Metadata
  pub sockets : List ℕ

-- `ws in room`
abbrev pub has : ℕ → List ℕ → Bool
has ws [] = false
has ws (x ∷ xs) = eqb x ws || has ws xs

abbrev add : ℕ → List ℕ → List ℕ
add ws room = if has ws room then room else ws ∷ room

abbrev pub discard : ℕ → List ℕ → List ℕ
discard ws [] = []
discard ws (x ∷ xs) = if eqb x ws then discard ws xs else x ∷ discard ws xs

-- `self.active_rooms.get(conv_id, set())`
abbrev pub room_of : ConnectionManager → String → List ℕ
room_of m conv_id = elim (m.active_rooms conv_id) [ none ↦ [] | some room ↦ room ]

abbrev put_room : String → Option (List ℕ) → (String → Option (List ℕ)) → String → Option (List ℕ)
put_room conv_id room rooms c = if c == conv_id then room else rooms c

abbrev pub put_metadata : ℕ → Option Metadata → (ℕ → Option Metadata) → ℕ → Option Metadata
put_metadata ws meta metas w = if eqb w ws then meta else metas w

unfoldable pub register : ℕ → Metadata → ConnectionManager → ConnectionManager
register ws meta m = record {
  active_rooms =
      put_room meta.conversation_id (some (add ws (room_of m meta.conversation_id))) m.active_rooms;
  socket_metadata = put_metadata ws (some meta) m.socket_metadata;
  sockets = add ws m.sockets;
}

-- An empty room is deleted.
abbrev pub nonempty : List ℕ → Option (List ℕ)
nonempty [] = none
nonempty (x ∷ xs) = some (x ∷ xs)

abbrev pub leave : ℕ → String → (String → Option (List ℕ)) → String → Option (List ℕ)
leave ws conv_id rooms = elim (rooms conv_id) [
  | none ↦ rooms
  | some room ↦ put_room conv_id (nonempty (discard ws room)) rooms
]

unfoldable pub unregister : ℕ → ConnectionManager → Option Metadata × ConnectionManager
unregister ws m = elim (m.socket_metadata ws) [
  | none ↦ (none, m)
  | some meta ↦ (
    some meta,
    record {
      active_rooms = leave ws meta.conversation_id m.active_rooms;
      socket_metadata = put_metadata ws none m.socket_metadata;
      sockets = discard ws m.sockets;
    },
  )
]

unfoldable pub unregister_all : List ℕ → ConnectionManager → ConnectionManager
unregister_all [] m = m
unregister_all (ws ∷ dead) m = unregister_all dead (unregister ws m).1

abbrev pub is_excluded : Option ℕ → ℕ → Bool
is_excluded none ws = false
is_excluded (some x) ws = eqb ws x

-- The sockets that the frame reaches, and those whose send raises.
abbrev pub send_all : (ℕ → Bool) → Option ℕ → List ℕ → List ℕ × List ℕ
send_all alive exclude_ws [] = ([], [])
send_all alive exclude_ws (ws ∷ room) =
    let (reached, dead) = send_all alive exclude_ws room in
    if is_excluded exclude_ws ws
    then (reached, dead)
    else if alive ws
    then (ws ∷ reached, dead)
    else (reached, ws ∷ dead)

-- `alive` says whose send succeeds.
unfoldable pub broadcast_to_room :
    (ℕ → Bool) → String → Option ℕ → ConnectionManager → List ℕ × ConnectionManager
broadcast_to_room alive conv_id exclude_ws m =
    let (reached, dead) = send_all alive exclude_ws (room_of m conv_id) in
    (reached, unregister_all dead m)

abbrev pub is_of : String → Option Metadata → Bool
is_of user_id none = false
is_of user_id (some meta) = meta.user_id == user_id

abbrev pub any_of : String → (ℕ → Option Metadata) → List ℕ → Bool
any_of user_id metas [] = false
any_of user_id metas (ws ∷ rest) = is_of user_id (metas ws) || any_of user_id metas rest

-- `any(m.get("user_id") == user_id for s, m in ws_manager.socket_metadata.items())`
abbrev pub has_other_conns : String → ConnectionManager → Bool
has_other_conns user_id m = any_of user_id m.socket_metadata m.sockets
