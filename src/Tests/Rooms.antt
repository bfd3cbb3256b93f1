-- ===== src/Tests/Rooms.antt =====
-- The list of conversations, and a client that leaves a room.
use relationship_os.Base.{
  String, String-discrete, ◌&&◌, ◌||◌, false, ◌≡◌, refl, none, List, [], ◌∷◌, ◌==◌, exists_row,
  arith,
}
use relationship_os.Shared.Constants.{UserRole, PresenceState}
use relationship_os.Db.Session.{ok, open_session}
use relationship_os.Message.Access.{is_member}
use relationship_os.Presence.{get_user_presence}
use relationship_os.Hub.{Metadata, register, unregister, unregister_all, broadcast_to_room}
use relationship_os.Auth.Token.{get_current_user_and_session, find_auth, decode_access_token}
use relationship_os.Conversations.Listing.{
  ConversationResponse, list_conversations, is_listed, list_conversations-decides,
}
use relationship_os.WebSocket.{UserData, ServerFrame, World}
use relationship_os.WebSocket.Loop.{on_disconnect}
use relationship_os.WebSocket.Closing.{on_disconnect-decides}
use relationship_os.Tests.Accounts.{accounts, jwt}
use relationship_os.Tests.Admins.{ann}
use relationship_os.Tests.Sockets.{moment, world}

list_conversations-decides_example :
    (rs : List ConversationResponse) × ((list_conversations jwt 7 ann (open_session accounts)).0
      ≡ ok rs)
    × ((c : String)
        → exists_row (is_listed c) rs ≡ (
            exists_row (λ k. k.id == c) accounts.conversations
            && (false || exists_row (is_member c "ann") accounts.participants)))
unfolding String-discrete get_current_user_and_session find_auth decode_access_token
list_conversations-decides_example =
    list_conversations-decides jwt 7 ann (open_session accounts) refl

abbrev seat : String → UserRole → Metadata
seat id role = record {
  conversation_id = "c";
  user_id = id;
  session_id = "s";
  username = id;
  role = role;
}

abbrev both : World
unfolding register
both =
    let w = world accounts in
    record w {
      hub =
          register 2 (seat "bob" UserRole.recipient) (register 1 (seat "ann" UserRole.owner) w.hub);
    }

abbrev leaving : UserData
leaving = record {
  user_id = "ann";
  session_id = "s";
  username = "ann";
  display_name = "Ann";
  role = UserRole.owner;
  device_name = "phone";
}

on_disconnect-decides_example :
    ((get_user_presence 20 "ann" (open_session (on_disconnect (moment 13 "m") 1 leaving both).db)).0
      ≡ ok (PresenceState.offline, ""))
    × ((on_disconnect (moment 13 "m") 1 leaving both).sent
        ≡ (2, ServerFrame.presence "ann" none PresenceState.offline) ∷ [])
unfolding String-discrete register unregister broadcast_to_room unregister_all
on_disconnect-decides_example =
    on_disconnect-decides (moment 13 "m") 1 20 leaving both (seat "ann" UserRole.owner) refl refl
      (omega arith)
