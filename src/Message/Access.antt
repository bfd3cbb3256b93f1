-- ===== src/Message/Access.antt =====
-- `verify_conversation_access` and `get_or_create_private_conversation`.
pub mod Laws
pub mod Room
use relationship_os.Base.{
  ℕ, ◌+◌, String, Bool, true, false, ◌&&◌, ◌||◌, not, Option, none, some, List, [], ◌∷◌, ◌++◌, ◌==◌,
  leb, length, select, exists_row, first, if◌then◌else◌,
}
use relationship_os.Shared.Constants.{UserRole, is_admin, is_recipient}
use relationship_os.Shared.Errors.{Error, not_found, forbidden, integrity_error}
use relationship_os.Db.Rows.{
  Db, User, Conversation, ConversationStatus, ConversationParticipant, active, locked, archived,
}
use relationship_os.Db.Session.{
  Action, Result, ok, err, ◌>>=◌, ◌>>◌, pure, raise, query, raise_if, or_raise, modify,
  scalar_one_or_none,
}

-- `conv.status == "locked"`
abbrev pub is_locked : ConversationStatus → Bool
is_locked locked = true
is_locked _ = false

abbrev pub is_member : String → String → ConversationParticipant → Bool
is_member conversation_id user_id p = p.conversation_id == conversation_id && p.user_id == user_id

abbrev pub find_conversation : String → Action (Option Conversation)
find_conversation conversation_id = do
  rows ← query (λ d. select (λ c. c.id == conversation_id) d.conversations)
  scalar_one_or_none rows

abbrev pub find_participant : String → String → Action (Option ConversationParticipant)
find_participant conversation_id user_id = do
  rows ← query (λ d. select (is_member conversation_id user_id) d.participants)
  scalar_one_or_none rows

-- What follows the lookup of the conversation, for a user who is no administrator.
abbrev check_participant : Conversation → String → String → UserRole → Action Conversation
check_participant conv conversation_id user_id user_role = do
  participant ← find_participant conversation_id user_id
  or_raise participant forbidden
  raise_if (is_locked conv.status && is_recipient user_role) forbidden
  pure conv

unfoldable pub verify_conversation_access : String → String → UserRole → Action Conversation
verify_conversation_access conversation_id user_id user_role = do
  found ← find_conversation conversation_id
  conv ← or_raise found not_found
  if is_admin user_role then pure conv else check_participant conv conversation_id user_id user_role

-- The participants of a conversation among two users.
abbrev joined :
    String → String → String → List ConversationParticipant → List ConversationParticipant
joined conversation_id owner_id recipient_id = select (λ p.
    p.conversation_id == conversation_id && (p.user_id == owner_id || p.user_id == recipient_id))

abbrev pub shared_conversations : String → String → Db → List Conversation
shared_conversations owner_id recipient_id d =
    select (λ c. leb 2 (length (joined c.id owner_id recipient_id d.participants))) d.conversations

-- The default identifiers of the rows that are created.
pub record RoomIds : Type 0 where
  pub conversation : String
  pub owner_participant : String
  pub recipient_participant : String

abbrev pub new_room : ℕ → String → String → Conversation
new_room now id title = record {
  id = id;
  title = title;
  type = "direct";
  status = active;
  metadata = ("description", "Primary private room") ∷ [];
  created_at = now;
  updated_at = now;
}

abbrev pub new_participant : ℕ → String → String → String → ConversationParticipant
new_participant now id conversation_id user_id = record {
  id = id;
  conversation_id = conversation_id;
  user_id = user_id;
  last_read_sequence = 0;
  joined_at = now;
}

-- A flush of participants: their users exist, and no pair of conversation and user stands twice.
abbrev add_participant : ConversationParticipant → Action (Unit {0})
add_participant p = do
  taken ← query (λ d. exists_row (is_member p.conversation_id p.user_id) d.participants)
  known ← query (λ d. exists_row (λ u. u.id == p.user_id) d.users)
  raise_if (taken || not known) integrity_error
  modify (λ d. record d { participants = d.participants ++ (p ∷ []) })

unfoldable pub create_room : ℕ → RoomIds → String → String → String → Action Conversation
create_room now ids owner_id recipient_id title = do
  let conv = new_room now ids.conversation title
  taken ← query (λ d. exists_row (λ c. c.id == ids.conversation) d.conversations)
  raise_if taken integrity_error
  modify (λ d. record d { conversations = d.conversations ++ (conv ∷ []) })
  add_participant (new_participant now ids.owner_participant ids.conversation owner_id)
  add_participant (new_participant now ids.recipient_participant ids.conversation recipient_id)
  pure conv

-- `title` is the title given, or the configured room name.
unfoldable pub get_or_create_private_conversation :
    ℕ → RoomIds → String → String → String → Action Conversation
unfolding create_room
get_or_create_private_conversation now ids owner_id recipient_id title = do
  rows ← query (shared_conversations owner_id recipient_id)
  elim (first rows) [
    | some conv ↦ pure conv
    | none ↦ create_room now ids owner_id recipient_id title
  ]
