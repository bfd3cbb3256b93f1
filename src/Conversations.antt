-- ===== src/Conversations.antt =====
-- routers/conversations.py: the four routes of one conversation, and their list in Listing. A response comes with the frame that
-- the route broadcasts to the conversation's room, if any. The limits that FastAPI has checked are
-- arguments.
pub mod Guard
pub mod Listing
use relationship_os.Base.{
  ℕ, String, Bool, true, false, Option, none, some, List, [], ◌∷◌, map, ◌==◌, select, first,
  if◌then◌else◌,
}
use relationship_os.Base.Int.{ℤ}
use relationship_os.Shared.Constants.{UserRole, MessageType, DeliveryState}
use relationship_os.Shared.Event.{MessagePayload, CanonicalMessageEvent}
use relationship_os.Shared.Config.{Settings}
use relationship_os.Db.Rows.{Db, User, Message}
use relationship_os.Db.Session.{Action, ◌>>=◌, ◌>>◌, pure, query}
use relationship_os.Auth.Enrollment.{has_user_id}
use relationship_os.Auth.Token.{Jwt, Credentials, get_current_user_and_session}
use relationship_os.Message.Access.{verify_conversation_access}
use relationship_os.Message.Send.{SendRequest, send_message}
use relationship_os.Message.History.{get_history, search_messages}
use relationship_os.Read.{mark_read}

pub record MessageResponse : Type 0 where
  pub id : String
  pub conversation_id : String
  pub sender_id : String
  pub sender_name : Option String
  pub message_type : MessageType
  pub body : String
  pub created_at : ℕ
  pub edited_at : Option ℕ
  pub deleted_at : Option ℕ
  pub client_message_id : String
  pub sequence_number : ℕ
  pub delivery_state : DeliveryState

-- A message event, and a read receipt with its user and position.
pub data Frame : Type 0 where
  event : Message → String → Frame
  read : String → String → ℕ → Frame

abbrev pub message_response : Option String → Message → MessageResponse
message_response sender_name m = record {
  id = m.id;
  conversation_id = m.conversation_id;
  sender_id = m.sender_id;
  sender_name = sender_name;
  message_type = m.message_type;
  body = m.body;
  created_at = m.created_at;
  edited_at = m.edited_at;
  deleted_at = m.deleted_at;
  client_message_id = m.client_message_id;
  sequence_number = m.sequence_number;
  delivery_state = m.delivery_state;
}

-- `m.sender.display_name if m.sender else None`
abbrev pub sender_name_of : Db → Message → Option String
sender_name_of d m = elim (first (select (has_user_id m.sender_id) d.users)) [
  | none ↦ none
  | some u ↦ some u.display_name
]

abbrev pub responses : List Message → Action (List MessageResponse)
responses messages = query (λ d. map (λ m. message_response (sender_name_of d m) m) messages)

-- What a send draws.
pub record SendDraws : Type 0 where
  pub message_id : String
  pub discord_delivery_id : String
  pub webhook_delivery_id : String
  pub outbox_id : String
  pub event_id : String

abbrev pub rest_request : ℕ → SendDraws → User → String → String → MessagePayload → SendRequest
rest_request now draws user conversation_id client_message_id payload = record {
  conversation_id = conversation_id;
  sender_id = user.id;
  sender_name = user.display_name;
  sender_role = user.role;
  client_message_id = client_message_id;
  payload = payload;
  origin = "rest";
  message_id = draws.message_id;
  discord_delivery_id = draws.discord_delivery_id;
  webhook_delivery_id = draws.webhook_delivery_id;
  outbox_id = draws.outbox_id;
  event_id = draws.event_id;
  now = now;
}

module _ (jwt : Jwt) (now : ℕ) (credentials : Credentials) where
  -- The authentication of the request, and the check of its conversation.
  unfoldable pub enter : String → Action User
  enter conversation_id = do
    auth ← get_current_user_and_session jwt now credentials
    verify_conversation_access conversation_id auth.user.id auth.user.role
    pure auth.user

  unfoldable pub get_message_history :
      String → Option ℤ → Option ℤ → ℤ → Action (List MessageResponse)
  unfolding enter get_history
  get_message_history conversation_id before_seq after_seq limit = do
    enter conversation_id
    messages ← get_history conversation_id before_seq after_seq limit
    responses messages

  unfoldable pub search_conversation :
      (String → String → Bool) → String → String → ℤ → Action (List MessageResponse)
  unfolding enter search_messages
  search_conversation ilike conversation_id query_text limit = do
    enter conversation_id
    messages ← search_messages ilike conversation_id query_text limit
    responses messages

  -- The message is broadcast only if it is new.
  unfoldable pub post_message :
      (CanonicalMessageEvent → String)
      → Settings
      → SendDraws
      → String
      → String
      → MessagePayload
      → Action (MessageResponse × Option Frame)
  unfolding enter send_message
  post_message dump cfg draws conversation_id client_message_id payload = do
    user ← enter conversation_id
    (msg, is_new) ←
        send_message dump cfg
          (rest_request now draws user conversation_id client_message_id payload)
    pure (
      message_response (some user.display_name) msg,
      (if is_new then some (Frame.event msg user.display_name) else none),
    )

  unfoldable pub mark_conversation_read : String → ℤ → Action (ℕ × Frame)
  unfolding enter mark_read
  mark_conversation_read conversation_id last_read_sequence = do
    user ← enter conversation_id
    last_seq ← mark_read conversation_id user.id last_read_sequence
    pure (last_seq, Frame.read conversation_id user.id last_seq)
