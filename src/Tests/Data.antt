-- ===== src/Tests/Data.antt =====
-- A conversation of an owner and a recipient with two messages, and the settings of a small
-- deployment.
use relationship_os.Base.{ℕ, String, ◌<>◌, true, false, none, some, List, [], ◌∷◌}
use relationship_os.Shared.Constants.{UserRole, MessageType, DeliveryState, EventType}
use relationship_os.Shared.Event.{MessagePayload, CanonicalMessageEvent}
use relationship_os.Shared.Config.{Settings}
use relationship_os.Db.Rows.{
  User, Conversation, ConversationParticipant, Message, Db, OutboxEvent, empty_db, active, pending,
}
use relationship_os.Db.Session.{Session, open_session}
use relationship_os.Message.Send.{SendRequest}

abbrev pub cfg : Settings
cfg = record {
  environment = "production";
  access_token_expire_minutes = 60;
  app_name = "Relationship OS";
  app_version = "1.0.0";
  discord_enabled = true;
  discord_bot_token = some "b1";
  discord_backup_tokens = "b2, b3";
  discord_channel_id = some "9";
  discord_webhook_url = none;
  webhook_enabled = true;
  webhook_signing_secret = "secret";
  webhook_max_retries = 5;
  webhook_allow_localhost = false;
  signal_enabled = false;
  signal_bridge_url = none;
  signal_bridge_token = none;
  signal_recipient_number = none;
  rate_limit_login_per_minute = 5;
  max_message_length = 20;
  max_attachment_size_bytes = 1000;
  room_name = "Room";
}

abbrev pub user : String → UserRole → User
user id role = record {
  id = id;
  username = id;
  display_name = id;
  hashed_password = "#" <> id;
  role = role;
  is_active = true;
  created_at = 0;
  updated_at = 0;
}

abbrev pub room : Conversation
room = record {
  id = "c";
  title = "Room";
  type = "direct";
  status = active;
  metadata = [];
  created_at = 0;
  updated_at = 0;
}

abbrev pub member : String → ℕ → ConversationParticipant
member user_id seen = record {
  id = "p" <> user_id;
  conversation_id = "c";
  user_id = user_id;
  last_read_sequence = seen;
  joined_at = 0;
}

abbrev pub message : String → String → ℕ → Message
message id sender n = record {
  id = id;
  conversation_id = "c";
  sender_id = sender;
  message_type = MessageType.text;
  body = "hello";
  client_message_id = "k" <> id;
  sequence_number = n;
  delivery_state = DeliveryState.stored;
  origin = "chat";
  attachments = [];
  created_at = n;
  edited_at = none;
  deleted_at = none;
}

abbrev pub two_messages : List Message
two_messages = message "m1" "ann" 1 ∷ message "m2" "bob" 2 ∷ []

abbrev pub outbox_event : String → ℕ → OutboxEvent
outbox_event id retries = record {
  id = id;
  event_type = EventType.message_created;
  payload_json = "m1";
  status = pending;
  retry_count = retries;
  max_retries = 5;
  next_attempt_at = 10;
  locked_at = none;
  error_message = none;
  created_at = retries;
  completed_at = none;
}

abbrev pub db : Db
db = record empty_db {
  users = user "ann" UserRole.owner ∷ user "bob" UserRole.recipient ∷ [];
  conversations = room ∷ [];
  participants = member "ann" 1 ∷ member "bob" 0 ∷ [];
  messages = two_messages;
  outbox = outbox_event "o1" 0 ∷ outbox_event "o2" 4 ∷ [];
}

abbrev pub session : Session
session = open_session db

abbrev pub payload : MessagePayload
payload = record { type = MessageType.text; body = "good morning"; attachments = [] }

abbrev pub send_request : String → String → MessagePayload → SendRequest
send_request conversation_id client_message_id p = record {
  conversation_id = conversation_id;
  sender_id = "bob";
  sender_name = "Bob";
  sender_role = UserRole.recipient;
  client_message_id = client_message_id;
  payload = p;
  origin = "chat";
  message_id = "m3";
  discord_delivery_id = "d1";
  webhook_delivery_id = "d2";
  outbox_id = "o3";
  event_id = "e3";
  now = 100;
}

abbrev pub dump : CanonicalMessageEvent → String
dump e = e.message_id
