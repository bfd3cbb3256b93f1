-- ===== src/Shared/Event.antt =====
-- `MessagePayload` and `CanonicalMessageEvent` of packages/shared/src/models.py. An attachment's
-- dictionary is its text. Points in time are microseconds since the epoch.
use relationship_os.Base.{ℕ, String, Option, List}
use relationship_os.Shared.Constants.{MessageType, EventType, UserRole}

pub record MessagePayload : Type 0 where
  pub type : MessageType
  pub body : String
  pub attachments : List String

-- `metadata` holds the one key that the code writes into it, `client_message_id`.
pub record CanonicalMessageEvent : Type 0 where
  pub event_id : String
  pub event_type : EventType
  pub conversation_id : String
  pub message_id : String
  pub sender_id : String
  pub sender_role : Option UserRole
  pub sender_name : Option String
  pub sequence : ℕ
  pub timestamp : ℕ
  pub origin : String
  pub message : MessagePayload
  pub client_message_id : String
