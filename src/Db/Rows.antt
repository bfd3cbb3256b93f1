-- ===== src/Db/Rows.antt =====
-- The rows of apps/api/src/models, a record for each table with its columns. Points in time are
-- microseconds since the epoch; a JSON column holds the value that it encodes, but for the
-- outbox, where the code parses the text.
use relationship_os.Base.{ℕ, String, Bool, Option, List, []}
use relationship_os.Base.Int.{ℤ}
use relationship_os.Shared.Constants.{
  UserRole, MessageType, DeliveryState, PresenceState, EventType,
}

pub record User : Type 0 where
  pub id : String
  pub username : String
  pub display_name : String
  pub hashed_password : String
  pub role : UserRole
  pub is_active : Bool
  pub created_at : ℕ
  pub updated_at : ℕ

pub data ConversationStatus : Type 0 where
  active locked archived : ConversationStatus

pub record Conversation : Type 0 where
  pub id : String
  pub title : String
  pub type : String
  pub status : ConversationStatus
  pub metadata : List (String × String)
  pub created_at : ℕ
  pub updated_at : ℕ

pub record ConversationParticipant : Type 0 where
  pub id : String
  pub conversation_id : String
  pub user_id : String
  pub last_read_sequence : ℕ
  pub joined_at : ℕ

-- `metadata_json` is its two keys, `origin` and `attachments`.
pub record Message : Type 0 where
  pub id : String
  pub conversation_id : String
  pub sender_id : String
  pub message_type : MessageType
  pub body : String
  pub client_message_id : String
  pub sequence_number : ℕ
  pub delivery_state : DeliveryState
  pub origin : String
  pub attachments : List String
  pub created_at : ℕ
  pub edited_at : Option ℕ
  pub deleted_at : Option ℕ

pub record MessageDelivery : Type 0 where
  pub id : String
  pub message_id : String
  pub integration_type : String
  pub status : DeliveryState
  pub attempt_count : ℕ
  pub first_attempted_at : Option ℕ
  pub last_attempted_at : Option ℕ
  pub completed_at : Option ℕ
  pub failure_reason : Option String
  pub external_message_id : Option String

pub data OutboxStatus : Type 0 where
  pending processing delivered failed retrying : OutboxStatus

pub record OutboxEvent : Type 0 where
  pub id : String
  pub event_type : EventType
  pub payload_json : String
  pub status : OutboxStatus
  pub retry_count : ℕ
  pub max_retries : ℕ
  pub next_attempt_at : ℕ
  pub locked_at : Option ℕ
  pub error_message : Option String
  pub created_at : ℕ
  pub completed_at : Option ℕ

-- `models.session.Session`
pub record LoginSession : Type 0 where
  pub id : String
  pub user_id : String
  pub device_name : String
  pub platform : String
  pub token_hash : String
  pub is_revoked : Bool
  pub expires_at : ℕ
  pub created_at : ℕ
  pub last_seen_at : ℕ

pub record EnrollmentToken : Type 0 where
  pub id : String
  pub token_hash : String
  pub user_id : String
  pub device_name : String
  pub platform : String
  pub is_used : Bool
  pub is_revoked : Bool
  pub expires_at : ℕ
  pub created_at : ℕ

pub record UserPresence : Type 0 where
  pub user_id : String
  pub status : PresenceState
  pub device_name : String
  pub last_heartbeat_at : ℕ

pub record WebhookEndpoint : Type 0 where
  pub id : String
  pub name : String
  pub url : String
  pub secret_hash : String
  pub secret_preview : String
  pub enabled : Bool
  pub event_filters : Option (List String)
  pub max_retries : ℤ
  pub created_at : ℕ
  pub last_success_at : Option ℕ
  pub last_failure_at : Option ℕ
  pub last_failure_reason : Option String

-- A value of the JSON object `details`.
pub data Detail : Type 0 where
  text : String → Detail
  number : ℕ → Detail

-- Its key, which is drawn, is read nowhere and left out.
pub record AuditEvent : Type 0 where
  pub actor_id : String
  pub action : String
  pub target : String
  pub ip_address : Option String
  pub user_agent : Option String
  pub details : List (String × Detail)
  pub created_at : ℕ

pub record Attachment : Type 0 where
  pub id : String
  pub message_id : Option String
  pub filename : String
  pub file_size : ℤ
  pub mime_type : String
  pub storage_path : String
  pub created_at : ℕ

pub record Db : Type 0 where
  pub users : List User
  pub conversations : List Conversation
  pub participants : List ConversationParticipant
  pub messages : List Message
  pub deliveries : List MessageDelivery
  pub outbox : List OutboxEvent
  pub sessions : List LoginSession
  pub enrollments : List EnrollmentToken
  pub presences : List UserPresence
  pub webhooks : List WebhookEndpoint
  pub audits : List AuditEvent
  pub uploads : List Attachment

abbrev pub empty_db : Db
empty_db = record {
  users = [];
  conversations = [];
  participants = [];
  messages = [];
  deliveries = [];
  outbox = [];
  sessions = [];
  enrollments = [];
  presences = [];
  webhooks = [];
  audits = [];
  uploads = [];
}
