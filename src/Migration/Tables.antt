-- ===== src/Migration/Tables.antt =====
-- The tables that `upgrade` creates, of apps/api/alembic/versions/6df2b78d2f6b_initial_schema.py.
use relationship_os.Base.{true, false, [], ◌∷◌}
use relationship_os.Migration.{
  Op, create_table, column, varchar, enumeration, text, datetime, boolean, integer, primary_key,
  unique, foreign_key,
}

abbrev pub create_audit_events : Op
create_audit_events =
    create_table "audit_events"
      (column "id" (varchar 36) false
        ∷ column "actor_id" (varchar 64) false
        ∷ column "action" (varchar 64) false
        ∷ column "target" (varchar 128) false
        ∷ column "ip_address" (varchar 45) true
        ∷ column "user_agent" (varchar 255) true
        ∷ column "details_json" text false
        ∷ column "created_at" datetime false
        ∷ [])
      (primary_key "id" ∷ [])

abbrev pub create_conversations : Op
create_conversations =
    create_table "conversations"
      (column "id" (varchar 36) false
        ∷ column "title" (varchar 255) false
        ∷ column "type" (varchar 32) false
        ∷ column "status" (varchar 32) false
        ∷ column "metadata_json" text false
        ∷ column "created_at" datetime false
        ∷ column "updated_at" datetime false
        ∷ [])
      (primary_key "id" ∷ [])

abbrev pub create_integration_configs : Op
create_integration_configs =
    create_table "integration_configs"
      (column "id" (varchar 36) false
        ∷ column "integration_type" (varchar 64) false
        ∷ column "name" (varchar 128) false
        ∷ column "enabled" boolean false
        ∷ column "config_json" text false
        ∷ column "created_at" datetime false
        ∷ column "updated_at" datetime false
        ∷ [])
      (primary_key "id" ∷ unique ("integration_type" ∷ []) ∷ [])

abbrev pub create_outbox_events : Op
create_outbox_events =
    create_table "outbox_events"
      (column "id" (varchar 36) false
        ∷ column "event_type" (varchar 64) false
        ∷ column "payload_json" text false
        ∷ column "status" (varchar 32) false
        ∷ column "retry_count" integer false
        ∷ column "max_retries" integer false
        ∷ column "next_attempt_at" datetime false
        ∷ column "locked_at" datetime true
        ∷ column "error_message" text true
        ∷ column "created_at" datetime false
        ∷ column "completed_at" datetime true
        ∷ [])
      (primary_key "id" ∷ [])

abbrev pub create_users : Op
create_users =
    create_table "users"
      (column "id" (varchar 36) false
        ∷ column "username" (varchar 64) false
        ∷ column "display_name" (varchar 128) false
        ∷ column "hashed_password" (varchar 255) false
        ∷ column "role" (enumeration "userrole" ("OWNER" ∷ "RECIPIENT" ∷ "ADMIN" ∷ [])) false
        ∷ column "is_active" boolean false
        ∷ column "created_at" datetime false
        ∷ column "updated_at" datetime false
        ∷ [])
      (primary_key "id" ∷ [])

abbrev pub create_webhook_endpoints : Op
create_webhook_endpoints =
    create_table "webhook_endpoints"
      (column "id" (varchar 36) false
        ∷ column "name" (varchar 128) false
        ∷ column "url" (varchar 1024) false
        ∷ column "secret_hash" (varchar 255) false
        ∷ column "secret_preview" (varchar 16) false
        ∷ column "enabled" boolean false
        ∷ column "event_filters_json" text false
        ∷ column "max_retries" integer false
        ∷ column "created_at" datetime false
        ∷ column "last_success_at" datetime true
        ∷ column "last_failure_at" datetime true
        ∷ column "last_failure_reason" text true
        ∷ [])
      (primary_key "id" ∷ [])

abbrev pub create_conversation_participants : Op
create_conversation_participants =
    create_table "conversation_participants"
      (column "id" (varchar 36) false
        ∷ column "conversation_id" (varchar 36) false
        ∷ column "user_id" (varchar 36) false
        ∷ column "last_read_sequence" integer false
        ∷ column "joined_at" datetime false
        ∷ [])
      (foreign_key "conversation_id" "conversations"
        ∷ foreign_key "user_id" "users"
        ∷ primary_key "id"
        ∷ unique ("conversation_id" ∷ "user_id" ∷ [])
        ∷ [])

abbrev pub create_enrollment_tokens : Op
create_enrollment_tokens =
    create_table "enrollment_tokens"
      (column "id" (varchar 36) false
        ∷ column "token_hash" (varchar 64) false
        ∷ column "user_id" (varchar 36) false
        ∷ column "device_name" (varchar 128) false
        ∷ column "platform" (varchar 64) false
        ∷ column "is_used" boolean false
        ∷ column "is_revoked" boolean false
        ∷ column "expires_at" datetime false
        ∷ column "created_at" datetime false
        ∷ [])
      (foreign_key "user_id" "users" ∷ primary_key "id" ∷ [])

abbrev pub create_messages : Op
create_messages =
    create_table "messages"
      (column "id" (varchar 36) false
        ∷ column "conversation_id" (varchar 36) false
        ∷ column "sender_id" (varchar 36) false
        ∷ column "message_type" (varchar 32) false
        ∷ column "body" text false
        ∷ column "client_message_id" (varchar 128) false
        ∷ column "sequence_number" integer false
        ∷ column "delivery_state" (varchar 32) false
        ∷ column "metadata_json" text false
        ∷ column "created_at" datetime false
        ∷ column "edited_at" datetime true
        ∷ column "deleted_at" datetime true
        ∷ [])
      (foreign_key "conversation_id" "conversations"
        ∷ foreign_key "sender_id" "users"
        ∷ primary_key "id"
        ∷ unique ("conversation_id" ∷ "client_message_id" ∷ [])
        ∷ unique ("conversation_id" ∷ "sequence_number" ∷ [])
        ∷ [])

abbrev pub create_sessions : Op
create_sessions =
    create_table "sessions"
      (column "id" (varchar 36) false
        ∷ column "user_id" (varchar 36) false
        ∷ column "device_name" (varchar 128) false
        ∷ column "platform" (varchar 64) false
        ∷ column "token_hash" (varchar 64) false
        ∷ column "is_revoked" boolean false
        ∷ column "expires_at" datetime false
        ∷ column "created_at" datetime false
        ∷ column "last_seen_at" datetime false
        ∷ [])
      (foreign_key "user_id" "users" ∷ primary_key "id" ∷ [])

abbrev pub create_user_presences : Op
create_user_presences =
    create_table "user_presences"
      (column "user_id" (varchar 36) false
        ∷ column "status" (varchar 32) false
        ∷ column "device_name" (varchar 128) false
        ∷ column "last_heartbeat_at" datetime false
        ∷ [])
      (foreign_key "user_id" "users" ∷ primary_key "user_id" ∷ [])

abbrev pub create_attachments : Op
create_attachments =
    create_table "attachments"
      (column "id" (varchar 36) false
        ∷ column "message_id" (varchar 36) true
        ∷ column "filename" (varchar 255) false
        ∷ column "file_size" integer false
        ∷ column "mime_type" (varchar 128) false
        ∷ column "storage_path" (varchar 512) false
        ∷ column "created_at" datetime false
        ∷ [])
      (foreign_key "message_id" "messages" ∷ primary_key "id" ∷ [])

abbrev pub create_message_deliveries : Op
create_message_deliveries =
    create_table "message_deliveries"
      (column "id" (varchar 36) false
        ∷ column "message_id" (varchar 36) false
        ∷ column "integration_type" (varchar 64) false
        ∷ column "status" (varchar 32) false
        ∷ column "attempt_count" integer false
        ∷ column "first_attempted_at" datetime true
        ∷ column "last_attempted_at" datetime true
        ∷ column "completed_at" datetime true
        ∷ column "failure_reason" text true
        ∷ column "external_message_id" (varchar 255) true
        ∷ [])
      (foreign_key "message_id" "messages" ∷ primary_key "id" ∷ [])
