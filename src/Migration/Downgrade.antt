-- ===== src/Migration/Downgrade.antt =====
-- `downgrade` of apps/api/alembic/versions/6df2b78d2f6b_initial_schema.py.
use relationship_os.Base.{List, [], ◌∷◌}
use relationship_os.Migration.{Op, drop_index, drop_table}

abbrev pub downgrade : List Op
downgrade =
    drop_index "ix_message_deliveries_message_id" "message_deliveries"
    ∷ drop_index "ix_deliveries_status" "message_deliveries"
    ∷ drop_index "ix_deliveries_msg_integration" "message_deliveries"
    ∷ drop_table "message_deliveries"
    ∷ drop_index "ix_attachments_message_id" "attachments"
    ∷ drop_table "attachments"
    ∷ drop_table "user_presences"
    ∷ drop_index "ix_sessions_user_id" "sessions"
    ∷ drop_index "ix_sessions_token_hash" "sessions"
    ∷ drop_index "ix_sessions_is_revoked" "sessions"
    ∷ drop_table "sessions"
    ∷ drop_index "ix_messages_sender_id" "messages"
    ∷ drop_index "ix_messages_delivery_state" "messages"
    ∷ drop_index "ix_messages_created_at" "messages"
    ∷ drop_index "ix_messages_conversation_id" "messages"
    ∷ drop_index "ix_messages_conv_seq" "messages"
    ∷ drop_index "ix_messages_conv_created" "messages"
    ∷ drop_index "ix_messages_client_message_id" "messages"
    ∷ drop_table "messages"
    ∷ drop_index "ix_enrollment_tokens_user_id" "enrollment_tokens"
    ∷ drop_index "ix_enrollment_tokens_token_hash" "enrollment_tokens"
    ∷ drop_index "ix_enrollment_tokens_is_used" "enrollment_tokens"
    ∷ drop_index "ix_enrollment_tokens_is_revoked" "enrollment_tokens"
    ∷ drop_table "enrollment_tokens"
    ∷ drop_index "ix_conversation_participants_user_id" "conversation_participants"
    ∷ drop_index "ix_conversation_participants_conversation_id" "conversation_participants"
    ∷ drop_table "conversation_participants"
    ∷ drop_table "webhook_endpoints"
    ∷ drop_index "ix_users_username" "users"
    ∷ drop_table "users"
    ∷ drop_index "ix_outbox_status_next_attempt" "outbox_events"
    ∷ drop_index "ix_outbox_events_status" "outbox_events"
    ∷ drop_index "ix_outbox_events_event_type" "outbox_events"
    ∷ drop_table "outbox_events"
    ∷ drop_table "integration_configs"
    ∷ drop_table "conversations"
    ∷ drop_index "ix_audit_created_at" "audit_events"
    ∷ drop_index "ix_audit_actor_action" "audit_events"
    ∷ drop_table "audit_events"
    ∷ []
