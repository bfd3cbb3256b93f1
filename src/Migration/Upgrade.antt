-- ===== src/Migration/Upgrade.antt =====
-- `upgrade` of apps/api/alembic/versions/6df2b78d2f6b_initial_schema.py.
use relationship_os.Base.{true, false, List, [], ◌∷◌}
use relationship_os.Migration.{Op, create_index}
use relationship_os.Migration.Tables.{
  create_audit_events, create_conversations, create_integration_configs, create_outbox_events,
  create_users, create_webhook_endpoints, create_conversation_participants,
  create_enrollment_tokens, create_messages, create_sessions, create_user_presences,
  create_attachments, create_message_deliveries,
}

abbrev pub upgrade : List Op
upgrade =
    create_audit_events
    ∷ create_index "ix_audit_actor_action" "audit_events" ("actor_id" ∷ "action" ∷ []) false
    ∷ create_index "ix_audit_created_at" "audit_events" ("created_at" ∷ []) false
    ∷ create_conversations
    ∷ create_integration_configs
    ∷ create_outbox_events
    ∷ create_index "ix_outbox_events_event_type" "outbox_events" ("event_type" ∷ []) false
    ∷ create_index "ix_outbox_events_status" "outbox_events" ("status" ∷ []) false
    ∷ create_index "ix_outbox_status_next_attempt" "outbox_events"
        ("status" ∷ "next_attempt_at" ∷ []) false
    ∷ create_users
    ∷ create_index "ix_users_username" "users" ("username" ∷ []) true
    ∷ create_webhook_endpoints
    ∷ create_conversation_participants
    ∷ create_index "ix_conversation_participants_conversation_id" "conversation_participants"
        ("conversation_id" ∷ []) false
    ∷ create_index "ix_conversation_participants_user_id" "conversation_participants"
        ("user_id" ∷ []) false
    ∷ create_enrollment_tokens
    ∷ create_index "ix_enrollment_tokens_is_revoked" "enrollment_tokens" ("is_revoked" ∷ []) false
    ∷ create_index "ix_enrollment_tokens_is_used" "enrollment_tokens" ("is_used" ∷ []) false
    ∷ create_index "ix_enrollment_tokens_token_hash" "enrollment_tokens" ("token_hash" ∷ []) true
    ∷ create_index "ix_enrollment_tokens_user_id" "enrollment_tokens" ("user_id" ∷ []) false
    ∷ create_messages
    ∷ create_index "ix_messages_client_message_id" "messages" ("client_message_id" ∷ []) false
    ∷ create_index "ix_messages_conv_created" "messages" ("conversation_id" ∷ "created_at" ∷ [])
        false
    ∷ create_index "ix_messages_conv_seq" "messages" ("conversation_id" ∷ "sequence_number" ∷ [])
        false
    ∷ create_index "ix_messages_conversation_id" "messages" ("conversation_id" ∷ []) false
    ∷ create_index "ix_messages_created_at" "messages" ("created_at" ∷ []) false
    ∷ create_index "ix_messages_delivery_state" "messages" ("delivery_state" ∷ []) false
    ∷ create_index "ix_messages_sender_id" "messages" ("sender_id" ∷ []) false
    ∷ create_sessions
    ∷ create_index "ix_sessions_is_revoked" "sessions" ("is_revoked" ∷ []) false
    ∷ create_index "ix_sessions_token_hash" "sessions" ("token_hash" ∷ []) true
    ∷ create_index "ix_sessions_user_id" "sessions" ("user_id" ∷ []) false
    ∷ create_user_presences
    ∷ create_attachments
    ∷ create_index "ix_attachments_message_id" "attachments" ("message_id" ∷ []) false
    ∷ create_message_deliveries
    ∷ create_index "ix_deliveries_msg_integration" "message_deliveries"
        ("message_id" ∷ "integration_type" ∷ []) false
    ∷ create_index "ix_deliveries_status" "message_deliveries" ("status" ∷ []) false
    ∷ create_index "ix_message_deliveries_message_id" "message_deliveries" ("message_id" ∷ []) false
    ∷ []
