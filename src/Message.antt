-- ===== src/Message.antt =====
-- `MessageService` of apps/api/src/services/message_service.py.
pub mod Access
pub mod Send
pub mod History
