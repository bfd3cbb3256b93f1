-- ===== src/Outbox.antt =====
-- The outbox: `IntegrationRouter` and `OutboxWorker` of apps/api/src/services/outbox_worker.py.
pub mod Router
pub mod Worker
