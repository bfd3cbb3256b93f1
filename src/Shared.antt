-- ===== src/Shared.antt =====
-- packages/shared/src: the constants, the canonical event, and the exceptions of the API.
pub mod Constants
pub mod Event
pub mod Errors
pub mod Config
pub mod Secret
