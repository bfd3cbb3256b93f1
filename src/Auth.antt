-- ===== src/Auth.antt =====
-- Accounts, sessions and tokens: apps/api/src/services/auth_service.py, core/security.py and
-- routers/auth.py.
pub mod Account
pub mod Enrollment
pub mod Token
pub mod Routes
