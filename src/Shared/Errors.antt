-- ===== src/Shared/Errors.antt =====
-- What a service call may raise: `AppException` of apps/api/src/core/exceptions.py with its code
-- and HTTP status (the texts are left out), and the two exceptions of the database layer.
use relationship_os.Base.{ℕ}
use relationship_os.Shared.Constants.{ErrorCode}

pub data Error : Type 0 where
  app_exception : ErrorCode → ℕ → Error
  integrity_error multiple_results_found malformed : Error

abbrev pub auth_invalid : Error
auth_invalid = app_exception ErrorCode.auth_invalid 401

abbrev pub auth_expired : Error
auth_expired = app_exception ErrorCode.auth_expired 401

abbrev pub forbidden : Error
forbidden = app_exception ErrorCode.forbidden 403

abbrev pub not_found : Error
not_found = app_exception ErrorCode.not_found 404

abbrev pub message_too_large : Error
message_too_large = app_exception ErrorCode.message_too_large 413

-- `AppException` with its default status.
abbrev pub bad_request : ErrorCode → Error
bad_request code = app_exception code 400

-- The status of the response: the handlers that `main.py` registers.
unfoldable pub status_code : Error → ℕ
status_code (app_exception code status) = status
status_code _ = 500
