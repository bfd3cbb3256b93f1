-- ===== src/Signature.antt =====
-- The webhook signatures of packages/shared/src/crypto.py. HMAC-SHA256, UTF-8 and the decimal
-- numerals are parameters; bytes are numbers.
pub mod Window
use relationship_os.Base.Int.{ℤ, pos, negsuc}
use relationship_os.Base.{
  ℕ, suc, ◌+◌, ◌-◌, String, ◌<>◌, Bool, true, false, not, List, ◌++◌, ◌==◌, ltb, if◌then◌else◌,
}

-- `abs(current_time - timestamp)`
abbrev pub distance : ℕ → ℤ → ℕ
distance now (pos t) = if ltb now t then t - now else now - t
distance now (negsuc t) = now + suc t

pub data Reason : Type 0 where
  stale mismatch valid : Reason

module _ (utf8 : String → List ℕ) (str : ℤ → String) (hmac : List ℕ → List ℕ → String) where
  -- The bytes that are signed: `t={timestamp}.{payload}`
  abbrev pub signed_bytes : List ℕ → ℤ → List ℕ
  signed_bytes payload timestamp = utf8 ("t=" <> str timestamp <> ".") ++ payload

  unfoldable pub compute_webhook_signature : List ℕ → String → ℤ → String
  compute_webhook_signature payload secret timestamp =
      "v1=" <> hmac (utf8 secret) (signed_bytes payload timestamp)

  -- `current_time` is the clock's reading in seconds.
  unfoldable pub verify_webhook_signature :
      (current_time : ℕ) → List ℕ → String → String → ℤ → (tolerance_seconds : ℕ) → Bool × Reason
  verify_webhook_signature current_time payload secret signature_header timestamp tolerance =
      if ltb tolerance (distance current_time timestamp)
      then (false, Reason.stale)
      else if not (compute_webhook_signature payload secret timestamp == signature_header)
      then (false, Reason.mismatch)
      else (true, Reason.valid)
