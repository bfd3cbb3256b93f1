-- ===== src/Base/Int.antt =====
-- The integers that a client sends: `negsuc n` is -(n + 1).
use relationship_os.Base.Tests.{ltb}
use Prim.Native.Nat.{ℕ, min, max}
use mathlib.Core.Bool.{Bool, true, false}

pub data ℤ : Type 0 where
  pos : ℕ → ℤ
  negsuc : ℕ → ℤ

-- n < z and z < n, for a number that a column holds
abbrev pub lt_int : ℕ → ℤ → Bool
lt_int n (pos k) = ltb n k
lt_int n (negsuc _) = false

abbrev pub gt_int : ℕ → ℤ → Bool
gt_int n (pos k) = ltb k n
gt_int n (negsuc _) = true

-- `max(1, min(z, 100))`
abbrev pub clamp_limit : ℤ → ℕ
clamp_limit (pos k) = max 1 (min k 100)
clamp_limit (negsuc _) = 1
