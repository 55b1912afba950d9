-- ===== src/Prelude/Int.antt =====
-- Go's `int`, as a signed number without a bound; where a bound matters it is written out.
use Prim.Native.Nat.{ℕ}
use mathlib.Core.Bool.{Bool, false}
use grpc_api_gateway_session.Prelude.Tests.{ltb}

-- `negsuc n` is -(n + 1).
pub data ℤ : Type 0 where
  pos : ℕ → ℤ
  negsuc : ℕ → ℤ

-- `z > 0`
unfoldable pub is_positive : ℤ → Bool
is_positive (pos n) = ltb 0 n
is_positive (negsuc n) = false
