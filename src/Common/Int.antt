-- ===== src/Common/Int.antt =====
-- Signed integers, as far as the program reads them: a customer's budget, a provider's delay.
use Prim.Native.Nat.{ℕ}
use mathlib.Core.Bool.{Bool, false}
use post_call_processing_pip.Common.Tests.{leb}

-- `negsuc n` is -(n + 1).
pub data ℤ : Type 0 where
  pos : ℕ → ℤ
  negsuc : ℕ → ℤ

-- `n <= z`
abbrev pub at_most : ℕ → ℤ → Bool
at_most n (pos z) = leb n z
at_most n (negsuc z) = false
