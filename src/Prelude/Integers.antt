-- ===== src/Prelude/Integers.antt =====
-- Integers over the native numbers, and Go's `int` of 64 bits.
use Prim.Native.Nat.{ℕ, ◌-◌, ◌%◌, ◌^◌}
use review_service.Prelude.Tests.{ltb, if◌then◌else◌}

-- `negsuc n` is -(n + 1).
pub data ℤ : Type 0 where
  pos : ℕ → ℤ
  negsuc : ℕ → ℤ

-- The 64-bit integer of which a result too large leaves the low bits.
abbrev pub wrap_int : ℕ → ℤ
wrap_int n = let low = n % 2 ^ 64 in if ltb low (2 ^ 63) then pos low else negsuc (2 ^ 64 - 1 - low)
