-- ===== src/Domain/Floats.antt =====
-- Go's `float64` and the parts of package math that the calculation uses, as a parameter.
use review_service.Prelude.{ℕ, ℤ, pos, Bool}

-- `literal n k` is the double nearest to n / 10 ^ k; `le` and `lt` are `<=` and `<`, both false at a NaN.
pub record Floats (F : Type 0) : Type 0 where
  pub literal : ℤ → ℕ → F
  pub add : F → F → F
  pub sub : F → F → F
  pub mul : F → F → F
  pub div : F → F → F
  pub pow : F → F → F
  pub abs : F → F
  pub round : F → F
  pub le : F → F → Bool
  pub lt : F → F → Bool

abbrev pub number : {F : Type 0} → Floats F → ℕ → F
number ops n = ops.literal (pos n) 0
