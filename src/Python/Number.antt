-- ===== src/Python/Number.antt =====
-- Python's numbers: unbounded integers, and floats as a parameter.
use edgesense_ai.Prelude.{ℕ, Bool}

-- `negsuc n` is -(n + 1).
pub data ℤ : Type 0 where
  pos : ℕ → ℤ
  negsuc : ℕ → ℤ

-- `max(0, i)`
abbrev pub to_nat : ℤ → ℕ
to_nat (pos n) = n
to_nat (negsuc n) = 0

-- The operations of IEEE floats that the program uses; nothing is assumed of them here.
pub record Float (F : Type 0) : Type 0 where
  pub zero : F
  pub one : F
  pub add : F → F → F
  pub sub : F → F → F
  pub mul : F → F → F
  pub div : F → F → F
  pub abs : F → F
  pub lt : F → F → Bool
  pub le : F → F → Bool
  pub eq : F → F → Bool
  pub of_nat : ℕ → F
  -- `np.maximum`
  pub maximum : F → F → F
  pub ln : F → F
  pub erf : F → F
  pub sqrt : F → F
  pub tanh : F → F
  pub neg : F → F
  pub is_finite : F → Bool
  -- `round(x, digits)`
  pub round : F → ℕ → F

-- `x > y`
abbrev pub gt : {F : Type 0} → Float F → F → F → Bool
gt fl x y = fl.lt y x
