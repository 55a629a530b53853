-- ===== src/Sensors/Floating.antt =====
-- `float`, which is also the `double` of the Arduino, as the operations that the sketches use.
use cg2111a_final_project.Base.{ℕ, Bool}
use cg2111a_final_project.Base.Int.{ℤ}

-- `decimal m k` is the literal m / 10^k, and `to_ℕ` and `to_ℤ` are the conversions to an
-- unsigned and to a signed integer.
pub record Floating : Type 1 where
  pub Real : Type 0
  pub of_ℕ : ℕ → Real
  pub of_ℤ : ℤ → Real
  pub to_ℕ : Real → ℕ
  pub to_ℤ : Real → ℤ
  pub decimal : ℕ → ℕ → Real
  pub add : Real → Real → Real
  pub sub : Real → Real → Real
  pub mul : Real → Real → Real
  pub div : Real → Real → Real
  pub sqrt : Real → Real
  pub lt : Real → Real → Bool
