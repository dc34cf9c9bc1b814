-- ===== src/Base/Floats.antt =====
-- `double`, which the program compares, multiplies, divides, prints and makes from integers: a type
-- with these operations, taken as a parameter. Nothing is assumed of them.

use agent_pulse.Base.Int.{ℤ}
use agent_pulse.Base.Texts.{Text}
use mathlib.Core.Bool.{Bool}

pub record Doubles : Type 1 where
  pub Double : Type 0
  pub gt : Double → Double → Bool
  pub lt : Double → Double → Bool
  pub ge : Double → Double → Bool
  pub neq : Double → Double → Bool
  pub mul : Double → Double → Double
  pub div : Double → Double → Double
  -- `0.0`.
  pub zero_double : Double
  -- `static_cast<double>`.
  pub from_int : ℤ → Double
  -- `ostream << double`.
  pub show : Double → Text
  -- `%.0f`.
  pub show_rounded : Double → Text
