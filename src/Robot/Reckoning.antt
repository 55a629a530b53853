-- ===== src/Robot/Reckoning.antt =====
-- The floating-point computations of Alex-a.ino and robotlib.ino behind the record Floats.
use cg2111a_final_project.Base.{ℕ}
use cg2111a_final_project.Sensors.Floating.{Floating}
use cg2111a_final_project.Robot.{Floats}

module _ (f : Floating) where
  open f use {Real, of_ℕ, to_ℕ, decimal, add, mul, div, sqrt}

  -- ALEX_LENGTH, ALEX_BREADTH, PI, COUNTS_PER_REV and WHEEL_CIRC
  abbrev pub alex_length : Real
  alex_length = decimal 257 1

  abbrev pub alex_breadth : Real
  alex_breadth = decimal 150 1

  abbrev pub pi : Real
  pi = decimal 3141592654 9

  abbrev pub counts_per_rev : Real
  counts_per_rev = decimal 40 1

  abbrev pub wheel_circ : Real
  wheel_circ = decimal 213628300444 10

  -- `alexCirc`, as `setup` computes it.
  unfoldable pub alex_circ : Real
  alex_circ = mul pi (sqrt (add (mul alex_length alex_length) (mul alex_breadth alex_breadth)))

  -- `computeDeltaTicks(ang)`
  unfoldable pub compute_delta_ticks : Real → ℕ → ℕ
  compute_delta_ticks circ ang =
      to_ℕ (div (mul (mul (of_ℕ ang) circ) counts_per_rev) (mul (decimal 3600 1) wheel_circ))

  -- `(unsigned long)((float)ticks / COUNTS_PER_REV * WHEEL_CIRC)`
  unfoldable pub distance_of_ticks : ℕ → ℕ
  distance_of_ticks t = to_ℕ (mul (div (of_ℕ t) counts_per_rev) wheel_circ)

  -- `(speed / 100.0) * 255`
  unfoldable pub scaled_speed : ℕ → ℕ
  scaled_speed speed = to_ℕ (mul (div (of_ℕ speed) (decimal 1000 1)) (of_ℕ 255))

  -- The record of the moves and the encoders, for the value of `alexCirc`.
  unfoldable pub reckoning : Real → Floats
  unfolding compute_delta_ticks distance_of_ticks scaled_speed
  reckoning circ = record {
    through_float = λ n. to_ℕ (of_ℕ n);
    ticks_of_angle = compute_delta_ticks circ;
    distance_of_ticks = distance_of_ticks;
    scaled_speed = scaled_speed;
  }
