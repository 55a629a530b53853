-- ===== src/Sensors/Colour.antt =====
-- Working/Alex-a/colorsensor.ino: the colour sensor and the classification of colours.
pub mod Least
pub mod Classified
use cg2111a_final_project.Base.{
  ℕ, zero, suc, ◌+◌, ◌-◌, ◌%◌, ◌^◌, Bool, true, false, ◌||◌, ltb, if◌then◌else◌,
}
use cg2111a_final_project.Base.Int.{ℤ, pos, negsuc}
use cg2111a_final_project.Sensors.Floating.{Floating}

-- VECT_INCR
abbrev pub vect_incr : ℕ
vect_incr = 100

-- An array of three elements.
pub record Three {ℓ} (A : Type ℓ) : Type ℓ where
  pub first : A
  pub second : A
  pub third : A

abbrev pub three {ℓ} : {A : Type ℓ} → A → A → A → Three A
three x y z = record { first = x; second = y; third = z }

-- The pins of the sensor: the scaling, the filter, and the modes that `setupColor` gives S0 to S3
-- (OUTPUT) and sensorOut (INPUT).
pub record Pins : Type 0 where
  pub driven : Bool
  pub listening : Bool
  pub s0 : Bool
  pub s1 : Bool
  pub s2 : Bool
  pub s3 : Bool

-- WHITE, RED and GREEN
abbrev pub white : ℕ
white = 0

abbrev pub red : ℕ
red = 1

abbrev pub green : ℕ
green = 2

-- The readings of each colour near the sensor and far from it.
abbrev pub color_freq_min : Three (Three ℕ)
color_freq_min = three (three 118 114 91) (three 223 458 355) (three 300 214 241)

abbrev pub color_freq_max : Three (Three ℕ)
color_freq_max = three (three 453 461 364) (three 552 723 558) (three 661 586 514)

-- The 16-bit `int` with a bit pattern.
abbrev pub int16 : ℕ → ℤ
int16 w = if ltb w (2 ^ 15) then pos w else negsuc (2 ^ 16 - 1 - w)

-- `colSum` after `n` more readings, the next one of index `t`, as a bit pattern.
unfoldable pub sum_readings : (ℕ → ℕ) → ℕ → ℕ → ℕ → ℕ
sum_readings pulse_in zero t sum = sum
sum_readings pulse_in (suc n) t sum =
    sum_readings pulse_in n (t + 1) ((sum + pulse_in t % 2 ^ 16) % 2 ^ 16)

module _ (f : Floating) where
  open f use {Real, of_ℕ, of_ℤ, add, sub, mul, div, sqrt, lt}

  -- `getAvgReading(iterations)`, where `pulse_in t` is what `pulseIn` answers at reading `t`.
  unfoldable pub get_avg_reading : (ℕ → ℕ) → ℕ → ℕ → Real
  unfolding sum_readings
  get_avg_reading pulse_in iterations t =
      div (of_ℤ (int16 (sum_readings pulse_in iterations t 0))) (of_ℕ iterations)

  -- The step from a near reading to the far one, of `setupColor`.
  unfoldable pub direction : ℕ → ℕ → Real
  direction near far = div (sub (of_ℕ far) (of_ℕ near)) (of_ℕ vect_incr)

  abbrev pub directions : Three ℕ → Three ℕ → Three Real
  directions near far =
      three (direction near.first far.first) (direction near.second far.second)
        (direction near.third far.third)

  -- `setupColor()`: the scaling of 20%, and the direction vectors.
  unfoldable pub setup_color : Pins → Pins × Three (Three Real)
  unfolding direction
  setup_color p = (
    record p { driven = true; listening = true; s0 = true; s1 = false },
    three (directions color_freq_min.first color_freq_max.first)
        (directions color_freq_min.second color_freq_max.second)
        (directions color_freq_min.third color_freq_max.third),
  )

  -- The square of the distance in one component, `i` steps from the near reading.
  unfoldable pub squared : ℕ → ℕ → Real → Real → Real
  squared i near step test = let d = sub (add (of_ℕ near) (mul (of_ℕ i) step)) test in mul d d

  -- `calc_dist` of round `i` of `color_dist`.
  unfoldable pub calc_dist : Three ℕ → Three Real → Three Real → ℕ → Real
  unfolding squared
  calc_dist near step test i = sqrt (
      add
        (add (add (of_ℕ 0) (squared i near.first step.first test.first))
          (squared i near.second step.second test.second))
        (squared i near.third step.third test.third))

  -- `min_dist` after one more distance.
  unfoldable pub keep_closer : Real → Real → Real
  keep_closer min_dist calc = if lt min_dist (of_ℕ 1) || lt calc min_dist then calc else min_dist

  -- The rounds of `color_dist` from `i` on.
  unfoldable pub closest_on : (ℕ → Real) → ℕ → ℕ → Real → Real
  unfolding keep_closer
  closest_on calc zero i min_dist = min_dist
  closest_on calc (suc n) i min_dist = closest_on calc n (i + 1) (keep_closer min_dist (calc i))

  -- `color_dist(colourFrequencyMin, colourDirVect, testArray)`
  unfoldable pub color_dist : Three ℕ → Three Real → Three Real → Real
  unfolding calc_dist closest_on
  color_dist near step test = closest_on (calc_dist near step test) vect_incr 0 (of_ℕ 0)

  -- One round of the last loop of `getColor`: the smallest distance and its colour so far.
  unfoldable pub nearer : ℕ → Real → Real × ℕ → Real × ℕ
  nearer color dist best = if lt dist best.0 then (dist, color) else best

  -- The last loop of `getColor`.
  unfoldable pub classify : Three Real → ℕ
  unfolding nearer
  classify dist =
      (nearer green dist.third
        (nearer red dist.second (nearer white dist.first (dist.first, white)))).1

  -- What `getColor` leaves behind: the pins, the test array and the distances, and its result.
  pub record Reading : Type 0 where
    pub pins : Pins
    pub test : Three Real
    pub dist : Three Real
    pub color : ℕ

  -- `getColor()`: `sensor s2 s3 t` is the length of a pulse through the filter that the pins select, at
  -- reading `t` of the call.
  unfoldable pub get_color : (Bool → Bool → ℕ → ℕ) → Three (Three Real) → Pins → Reading
  unfolding get_avg_reading color_dist classify
  get_color sensor step p =
      let test =
        three (get_avg_reading (sensor false false) 5 0) (get_avg_reading (sensor true true) 5 5)
          (get_avg_reading (sensor false true) 5 10) in
      let dist =
        three (color_dist color_freq_min.first step.first test)
          (color_dist color_freq_min.second step.second test)
          (color_dist color_freq_min.third step.third test) in
      record {
        pins = record p { s2 = false; s3 = true };
        test = test;
        dist = dist;
        color = classify dist;
      }
