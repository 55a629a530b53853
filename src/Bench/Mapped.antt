-- ===== src/Bench/Mapped.antt =====
-- Working/coloursensor_main/coloursensor.ino, without its delays and its prints.
use cg2111a_final_project.Base.{
  ℕ, zero, suc, ◌+◌, ◌-◌, ◌%◌, ◌^◌, List, [], ◌∷◌, Bool, true, ltb, if◌then◌else◌, bit, set_bit,
  clear_bit,
}
use cg2111a_final_project.Base.Int.{ℤ, pos, negsuc}
use cg2111a_final_project.Sensors.Floating.{Floating}
use cg2111a_final_project.Bench.{Mapping}
use cg2111a_final_project.Bench.Calibration.{Surface}

-- Bits of port L, and of port D.
abbrev pub s0 : ℕ
s0 = 7

abbrev pub s1 : ℕ
s1 = 5

abbrev pub s2 : ℕ
s2 = 3

abbrev pub s3 : ℕ
s3 = 1

abbrev pub sensor_out : ℕ
sensor_out = 1

-- The `int` that an integer is converted to, and the `uint8_t`.
abbrev pub word : ℕ → ℤ
word w = if ltb w (2 ^ 15) then pos w else negsuc (2 ^ 16 - 1 - w)

abbrev pub to_int : ℤ → ℤ
to_int (pos n) = word (n % 2 ^ 16)
to_int (negsuc n) = word (2 ^ 16 - 1 - n % 2 ^ 16)

abbrev pub to_u8 : ℤ → ℕ
to_u8 (pos n) = n % 2 ^ 8
to_u8 (negsuc n) = 2 ^ 8 - 1 - n % 2 ^ 8

-- The registers of the sensor, and the calibration.
pub record Main : Type 0 where
  pub ddrl : ℕ
  pub ddrd : ℕ
  pub portl : ℕ
  pub lower_red : ℕ
  pub upper_red : ℕ
  pub lower_green : ℕ
  pub upper_green : ℕ
  pub lower_blue : ℕ
  pub upper_blue : ℕ
  pub calibrated : Bool

-- `setupColor()`
unfoldable pub setup_color : Main → Main
setup_color m = record m {
  ddrl = set_bit s3 (set_bit s2 (set_bit s1 (set_bit s0 m.ddrl)));
  ddrd = clear_bit sensor_out m.ddrd;
  portl = clear_bit s1 (set_bit s0 m.portl);
}

-- `colSum` after `n` more readings, the next one of index `t`, as a bit pattern.
unfoldable pub sum_readings : (ℕ → ℕ) → ℕ → ℕ → ℕ → ℕ
sum_readings pulse_in zero t sum = sum
sum_readings pulse_in (suc n) t sum =
    sum_readings pulse_in n (t + 1) ((sum + pulse_in t % 2 ^ 16) % 2 ^ 16)

module _ (f : Floating) (map : Mapping) where
  open f use {Real, of_ℕ, of_ℤ, to_ℤ, div}

  -- `getAvgReading(iterations)` through the filter that port L selects, from reading `t` on.
  unfoldable pub get_avg_reading : Surface → Main → ℕ → ℕ → Real
  unfolding sum_readings
  get_avg_reading look m iterations t =
      div (of_ℤ (word (sum_readings (look (bit s2 m.portl) (bit s3 m.portl)) iterations t 0)))
        (of_ℕ iterations)

  -- The value of a reading, with the calibration of its colour.
  unfoldable pub scaled : Surface → Main → ℕ → ℕ → ℕ → ℤ
  unfolding get_avg_reading
  scaled look m lower upper t =
      let frequency = to_ℤ (get_avg_reading look m 5 t) in
      to_int (
        if m.calibrated
        then map frequency (pos lower) (pos upper) (pos 255) (pos 0)
        else map frequency (pos 0) (pos 255) (pos 255) (pos 0))

  -- `read_red()`, `read_green()` and `read_blue()`: the value, and the registers afterwards.
  unfoldable pub read_red : Surface → Main → ℕ → ℤ × Main
  unfolding scaled
  read_red look m t =
      let m' = record m { portl = clear_bit s3 (clear_bit s2 m.portl) } in
      (scaled look m' m.lower_red m.upper_red t, m')

  unfoldable pub read_green : Surface → Main → ℕ → ℤ × Main
  unfolding scaled
  read_green look m t =
      let m' = record m { portl = set_bit s3 (set_bit s2 m.portl) } in
      (scaled look m' m.lower_green m.upper_green t, m')

  unfoldable pub read_blue : Surface → Main → ℕ → ℤ × Main
  unfolding scaled
  read_blue look m t =
      let m' = record m { portl = set_bit s3 (clear_bit s2 m.portl) } in
      (scaled look m' m.lower_blue m.upper_blue t, m')

  -- `getColor()`: the values that it prints.
  unfoldable pub get_color : Surface → Main → ℕ → List ℤ × Main
  unfolding read_red read_green read_blue
  get_color look m t =
      let red = read_red look m t in
      let green = read_green look red.1 (t + 5) in
      let blue = read_blue look green.1 (t + 10) in (red.0 ∷ green.0 ∷ blue.0 ∷ [], blue.1)

  -- `calibrate_black()` and `calibrate_white()`
  unfoldable pub calibrate_black : Surface → Main → Main
  unfolding read_red read_green read_blue
  calibrate_black look m =
      let red = read_red look m 0 in
      let green = read_green look red.1 5 in
      let blue = read_blue look green.1 10 in
      record blue.1 {
        upper_red = to_u8 red.0;
        upper_green = to_u8 green.0;
        upper_blue = to_u8 blue.0;
      }

  unfoldable pub calibrate_white : Surface → Main → Main
  unfolding read_red read_green read_blue
  calibrate_white look m =
      let red = read_red look m 0 in
      let green = read_green look red.1 5 in
      let blue = read_blue look green.1 10 in
      record blue.1 {
        lower_red = to_u8 red.0;
        lower_green = to_u8 green.0;
        lower_blue = to_u8 blue.0;
      }

  -- `calibrate()`
  unfoldable pub calibrate : Surface → Surface → Main → Main
  unfolding calibrate_black calibrate_white
  calibrate white black m = record (calibrate_black black (calibrate_white white m)) {
    calibrated = true;
  }
