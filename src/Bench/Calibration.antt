-- ===== src/Bench/Calibration.antt =====
-- Working/coloursensorTest/coloursensorTest.ino, without its delays and its prints.
use cg2111a_final_project.Base.{ℕ, zero, suc, ◌+◌, [], ◌∷◌, Bool, true, false, switch, u8, u32}
use cg2111a_final_project.Base.Int.{ℤ, pos}
use cg2111a_final_project.Bench.{long, tenth, Mapping}

-- TCS3200_COLOR_RED to TCS3200_COLOR_CLEAR
abbrev pub color_red : ℕ
color_red = 1

abbrev pub color_green : ℕ
color_green = 2

abbrev pub color_blue : ℕ
color_blue = 3

abbrev pub color_clear : ℕ
color_clear = 4

-- The pins, with the modes that `begin_sensor` gives S0 to S3 (OUTPUT) and sensorOut (INPUT), and the
-- calibration of the sketch.
pub record Tcs : Type 0 where
  pub driven : Bool
  pub listening : Bool
  pub s0 : Bool
  pub s1 : Bool
  pub s2 : Bool
  pub s3 : Bool
  pub min_r : ℤ
  pub min_g : ℤ
  pub min_b : ℤ
  pub max_r : ℤ
  pub max_g : ℤ
  pub max_b : ℤ
  pub is_calibrated : Bool

-- `begin_sensor()`: the modes of the pins, and the scaling.
unfoldable pub begin_sensor : Tcs → Tcs
begin_sensor s = record s { driven = true; listening = true; s0 = true; s1 = false }

-- `select_filter(filter)`
unfoldable pub select_filter : Tcs → ℕ → Tcs
select_filter s filter =
    switch filter
      ((color_red ∷ [], record s { s2 = false; s3 = false })
        ∷ (color_green ∷ [], record s { s2 = true; s3 = true })
        ∷ (color_blue ∷ [], record s { s2 = false; s3 = true })
        ∷ (color_clear ∷ [], record s { s2 = true; s3 = false })
        ∷ [])
      s

-- What the sensor sees: the length of pulse `t` through the filter that the pins select.
abbrev pub Surface : Type 0
Surface = Bool → Bool → ℕ → ℕ

-- A reading through a filter: its bits, and the pins afterwards.
unfoldable pub read_filter : Surface → Tcs → ℕ → ℕ → ℕ × Tcs
unfolding select_filter
read_filter look s filter t = let s' = select_filter s filter in (u32 (look s'.s2 s'.s3 t), s')

unfoldable pub read_red : Surface → Tcs → ℕ → ℕ × Tcs
unfolding read_filter
read_red look s t = read_filter look s color_red t

unfoldable pub read_green : Surface → Tcs → ℕ → ℕ × Tcs
unfolding read_filter
read_green look s t = read_filter look s color_green t

unfoldable pub read_blue : Surface → Tcs → ℕ → ℕ × Tcs
unfolding read_filter
read_blue look s t = read_filter look s color_blue t

-- `read_clear()`: a `uint8_t`.
unfoldable pub read_clear : Surface → Tcs → ℕ → ℕ × Tcs
unfolding read_filter
read_clear look s t = let out = read_filter look s color_clear t in (u8 out.0, out.1)

-- The sums of the three colours.
pub record Sums : Type 0 where
  pub r : ℕ
  pub g : ℕ
  pub b : ℕ

-- One round of either calibration: the three colours, read at pulses `t` to `t + 2`.
unfoldable pub add_round : Surface → Tcs → ℕ → Sums → Sums × Tcs
unfolding read_red read_green read_blue
add_round look s t n =
    let red = read_red look s t in
    let green = read_green look red.1 (t + 1) in
    let blue = read_blue look green.1 (t + 2) in
    (record { r = u32 (n.r + red.0); g = u32 (n.g + green.0); b = u32 (n.b + blue.0) }, blue.1)

unfoldable pub light_rounds : Surface → ℕ → Tcs → ℕ → Sums → Sums × Tcs
light_rounds look zero s t n = (n, s)
light_rounds look (suc k) s t n =
    let out = add_round look s t n in light_rounds look k out.1 (t + 3) out.0

-- The rounds of `calibrate_dark` read the clear filter too; its sum is not used.
unfoldable pub dark_rounds : Surface → ℕ → Tcs → ℕ → Sums → Sums × Tcs
dark_rounds look zero s t n = (n, s)
dark_rounds look (suc k) s t n =
    let out = add_round look s t n in
    dark_rounds look k (read_clear look out.1 (t + 3)).1 (t + 4) out.0

abbrev pub nothing : Sums
nothing = record { r = 0; g = 0; b = 0 }

-- `calibrate_light()`
unfoldable pub calibrate_light : Surface → Tcs → Tcs
calibrate_light look s =
    let out = light_rounds look 10 s 0 nothing in
    record out.1 { min_r = tenth out.0.r; min_g = tenth out.0.g; min_b = tenth out.0.b }

-- `calibrate_dark()`
unfoldable pub calibrate_dark : Surface → Tcs → Tcs
calibrate_dark look s =
    let out = dark_rounds look 10 s 0 nothing in
    record out.1 { max_r = tenth out.0.r; max_g = tenth out.0.g; max_b = tenth out.0.b }

-- `calibrate()`, with the surface that the sensor faces in each half.
unfoldable pub calibrate : Surface → Surface → Tcs → Tcs
calibrate light dark s = record (calibrate_dark dark (calibrate_light light s)) {
  is_calibrated = true;
}

-- The values that `read_color` prints, and the pins afterwards.
pub record Values : Type 0 where
  pub red : ℤ
  pub green : ℤ
  pub blue : ℤ

-- `read_color()`
unfoldable pub read_color : Mapping → Surface → Tcs → ℕ → Values × Tcs
unfolding read_red read_green read_blue
read_color map look s t =
    let red = read_red look s t in
    let green = read_green look red.1 (t + 1) in
    let blue = read_blue look green.1 (t + 2) in
    (
      record {
        red = map (long red.0) s.min_r s.max_r (pos 255) (pos 0);
        green = map (long green.0) s.min_g s.max_g (pos 255) (pos 0);
        blue = map (long blue.0) s.min_b s.max_b (pos 255) (pos 0);
      },
      blue.1,
    )

-- `setup()`
unfoldable pub setup : Surface → Surface → Tcs → Tcs
setup light dark s = calibrate light dark (begin_sensor s)
