-- ===== src/Bench/Endpoints.antt =====
-- What a calibrated sensor reads on the two surfaces.
use cg2111a_final_project.Base.{
  ℕ, zero, suc, ◌+◌, ◌^◌, ◌≡◌, ◌≢◌, ◌<◌, refl, ap, ap₂, ◌∙◌, true, false, arith, u32, lt→ltb,
}
use cg2111a_final_project.Base.Int.{ℤ, pos, negsuc}
use cg2111a_final_project.Bench.{long, tenth, Mapping, MapsEnds}
use cg2111a_final_project.Bench.Calibration.{
  Tcs, Surface, Sums, Values, nothing, add_round, light_rounds, dark_rounds, read_red, read_green,
  read_blue, read_clear, read_filter, select_filter, calibrate_light, calibrate_dark, calibrate,
  read_color, setup, begin_sensor,
}

-- A surface on which each colour reads the same every time, for less than a minute.
pub record IsSteady (look : Surface) (n : Sums) : Type 0 where
  pub red : (t : ℕ) → look false false t ≡ n.r
  pub green : (t : ℕ) → look true true t ≡ n.g
  pub blue : (t : ℕ) → look false true t ≡ n.b
  pub red_short : n.r < 60_000_000
  pub green_short : n.g < 60_000_000
  pub blue_short : n.b < 60_000_000

abbrev times : ℕ → ℕ → ℕ
times zero x = 0
times (suc k) x = x + times k x

abbrev plus : Sums → ℕ → Sums → Sums
plus m k n = record { r = m.r + times k n.r; g = m.g + times k n.g; b = m.b + times k n.b }

abbrev Fits : Sums → ℕ → Sums → Type 0
Fits m k n =
    (m.r + times k n.r < 2 ^ 32) × (m.g + times k n.g < 2 ^ 32) × (m.b + times k n.b < 2 ^ 32)

abbrev turned : Tcs → Tcs
turned s = record s { s2 = false; s3 = true }

module _ (look : Surface) (n : Sums) (v : IsSteady look n) where
  add_round_lem :
      (s : Tcs) (t : ℕ) (m : Sums) → Fits m 1 n → add_round look s t m ≡ (plus m 1 n, turned s)
  unfolding add_round read_red read_green read_blue read_filter select_filter
  add_round_lem s t m (hr, hg, hb) =
      rw (v.red t, v.green (t + 1), v.blue (t + 2))
        (ground (arith, v.red_short, v.green_short, v.blue_short))

  plus_step : (m : Sums) (k : ℕ) → plus (plus m 1 n) k n ≡ plus m (suc k) n
  plus_step m k = ground arith

  first : (m : Sums) (k : ℕ) → Fits m (suc k) n → Fits m 1 n
  first m k (hr, hg, hb) = (omega (arith, hr), omega (arith, hg), omega (arith, hb))

  others : (m : Sums) (k : ℕ) → Fits m (suc k) n → Fits (plus m 1 n) k n
  others m k (hr, hg, hb) = (omega (arith, hr), omega (arith, hg), omega (arith, hb))

  light_rounds_lem :
      (k : ℕ) (s : Tcs) (t : ℕ) (m : Sums) → Fits m k n → (light_rounds look k s t m).0 ≡ plus m k n
  unfolding light_rounds
  light_rounds_lem zero s t m h = ground arith
  light_rounds_lem (suc k) s t m h =
      ap (λ o. (light_rounds look k o.1 (t + 3) o.0).0) (add_round_lem s t m (first m k h))
      ∙ light_rounds_lem k (turned s) (t + 3) (plus m 1 n) (others m k h)
      ∙ plus_step m k

  -- The dark rounds read the same sums, and leave the other calibration alone.
  abbrev cleared : Tcs → Tcs
  cleared s = record s { s2 = true; s3 = false }

  read_clear-pins : (s : Tcs) (t : ℕ) → (read_clear look s t).1 ≡ cleared s
  unfolding read_clear read_filter select_filter
  read_clear-pins s t = refl

  dark_rounds_lem :
      (k : ℕ) (s : Tcs) (t : ℕ) (m : Sums)
      → Fits m k n
      → ((dark_rounds look k s t m).0 ≡ plus m k n)
        × ((dark_rounds look k s t m).1.min_r ≡ s.min_r)
        × ((dark_rounds look k s t m).1.min_g ≡ s.min_g)
        × ((dark_rounds look k s t m).1.min_b ≡ s.min_b)
  unfolding dark_rounds
  dark_rounds_lem zero s t m h = (ground arith, refl, refl, refl)
  dark_rounds_lem (suc k) s t m h =
      let (sums, a, b, c) =
        dark_rounds_lem k (cleared (turned s)) (t + 4) (plus m 1 n) (others m k h) in
      let on : dark_rounds look (suc k) s t m
          ≡ dark_rounds look k (cleared (turned s)) (t + 4) (plus m 1 n) =
        ap (λ o. dark_rounds look k (read_clear look o.1 (t + 3)).1 (t + 4) o.0)
          (add_round_lem s t m (first m k h))
        ∙ ap (λ q. dark_rounds look k q (t + 4) (plus m 1 n))
            (read_clear-pins (turned s) (t + 3)) in
      (
        ap (λ w. w.0) on ∙ sums ∙ plus_step m k,
        ap (λ w. w.1.min_r) on ∙ a,
        ap (λ w. w.1.min_g) on ∙ b,
        ap (λ w. w.1.min_b) on ∙ c,
      )

  ten : Fits nothing 10 n
  ten = (omega (arith, v.red_short), omega (arith, v.green_short), omega (arith, v.blue_short))

  small : (x : ℕ) → x < 60_000_000 → tenth (0 + times 10 x) ≡ pos x
  small x h = rw (lt→ltb (0 + times 10 x) (2 ^ 31) (omega arith)) (ap pos (omega arith))

  calibrate_light_lem :
      (s : Tcs)
      → ((calibrate_light look s).min_r ≡ pos n.r)
        × ((calibrate_light look s).min_g ≡ pos n.g)
        × ((calibrate_light look s).min_b ≡ pos n.b)
  unfolding calibrate_light
  calibrate_light_lem s =
      let sums = light_rounds_lem 10 s 0 nothing ten in
      (
        ap (λ q. tenth q.r) sums ∙ small n.r v.red_short,
        ap (λ q. tenth q.g) sums ∙ small n.g v.green_short,
        ap (λ q. tenth q.b) sums ∙ small n.b v.blue_short,
      )

  calibrate_dark_lem :
      (s : Tcs)
      → ((calibrate_dark look s).max_r ≡ pos n.r)
        × ((calibrate_dark look s).max_g ≡ pos n.g)
        × ((calibrate_dark look s).max_b ≡ pos n.b)
        × ((calibrate_dark look s).min_r ≡ s.min_r)
        × ((calibrate_dark look s).min_g ≡ s.min_g)
        × ((calibrate_dark look s).min_b ≡ s.min_b)
  unfolding calibrate_dark
  calibrate_dark_lem s =
      let (sums, a, b, c) = dark_rounds_lem 10 s 0 nothing ten in
      (
        ap (λ q. tenth q.r) sums ∙ small n.r v.red_short,
        ap (λ q. tenth q.g) sums ∙ small n.g v.green_short,
        ap (λ q. tenth q.b) sums ∙ small n.b v.blue_short,
        a,
        b,
        c,
      )

  signed : (x : ℕ) → x < 60_000_000 → long (u32 x) ≡ pos x
  signed x h = rw (lt→ltb (u32 x) (2 ^ 31) (omega arith)) (ap pos (omega arith))

  read_color_lem :
      (map : Mapping) (s : Tcs) (t : ℕ)
      → (read_color map look s t).0 ≡ record {
        red = map (pos n.r) s.min_r s.max_r (pos 255) (pos 0);
        green = map (pos n.g) s.min_g s.max_g (pos 255) (pos 0);
        blue = map (pos n.b) s.min_b s.max_b (pos 255) (pos 0);
      }
  unfolding read_color read_red read_green read_blue read_filter select_filter
  read_color_lem map s t =
      rw
        (
          v.red t,
          v.green (t + 1),
          v.blue (t + 2),
          signed n.r v.red_short,
          signed n.g v.green_short,
          signed n.b v.blue_short,
        )
        refl

abbrev pub all : ℤ → Values
all x = record { red = x; green = x; blue = x }

-- Two numbers are different as integers.
apart : (x y : ℕ) → x ≢ y → pos x ≢ pos y
apart x y h e = h (ap pos_part e)
  where
    pos_part : ℤ → ℕ
    pos_part (pos n) = n
    pos_part (negsuc n) = 0

-- One colour at either end of its calibration.
module _ {map : Mapping} (ends : MapsEnds map) (x y : ℕ) (h : x ≢ y) {lo hi : ℤ} (low : lo ≡ pos x)
    (high : hi ≡ pos y) where
  lowest : map (pos x) lo hi (pos 255) (pos 0) ≡ pos 255
  lowest =
      ap₂ (λ a b. map (pos x) a b (pos 255) (pos 0)) low high
      ∙ ends.low (pos x) (pos y) (pos 255) (pos 0) (apart x y h)

  highest : map (pos y) lo hi (pos 255) (pos 0) ≡ pos 0
  highest =
      ap₂ (λ a b. map (pos y) a b (pos 255) (pos 0)) low high
      ∙ ends.high (pos x) (pos y) (pos 255) (pos 0) (apart x y h)

-- With two surfaces that read the same every time, each colour on both for less than a minute and not
-- equally long, and with a `map` that takes the ends of a range that is not empty to the ends of the other:
-- once `setup` has calibrated the sensor, `read_color` prints 255 for every colour on the light surface,
-- and 0 on the dark one.
pub setup-read_color :
    (map : Mapping) (light dark : Surface) (n m : Sums) (s : Tcs) (t : ℕ)
    → MapsEnds map
    → IsSteady light n
    → IsSteady dark m
    → n.r ≢ m.r
    → n.g ≢ m.g
    → n.b ≢ m.b
    → ((read_color map light (setup light dark s) t).0 ≡ all (pos 255))
      × ((read_color map dark (setup light dark s) t).0 ≡ all (pos 0))
unfolding setup calibrate
setup-read_color map light dark n m s t ends v w hr hg hb = (
  read_color_lem light n v map (setup light dark s) t
      ∙ cc (
        lowest ends n.r m.r hr low.0 high.0,
        lowest ends n.g m.g hg low.1 high.1,
        lowest ends n.b m.b hb low.2 high.2,
      ),
  read_color_lem dark m w map (setup light dark s) t
      ∙ cc (
        highest ends n.r m.r hr low.0 high.0,
        highest ends n.g m.g hg low.1 high.1,
        highest ends n.b m.b hb low.2 high.2,
      ),
)
  where
    start : Tcs
    start = calibrate_light light (begin_sensor s)

    high :
        ((calibrate_dark dark start).max_r ≡ pos m.r)
        × ((calibrate_dark dark start).max_g ≡ pos m.g)
        × ((calibrate_dark dark start).max_b ≡ pos m.b)
        × ((calibrate_dark dark start).min_r ≡ start.min_r)
        × ((calibrate_dark dark start).min_g ≡ start.min_g)
        × ((calibrate_dark dark start).min_b ≡ start.min_b)
    high = calibrate_dark_lem dark m w start

    low :
        ((calibrate_dark dark start).min_r ≡ pos n.r)
        × ((calibrate_dark dark start).min_g ≡ pos n.g)
        × ((calibrate_dark dark start).min_b ≡ pos n.b)
    low =
        let (r, g, b) = calibrate_light_lem light n v (begin_sensor s) in
        (high.3 ∙ r, high.4 ∙ g, high.5 ∙ b)
