-- ===== src/Bench/Tests.antt =====
-- The theorem on the calibrated sensor at two surfaces.
use cg2111a_final_project.Base.{
  ℕ, ◌≡◌, ◌≢◌, refl, Bool, true, false, ◌==◌, ==_refl, ne→==, if◌then◌else◌, arith, ap, sym, ltb,
  ltb→lt, ◌+◌,
}
use cg2111a_final_project.Base.Int.{ℤ, pos, negsuc}
use cg2111a_final_project.Bench.{Mapping, MapsEnds}
use cg2111a_final_project.Bench.Calibration.{Tcs, Surface, read_color, setup}
use cg2111a_final_project.Bench.Endpoints.{IsSteady, all, setup-read_color}

abbrev same : ℤ → ℤ → Bool
same (pos n) (pos m) = n == m
same (negsuc n) (negsuc m) = n == m
same (pos n) (negsuc m) = false
same (negsuc n) (pos m) = false

same_self : (a : ℤ) → same a a ≡ true
same_self (pos n) = ==_refl n
same_self (negsuc n) = ==_refl n

same_other : (a b : ℤ) → a ≢ b → same b a ≡ false
same_other (pos n) (pos m) h = ne→== m n (λ e. h (ap pos (sym e)))
same_other (negsuc n) (negsuc m) h = ne→== m n (λ e. h (ap negsuc (sym e)))
same_other (pos n) (negsuc m) h = refl
same_other (negsuc n) (pos m) h = refl

-- Two steps in the place of a line.
abbrev ends : Mapping
ends x a b c d = if same x a then c else d

ends-MapsEnds : MapsEnds ends
ends-MapsEnds = record {
  low = λ a b c d h. rw (same_self a) refl;
  high = λ a b c d h. rw (same_other a b h) refl;
}

abbrev paper : ℕ → Surface
paper n s2 s3 t = n + (if s2 then 1 else (if s3 then 2 else 3))

abbrev tcs : Tcs
tcs = record {
  driven = false;
  listening = false;
  s0 = false;
  s1 = false;
  s2 = false;
  s3 = false;
  min_r = pos 0;
  min_g = pos 0;
  min_b = pos 0;
  max_r = pos 0;
  max_g = pos 0;
  max_b = pos 0;
  is_calibrated = false;
}

steady :
    (n : ℕ) → ltb n 1000 ≡ true → IsSteady (paper n) (record { r = n + 3; g = n + 1; b = n + 2 })
steady n h = record {
  red = λ t. refl;
  green = λ t. refl;
  blue = λ t. refl;
  red_short = omega (arith, ltb→lt n 1000 h);
  green_short = omega (arith, ltb→lt n 1000 h);
  blue_short = omega (arith, ltb→lt n 1000 h);
}

setup-read_color_example :
    ((read_color ends (paper 50) (setup (paper 50) (paper 300) tcs) 7).0 ≡ all (pos 255))
    × ((read_color ends (paper 300) (setup (paper 50) (paper 300) tcs) 7).0 ≡ all (pos 0))
setup-read_color_example =
    setup-read_color ends (paper 50) (paper 300) (record { r = 53; g = 51; b = 52 })
      (record { r = 303; g = 301; b = 302 }) tcs 7 ends-MapsEnds (steady 50 refl) (steady 300 refl)
      (λ e. cc) (λ e. cc) (λ e. cc)
