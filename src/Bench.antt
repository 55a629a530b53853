-- ===== src/Bench.antt =====
-- The bench sketches with which the colour sensor was calibrated: Working/coloursensorTest and
-- Working/coloursensor_main. `long` is a 32-bit word, read as signed where its sign matters.
pub mod Calibration
pub mod Endpoints
pub mod Mapped
pub mod Tests
use cg2111a_final_project.Base.{ℕ, zero, suc, ◌-◌, ◌/◌, ◌^◌, ◌≡◌, ◌≢◌, ltb, if◌then◌else◌}
use cg2111a_final_project.Base.Int.{ℤ, pos, negsuc}

abbrev pub negate : ℕ → ℤ
negate zero = pos 0
negate (suc n) = negsuc n

-- The `long` with a bit pattern, and its quotient by 10.
abbrev pub long : ℕ → ℤ
long w = if ltb w (2 ^ 31) then pos w else negate (2 ^ 32 - w)

abbrev pub tenth : ℕ → ℤ
tenth w = if ltb w (2 ^ 31) then pos (w / 10) else negate ((2 ^ 32 - w) / 10)

-- `map(x, in_min, in_max, out_min, out_max)` of the Arduino library, which is a parameter: it takes the ends
-- of one range to those of the other, unless the first range is empty.
abbrev pub Mapping : Type 0
Mapping = ℤ → ℤ → ℤ → ℤ → ℤ → ℤ

pub record MapsEnds (m : Mapping) : Type 0 where
  pub low : (a b c d : ℤ) → a ≢ b → m a a b c d ≡ c
  pub high : (a b c d : ℤ) → a ≢ b → m b a b c d ≡ d
