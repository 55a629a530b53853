-- ===== src/Base/Words.antt =====
-- Machine words: the casts to fixed widths, and little-endian `uint32_t` values in byte arrays.
use Prim.Native.Nat.{ℕ, ◌+◌, ◌-◌, ◌*◌, ◌/◌, ◌%◌, ◌^◌, ◌<◌}
use mathlib.Core.Path.{◌≡◌}
use mathlib.Core.List.{List, [], ◌∷◌}
use native.Mathlib.Omega.{arith}
use mathlib.Core.Bool.{Bool}
use cg2111a_final_project.Base.Tests.{◌==◌, if◌then◌else◌}
use cg2111a_final_project.Base.Lists.{length, get_or}

abbrev pub u8 : ℕ → ℕ
u8 n = n % 2 ^ 8

abbrev pub u32 : ℕ → ℕ
u32 n = n % 2 ^ 32

-- The object representation of a `uint32_t`, least significant byte first.
unfoldable pub u32_bytes : ℕ → List ℕ
u32_bytes w = u8 w ∷ u8 (w / 2 ^ 8) ∷ u8 (w / 2 ^ 16) ∷ u8 (w / 2 ^ 24) ∷ []

-- The `uint32_t` that four bytes represent.
unfoldable pub u32_of_bytes : List ℕ → ℕ
u32_of_bytes bs =
    get_or bs 0 0 + get_or bs 1 0 * 2 ^ 8 + get_or bs 2 0 * 2 ^ 16 + get_or bs 3 0 * 2 ^ 24

pub length-u32_bytes : (w : ℕ) → length (u32_bytes w) ≡ 4
unfolding u32_bytes
length-u32_bytes w = omega arith

pub u32_of_bytes-u32_bytes : (w : ℕ) → w < 2 ^ 32 → u32_of_bytes (u32_bytes w) ≡ w
unfolding u32_of_bytes u32_bytes
u32_of_bytes-u32_bytes w h = omega arith

-- The object representation reads only the low 32 bits.
pub u32_bytes-u32 : (w : ℕ) → u32_bytes w ≡ u32_bytes (u32 w)
unfolding u32_bytes
u32_bytes-u32 w = grind arith

-- Bit `k` of a register.
abbrev pub bit : ℕ → ℕ → Bool
bit k w = w / 2 ^ k % 2 == 1

-- `w |= (1 << k)`
abbrev pub set_bit : ℕ → ℕ → ℕ
set_bit k w = if bit k w then w else w + 2 ^ k

-- `w &= ~(1 << k)`
abbrev pub clear_bit : ℕ → ℕ → ℕ
clear_bit k w = if bit k w then w - 2 ^ k else w
