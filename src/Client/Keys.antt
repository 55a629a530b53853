-- ===== src/Client/Keys.antt =====
-- The two `switch` statements of `writerThread`: what a key sends.
use cg2111a_final_project.Base.{ℕ, List, [], ◌∷◌, ◌++◌, switch, u32_bytes}
use cg2111a_final_project.Wire.Constants.Net

-- What a key of the manual mode does: ask for the parameters and send, send, stop, or complain.
pub data Action : Type 0 where
  move : ℕ → Action
  plain : ℕ → Action
  toggle : ℕ → Action
  quit : Action
  bad : Action

-- `switch (ch)` under `if (manualMode)`. The letters s, c and g send parameters that are set to 0, the
-- others send the zeros of `buffer[10] = {}`.
abbrev pub manual_cases : ℕ → List (List ℕ × Action)
manual_cases ch =
    (b'f' ∷ b'F' ∷ b'b' ∷ b'B' ∷ b'l' ∷ b'L' ∷ b'r' ∷ b'R' ∷ [], move ch)
    ∷ (b's' ∷ b'S' ∷ b'c' ∷ b'C' ∷ b'g' ∷ b'G' ∷ [], plain ch)
    ∷ (b'q' ∷ b'Q' ∷ [], quit)
    ∷ (b'y' ∷ b'Y' ∷ [], plain ch)
    ∷ (b'u' ∷ b'U' ∷ [], plain ch)
    ∷ (b'i' ∷ b'I' ∷ [], plain ch)
    ∷ (b'o' ∷ b'O' ∷ [], plain ch)
    ∷ (b'p' ∷ b'P' ∷ [], plain ch)
    ∷ (b'[' ∷ b'{' ∷ [], plain ch)
    ∷ (b']' ∷ b'}' ∷ [], plain ch)
    ∷ (b'm' ∷ b'M' ∷ [], toggle ch)
    ∷ []

unfoldable pub manual_action : ℕ → Action
manual_action ch = switch ch (manual_cases ch) bad

-- The letter that a key of the free tele-operation sends: `switch (ch)` under `else`.
abbrev pub teleop_cases : ℕ → List (List ℕ × ℕ)
teleop_cases ch =
    (b'w' ∷ [], b'f')
    ∷ (b'a' ∷ [], b'l')
    ∷ (b's' ∷ [], b'b')
    ∷ (b'd' ∷ [], b'r')
    ∷ (b'm' ∷ [], ch)
    ∷ (b'y' ∷ b'Y' ∷ [], ch)
    ∷ (b'U' ∷ b'u' ∷ [], ch)
    ∷ (b'i' ∷ b'I' ∷ [], ch)
    ∷ (b'o' ∷ b'O' ∷ [], ch)
    ∷ (b'p' ∷ b'P' ∷ [], ch)
    ∷ (b'[' ∷ b'{' ∷ [], ch)
    ∷ (b']' ∷ b'}' ∷ [], ch)
    ∷ []

unfoldable pub teleop_letter : ℕ → ℕ
teleop_letter ch = switch ch (teleop_cases ch) b's'

-- `buffer[10]` with the letter and the two parameters in place.
unfoldable pub command_buffer : ℕ → ℕ → ℕ → List ℕ
command_buffer letter param0 param1 =
    Net.command_packet ∷ letter ∷ (u32_bytes param0 ++ u32_bytes param1)
