-- ===== src/Serial/Attempts.antt =====
-- The attempts to open the serial port.
use cg2111a_final_project.Base.{
  ℕ, zero, suc, ◌+◌, ◌<◌, ◌≡◌, refl, ◌⊎◌, inl, inr, true, false, arith, Bool-cases,
}
use cg2111a_final_project.Base.Int.{ℤ, negsuc, is_negative}
use cg2111a_final_project.Serial.{attempts, Options, start_serial}

-- The `n` attempts after number `attempt` fail.
abbrev pub AllFail : (ℕ → ℤ) → ℕ → ℕ → Type 0
AllFail opens attempt zero = Unit
AllFail opens attempt (suc n) =
    (is_negative (opens (attempt + 1)) ≡ true) × AllFail opens (attempt + 1) n

-- Either `k` of the attempts that are left fail, the next one succeeds and gives the descriptor, or all
-- that are left fail and the descriptor is negative.
abbrev pub Ended : (ℕ → ℤ) → ℕ → ℕ → ℤ → Type 0
Ended opens left attempt fd =
    ((k : ℕ) × (n : ℕ) × (n ≡ attempt + k + 1)
      × (k < left)
      × AllFail opens attempt k
      × (is_negative (opens n) ≡ false)
      × (fd ≡ opens n))
    ⊎ (AllFail opens attempt left × (is_negative fd ≡ true))

settled :
    (opens : ℕ → ℤ) (left attempt : ℕ) (fd : ℤ)
    → is_negative fd ≡ false
    → (attempts opens left attempt fd).0 ≡ fd
unfolding attempts
settled opens zero attempt fd e = refl
settled opens (suc left) attempt fd e = rw e refl

attempts_end :
    (opens : ℕ → ℤ) (left attempt : ℕ) (fd : ℤ)
    → is_negative fd ≡ true
    → Ended opens left attempt (attempts opens left attempt fd).0
unfolding attempts
attempts_end opens zero attempt fd e = inr (tt, e)
attempts_end opens (suc left) attempt fd e = elim (Bool-cases (is_negative (opens (attempt + 1)))) [
  | inr opened ↦ rw e (
      inl (
        0,
        attempt + 1,
        omega arith,
        omega arith,
        tt,
        opened,
        settled opens left (attempt + 1) (opens (attempt + 1)) opened,
      ))
  | inl failed ↦ rw e (elim (attempts_end opens left (attempt + 1) (opens (attempt + 1)) failed) [
    | inl (k, n, place, inside, fail, succeeds, same) ↦
        inl (suc k, n, omega (arith, place), omega (arith, inside), (failed, fail), succeeds, same)
    | inr (fail, negative) ↦ inr ((failed, fail), negative)
  ])
]

-- `startSerial` tries to open the port until an attempt succeeds, and ends with its descriptor, or with
-- a negative one when all of the attempts allowed fail.
pub start_serial_ends :
    (opens : ℕ → ℤ) (before got : Options) (baud byte_size parity stop_bits max_attempts : ℕ)
    → Ended opens max_attempts 0
        (start_serial opens before got baud byte_size parity stop_bits max_attempts).0
unfolding start_serial
start_serial_ends opens before got baud byte_size parity stop_bits max_attempts =
    attempts_end opens max_attempts 0 (negsuc 0) refl
