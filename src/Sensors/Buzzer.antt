-- ===== src/Sensors/Buzzer.antt =====
-- Working/Alex-a/buzzer.ino: the tunes. `tone`, `delay` and `noTone` are effects.
pub mod Notes
pub mod Songs
pub mod Played
use cg2111a_final_project.Base.{
  ℕ, zero, suc, ◌+◌, ◌*◌, ◌%◌, List, [], ◌∷◌, ◌++◌, Option, some, ◌>>=◌, get_elem?,
}
use cg2111a_final_project.Sensors.Floating.{Floating}
use cg2111a_final_project.Robot.{Tune, start_tone, low_hp, caught, celebrate, tokyo_drift}
use cg2111a_final_project.Sensors.Buzzer.Songs.{
  low_hp_frequency, low_hp_durations, start_tone_frequency, celebrate_frequency,
  celebrate_durations, caught_frequency, caught_durations, tokyo_drift_frequency,
  tokyo_drift_durations,
}

-- A tone of a frequency and a length in milliseconds, the wait for the next note, and its end.
pub data Sound : Type 0 where
  tone : ℕ → ℕ → Sound
  delay : ℕ → Sound
  no_tone : Sound

module _ (f : Floating) where
  open f use {of_ℕ, to_ℕ, mul, decimal}

  -- `noteDuration*.95`
  unfoldable pub shortened : ℕ → ℕ
  shortened duration = to_ℕ (mul (of_ℕ duration) (decimal 95 2))

  -- The body of a loop over the notes.
  unfoldable pub play_note : ℕ → ℕ → List Sound
  unfolding shortened
  play_note frequency duration = tone frequency (shortened duration) ∷ delay duration ∷ no_tone ∷ []

  -- The notes from `i` on; `none` is a note outside an array.
  unfoldable pub play_notes : (ℕ → Option ℕ) → (ℕ → Option ℕ) → ℕ → ℕ → Option (List Sound)
  unfolding play_note
  play_notes frequency duration zero i = some []
  play_notes frequency duration (suc n) i = frequency i >>= λ hz. duration i >>= λ ms.
      play_notes frequency duration n (i + 1) >>= λ rest. some (play_note hz ms ++ rest)

  -- `speed*noteDurations[i]`
  abbrev pub timed : ℕ → List ℕ → ℕ → Option ℕ
  timed speed durations i = get_elem? durations i >>= λ d. some (speed * d)

  -- The tunes. The arrays of 100 frequencies hold `unset` behind their initialisers.
  unfoldable pub play_tune : List ℕ → Tune → Option (List Sound)
  play_tune unset low_hp =
      play_notes (λ i. get_elem? (low_hp_frequency ++ unset) (i % 3))
        (λ i. timed 40 low_hp_durations (i % 3)) 15 0
  play_tune unset start_tone =
      play_notes (get_elem? (start_tone_frequency ++ unset)) (λ i. some (20 * 4)) 40 0
  play_tune unset celebrate =
      play_notes (get_elem? (celebrate_frequency ++ unset)) (timed 60 celebrate_durations) 65 0
  play_tune unset caught =
      play_notes (get_elem? (caught_frequency ++ unset)) (timed 90 caught_durations) 9 0
  play_tune unset tokyo_drift =
      play_notes (get_elem? tokyo_drift_frequency) (timed 115 tokyo_drift_durations) 29 0
