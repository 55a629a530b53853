-- ===== src/Sensors/Buzzer/Played.antt =====
-- Every tune plays to its end, and how long it takes.
use cg2111a_final_project.Base.{
  ℕ, zero, suc, ◌+◌, ◌≤◌, ◌≡◌, refl, List, [], ◌∷◌, ◌++◌, Option, none, some, ◌>>=◌, take, ◌*◌,
}
use cg2111a_final_project.Base.Switch.{OnSome, OnSome-bind}
use cg2111a_final_project.Sensors.Floating.{Floating}
use cg2111a_final_project.Robot.{Tune, start_tone, low_hp, caught, celebrate, tokyo_drift}
use cg2111a_final_project.Sensors.Buzzer.Songs.{
  low_hp_durations, caught_durations, celebrate_durations, tokyo_drift_durations,
}
use cg2111a_final_project.Sensors.Buzzer.{
  Sound, tone, delay, no_tone, shortened, play_note, play_notes, play_tune,
}

-- The milliseconds that sounds take.
abbrev pub waits : List Sound → ℕ
waits [] = 0
waits (tone hz ms ∷ ss) = waits ss
waits (delay ms ∷ ss) = ms + waits ss
waits (no_tone ∷ ss) = waits ss

-- Each tone has ended when the next note begins.
abbrev pub AllShort : List Sound → Type 0
AllShort (tone hz ms ∷ delay wait ∷ no_tone ∷ ss) = (ms ≤ wait) × AllShort ss
AllShort [] = Unit
AllShort _ = ⊥

abbrev pub total : List ℕ → ℕ
total [] = 0
total (n ∷ ns) = n + total ns

-- The milliseconds of a tune, from its speed and the lengths of its notes: of five rounds for `low_hp`, and
-- of the first 29 notes for `tokyo_drift`.
abbrev pub time : Tune → ℕ
time start_tone = 40 * (20 * 4)
time low_hp = 5 * (40 * total low_hp_durations)
time caught = 90 * total caught_durations
time celebrate = 60 * total celebrate_durations
time tokyo_drift = 115 * total (take 29 tokyo_drift_durations)

module _ (f : Floating) where
  play_notes-AllShort :
      (frequency duration : ℕ → Option ℕ) (n i : ℕ)
      → ((ms : ℕ) → shortened f ms ≤ ms)
      → OnSome AllShort (play_notes f frequency duration n i)
  unfolding play_notes play_note
  play_notes-AllShort frequency duration zero i short = tt
  play_notes-AllShort frequency duration (suc n) i short =
      OnSome-bind AllShort (frequency i) _ λ hz. OnSome-bind AllShort (duration i) _ λ ms.
        lead hz ms (play_notes f frequency duration n (i + 1))
          (play_notes-AllShort frequency duration n (i + 1) short)
    where
      lead :
          (hz ms : ℕ) (rest : Option (List Sound))
          → OnSome AllShort rest
          → OnSome AllShort (rest >>= λ ss. some (play_note f hz ms ++ ss))
      lead hz ms none h = tt
      lead hz ms (some ss) h = (short ms, h)

  play_tune-AllShort :
      (unset : List ℕ) (t : Tune)
      → ((ms : ℕ) → shortened f ms ≤ ms)
      → OnSome AllShort (play_tune f unset t)
  unfolding play_tune
  play_tune-AllShort unset start_tone short = play_notes-AllShort _ _ 40 0 short
  play_tune-AllShort unset low_hp short = play_notes-AllShort _ _ 15 0 short
  play_tune-AllShort unset caught short = play_notes-AllShort _ _ 9 0 short
  play_tune-AllShort unset celebrate short = play_notes-AllShort _ _ 65 0 short
  play_tune-AllShort unset tokyo_drift short = play_notes-AllShort _ _ 29 0 short

  waits-play_tune :
      (w x y z : ℕ) (unset : List ℕ) (t : Tune)
      → (play_tune f (w ∷ x ∷ y ∷ z ∷ unset) t >>= λ ss. some (waits ss)) ≡ some (time t)
  unfolding play_tune play_notes play_note
  waits-play_tune w x y z unset start_tone = refl
  waits-play_tune w x y z unset low_hp = refl
  waits-play_tune w x y z unset caught = refl
  waits-play_tune w x y z unset celebrate = refl
  waits-play_tune w x y z unset tokyo_drift = refl

  -- Whatever the arrays hold behind their initialisers: no tune reads outside its arrays, which have at
  -- least four more elements; its waits add up to the time of all its notes; and where a tone of 95%
  -- of a length is not longer than it, each tone has ended before the next note.
  pub play_tune_lem :
      (w x y z : ℕ) (unset : List ℕ) (t : Tune)
      → ((ms : ℕ) → shortened f ms ≤ ms)
      → ((play_tune f (w ∷ x ∷ y ∷ z ∷ unset) t >>= λ ss. some (waits ss)) ≡ some (time t))
        × OnSome AllShort (play_tune f (w ∷ x ∷ y ∷ z ∷ unset) t)
  play_tune_lem w x y z unset t short =
      (waits-play_tune w x y z unset t, play_tune-AllShort (w ∷ x ∷ y ∷ z ∷ unset) t short)
