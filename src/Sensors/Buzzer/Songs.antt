-- ===== src/Sensors/Buzzer/Songs.antt =====
-- The songs of Working/Alex-a/buzzer.ino: frequencies and lengths of the notes.
use cg2111a_final_project.Base.{ℕ, List, [], ◌∷◌}
use cg2111a_final_project.Sensors.Buzzer.Notes.{
  octave, a, a_sharp, b, c, c_sharp, d, d_sharp, e, f, f_sharp, g, g_sharp,
}

-- The frequencies of `low_hp`.
abbrev pub low_hp_frequency : List ℕ
low_hp_frequency = 0 ∷ octave d_sharp 5 ∷ octave a_sharp 4 ∷ []

abbrev pub low_hp_durations : List ℕ
low_hp_durations = 8 ∷ 4 ∷ 4 ∷ []

-- The frequencies of `start_tone`.
abbrev pub start_tone_frequency : List ℕ
start_tone_frequency =
    octave a 5
    ∷ octave g_sharp 5
    ∷ octave g 5
    ∷ octave f_sharp 5
    ∷ octave a 5
    ∷ octave e 5
    ∷ octave f 5
    ∷ octave e 5
    ∷ octave a 5
    ∷ octave d_sharp 5
    ∷ octave e 5
    ∷ octave d_sharp 5
    ∷ octave a 5
    ∷ octave d 5
    ∷ octave d_sharp 5
    ∷ octave d 5
    ∷ octave a 5
    ∷ octave c_sharp 5
    ∷ octave d 5
    ∷ octave c_sharp 5
    ∷ octave a 5
    ∷ octave c 5
    ∷ octave c_sharp 5
    ∷ octave c 5
    ∷ octave a 5
    ∷ octave b 4
    ∷ octave c 5
    ∷ octave b 4
    ∷ octave a 5
    ∷ octave a_sharp 4
    ∷ octave b 4
    ∷ octave a_sharp 4
    ∷ octave b 5
    ∷ octave b 5
    ∷ octave b 5
    ∷ octave b 5
    ∷ []

-- The frequencies of `celebrate`.
abbrev pub celebrate_frequency : List ℕ
celebrate_frequency =
    octave c 5
    ∷ octave g 4
    ∷ octave c 5
    ∷ octave g 5
    ∷ octave f 5
    ∷ octave e 5
    ∷ octave d 5
    ∷ octave b 4
    ∷ octave b 4
    ∷ octave g 4
    ∷ octave b 4
    ∷ octave e 5
    ∷ octave d 5
    ∷ octave b 4
    ∷ octave c 5
    ∷ octave e 5
    ∷ octave c 5
    ∷ octave g 4
    ∷ octave c 5
    ∷ octave g 5
    ∷ octave f 5
    ∷ octave e 5
    ∷ octave d 5
    ∷ octave b 4
    ∷ octave b 4
    ∷ octave g 4
    ∷ octave b 4
    ∷ octave e 5
    ∷ octave d 5
    ∷ octave b 4
    ∷ octave c 5
    ∷ octave c 5
    ∷ octave e 5
    ∷ octave f 5
    ∷ octave g 5
    ∷ octave e 5
    ∷ octave g 5
    ∷ octave f 5
    ∷ octave g 5
    ∷ octave f 5
    ∷ octave e 5
    ∷ octave d 5
    ∷ octave b 4
    ∷ octave d 5
    ∷ octave e 5
    ∷ octave f 5
    ∷ octave e 5
    ∷ octave d 5
    ∷ octave c 5
    ∷ octave e 5
    ∷ octave g 5
    ∷ octave f 5
    ∷ octave e 5
    ∷ octave f 5
    ∷ octave g 5
    ∷ octave a 5
    ∷ octave g 5
    ∷ octave f 5
    ∷ octave e 5
    ∷ octave f 5
    ∷ octave e 5
    ∷ octave f 5
    ∷ octave e 5
    ∷ octave d 5
    ∷ octave c 5
    ∷ []

abbrev pub celebrate_durations : List ℕ
celebrate_durations =
    4 ∷ 4 ∷ 4 ∷ 8 ∷ 8 ∷ 4 ∷ 4 ∷ 32 ∷ 4 ∷ 4 ∷ 4 ∷ 8 ∷ 8 ∷ 4 ∷ 4 ∷ 32 ∷ 4 ∷ 4 ∷ 4 ∷ 8 ∷ 8 ∷ 4 ∷ 4 ∷ 32
    ∷ 4 ∷ 4 ∷ 4 ∷ 8 ∷ 8 ∷ 4 ∷ 4 ∷ 16 ∷ 4 ∷ 4 ∷ 8 ∷ 16 ∷ 16 ∷ 4 ∷ 4 ∷ 4 ∷ 4 ∷ 16 ∷ 16 ∷ 16 ∷ 4 ∷ 4
    ∷ 4 ∷ 4 ∷ 16 ∷ 16 ∷ 16 ∷ 4 ∷ 4 ∷ 4 ∷ 4 ∷ 16 ∷ 8 ∷ 4 ∷ 4 ∷ 16 ∷ 4 ∷ 4 ∷ 4 ∷ 4 ∷ 16 ∷ []

-- The frequencies of `caught`.
abbrev pub caught_frequency : List ℕ
caught_frequency =
    octave a 5
    ∷ octave f 5
    ∷ octave c 5
    ∷ octave a_sharp 5
    ∷ octave a_sharp 5
    ∷ octave a_sharp 5
    ∷ octave g 5
    ∷ octave a_sharp 5
    ∷ octave a 5
    ∷ []

abbrev pub caught_durations : List ℕ
caught_durations = 4 ∷ 4 ∷ 8 ∷ 1 ∷ 1 ∷ 2 ∷ 3 ∷ 1 ∷ 8 ∷ []

-- The frequencies of `tokyo_drift`.
abbrev pub tokyo_drift_frequency : List ℕ
tokyo_drift_frequency =
    octave a_sharp 5
    ∷ 0
    ∷ octave a_sharp 5
    ∷ 0
    ∷ octave a_sharp 5
    ∷ 0
    ∷ octave a_sharp 5
    ∷ 0
    ∷ octave a_sharp 5
    ∷ octave b 5
    ∷ octave d_sharp 6
    ∷ octave a_sharp 5
    ∷ 0
    ∷ octave a_sharp 5
    ∷ 0
    ∷ octave a_sharp 5
    ∷ octave b 5
    ∷ octave d_sharp 6
    ∷ octave a_sharp 5
    ∷ 0
    ∷ octave a_sharp 5
    ∷ 0
    ∷ octave a_sharp 5
    ∷ octave b 5
    ∷ octave d_sharp 6
    ∷ octave a_sharp 5
    ∷ 0
    ∷ octave a_sharp 5
    ∷ 0
    ∷ octave a_sharp 5
    ∷ octave b 5
    ∷ octave d_sharp 6
    ∷ octave a_sharp 5
    ∷ 0
    ∷ octave a_sharp 5
    ∷ 0
    ∷ []

abbrev pub tokyo_drift_durations : List ℕ
tokyo_drift_durations =
    2 ∷ 2 ∷ 2 ∷ 2 ∷ 2 ∷ 2 ∷ 2 ∷ 2 ∷ 3 ∷ 3 ∷ 2 ∷ 2 ∷ 2 ∷ 2 ∷ 2 ∷ 3 ∷ 3 ∷ 2 ∷ 2 ∷ 2 ∷ 2 ∷ 2 ∷ 3 ∷ 3
    ∷ 2 ∷ 2 ∷ 2 ∷ 2 ∷ 2 ∷ 3 ∷ 3 ∷ 2 ∷ 2 ∷ 2 ∷ 2 ∷ 2 ∷ []
