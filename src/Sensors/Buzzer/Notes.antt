-- ===== src/Sensors/Buzzer/Notes.antt =====
-- The note tables of Working/Alex-a/buzzer.ino: the frequency of a note in each octave.
use cg2111a_final_project.Base.{ℕ, List, [], ◌∷◌, get_or}

abbrev pub c : List ℕ
c = 0 ∷ 0 ∷ 0 ∷ 131 ∷ 262 ∷ 524 ∷ 1048 ∷ 2096 ∷ []

abbrev pub c_sharp : List ℕ
c_sharp = 0 ∷ 0 ∷ 0 ∷ 139 ∷ 277 ∷ 554 ∷ 1108 ∷ 2217 ∷ []

abbrev pub d : List ℕ
d = 0 ∷ 0 ∷ 0 ∷ 147 ∷ 294 ∷ 588 ∷ 1176 ∷ 2352 ∷ []

abbrev pub d_sharp : List ℕ
d_sharp = 0 ∷ 0 ∷ 0 ∷ 156 ∷ 311 ∷ 622 ∷ 1244 ∷ 2489 ∷ []

abbrev pub e : List ℕ
e = 0 ∷ 0 ∷ 0 ∷ 165 ∷ 330 ∷ 660 ∷ 1320 ∷ 2640 ∷ []

abbrev pub f : List ℕ
f = 0 ∷ 0 ∷ 0 ∷ 175 ∷ 350 ∷ 700 ∷ 1400 ∷ 2800 ∷ []

abbrev pub f_sharp : List ℕ
f_sharp = 0 ∷ 0 ∷ 0 ∷ 185 ∷ 370 ∷ 740 ∷ 1480 ∷ 2960 ∷ []

abbrev pub g : List ℕ
g = 0 ∷ 0 ∷ 0 ∷ 196 ∷ 392 ∷ 784 ∷ 1568 ∷ 3136 ∷ []

abbrev pub g_sharp : List ℕ
g_sharp = 0 ∷ 0 ∷ 0 ∷ 208 ∷ 415 ∷ 831 ∷ 1661 ∷ 3322 ∷ []

abbrev pub a : List ℕ
a = 0 ∷ 0 ∷ 0 ∷ 220 ∷ 440 ∷ 880 ∷ 1760 ∷ 3520 ∷ []

abbrev pub a_sharp : List ℕ
a_sharp = 0 ∷ 0 ∷ 0 ∷ 233 ∷ 466 ∷ 932 ∷ 1865 ∷ 3729 ∷ []

abbrev pub b : List ℕ
b = 0 ∷ 0 ∷ 0 ∷ 247 ∷ 494 ∷ 988 ∷ 1976 ∷ 3952 ∷ []

-- An element of a table.
abbrev pub octave : List ℕ → ℕ → ℕ
octave note n = get_or note n 0
