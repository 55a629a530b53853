-- ===== src/Client/Known.antt =====
-- What the client sends is what the Pi understands.
use cg2111a_final_project.Base.{
  ℕ, ◌*◌, ◌-◌, ◌≡◌, refl, List, [], ◌∷◌, ◌++◌, Option, none, some, Bool, true, false, Bool-cases,
  Option-cases, ◌&&◌, inl, inr, ltb, elem,
}
use cg2111a_final_project.Base.Int.{ℤ, is_negative}
use cg2111a_final_project.Base.Switch.{AllLabels, elem_rule, switch_hit_rule}
use cg2111a_final_project.Server.Commands.{command_of}
use cg2111a_final_project.Client.{Client, Event, print, ssl_write, sleep, send_data, warn}
use cg2111a_final_project.Client.Keys.{
  Action, move, plain, toggle, quit, bad, manual_cases, manual_action, teleop_cases, teleop_letter,
  command_buffer,
}
use cg2111a_final_project.Client.Writer.{
  Input, Local, act, manual_round, teleop_round, writer_round,
}

-- A letter for which the Pi has a command.
abbrev pub IsKnown : ℕ → Type 0
IsKnown c = (code : ℕ) × (command_of c ≡ some code)

abbrev KnownAction : Action → Type 0
KnownAction (move c) = IsKnown c
KnownAction (plain c) = IsKnown c
KnownAction (toggle c) = IsKnown c
KnownAction quit = Unit
KnownAction bad = Unit

is_known : Option ℕ → Bool
is_known none = false
is_known (some code) = true

all_known : List ℕ → Bool
all_known [] = true
all_known (x ∷ xs) = is_known (command_of x) && all_known xs

IsKnown-of : (c : ℕ) → is_known (command_of c) ≡ true → IsKnown c
unfolding is_known
IsKnown-of c e = elim (Option-cases (command_of c)) [
  | inl nothing ↦ absurd (absurd_known (rw nothing at e))
  | inr found ↦ found
]
  where
    absurd_known : false ≡ true → ⊥
    absurd_known h = cc

labels-IsKnown : (labels : List ℕ) → all_known labels ≡ true → AllLabels IsKnown labels
unfolding all_known
labels-IsKnown [] e = tt
labels-IsKnown (x ∷ xs) e = elim (Bool-cases (is_known (command_of x))) [
  | inl good ↦ (IsKnown-of x good, labels-IsKnown xs (rw good at e))
  | inr wrong ↦ absurd (no (rw wrong at e))
]
  where
    no : false ≡ true → ⊥
    no h = cc

-- A key that is among letters which the Pi knows.
IsKnown-rule :
    (ch : ℕ) (labels : List ℕ) → all_known labels ≡ true → elem ch labels ≡ true → IsKnown ch
IsKnown-rule ch labels e = elem_rule IsKnown ch labels (labels-IsKnown labels e)

pair-IsKnown :
    (ch x y : ℕ) → all_known (x ∷ y ∷ []) ≡ true → elem ch (x ∷ y ∷ []) ≡ true → IsKnown ch
pair-IsKnown ch x y = IsKnown-rule ch (x ∷ y ∷ [])

manual_action-KnownAction : (ch : ℕ) → KnownAction (manual_action ch)
unfolding manual_action all_known is_known command_of
manual_action-KnownAction ch =
    switch_hit_rule KnownAction ch (manual_cases ch) bad
      (
        IsKnown-rule ch (b'f' ∷ b'F' ∷ b'b' ∷ b'B' ∷ b'l' ∷ b'L' ∷ b'r' ∷ b'R' ∷ []) refl,
        (
          IsKnown-rule ch (b's' ∷ b'S' ∷ b'c' ∷ b'C' ∷ b'g' ∷ b'G' ∷ []) refl,
          (
            (λ e. tt),
            (
              pair-IsKnown ch b'y' b'Y' refl,
              (
                pair-IsKnown ch b'u' b'U' refl,
                (
                  pair-IsKnown ch b'i' b'I' refl,
                  (
                    pair-IsKnown ch b'o' b'O' refl,
                    (
                      pair-IsKnown ch b'p' b'P' refl,
                      (
                        pair-IsKnown ch b'[' b'{' refl,
                        (pair-IsKnown ch b']' b'}' refl, (pair-IsKnown ch b'm' b'M' refl, tt)),
                      ),
                    ),
                  ),
                ),
              ),
            ),
          ),
        ),
      )
      tt

teleop_letter-IsKnown : (ch : ℕ) → IsKnown (teleop_letter ch)
unfolding teleop_letter all_known is_known command_of
teleop_letter-IsKnown ch =
    switch_hit_rule IsKnown ch (teleop_cases ch) b's'
      (
        (λ e. IsKnown-of b'f' refl),
        (
          (λ e. IsKnown-of b'l' refl),
          (
            (λ e. IsKnown-of b'b' refl),
            (
              (λ e. IsKnown-of b'r' refl),
              (
                IsKnown-rule ch (b'm' ∷ []) refl,
                (
                  pair-IsKnown ch b'y' b'Y' refl,
                  (
                    pair-IsKnown ch b'U' b'u' refl,
                    (
                      pair-IsKnown ch b'i' b'I' refl,
                      (
                        pair-IsKnown ch b'o' b'O' refl,
                        (
                          pair-IsKnown ch b'p' b'P' refl,
                          (pair-IsKnown ch b'[' b'{' refl, (pair-IsKnown ch b']' b'}' refl, tt)),
                        ),
                      ),
                    ),
                  ),
                ),
              ),
            ),
          ),
        ),
      )
      (IsKnown-of b's' refl)

-- Every write to the connection among the events satisfies `P`.
abbrev pub AllSent {ℓ} : (List ℕ → Type ℓ) → List Event → Type ℓ
AllSent P [] = Unit
AllSent P (ssl_write bs ∷ es) = P bs × AllSent P es
AllSent P (print l ∷ es) = AllSent P es
AllSent P (sleep n ∷ es) = AllSent P es

-- Ten bytes with a letter that the Pi knows.
abbrev pub IsCommand : List ℕ → Type 0
IsCommand bs = (c : ℕ) × (a : ℕ) × (b : ℕ) × (bs ≡ command_buffer c a b) × IsKnown c

warn-IsCommand : (c : ℤ) → AllSent IsCommand (warn c)
warn-IsCommand c = elim (Bool-cases (is_negative c)) [
  | inl failed ↦ rw failed tt
  | inr fine ↦ rw fine tt
]

AllSent-append :
    (es fs : List Event)
    → AllSent IsCommand es
    → AllSent IsCommand fs
    → AllSent IsCommand (es ++ fs)
AllSent-append [] fs h k = k
AllSent-append (ssl_write bs ∷ es) fs h k = (h.0, AllSent-append es fs h.1 k)
AllSent-append (print l ∷ es) fs h k = AllSent-append es fs h k
AllSent-append (sleep n ∷ es) fs h k = AllSent-append es fs h k

send_data-IsCommand :
    (s : Client) (w : ℤ) (c a b : ℕ)
    → IsKnown c
    → AllSent IsCommand (send_data s w (command_buffer c a b)).1
unfolding send_data
send_data-IsCommand s w c a b known = elim (Bool-cases s.network_active) [
  | inl on ↦ simp on ((c, a, b, refl, known), warn-IsCommand w)
  | inr off ↦ simp off tt
]

act-IsCommand :
    (s : Client) (i : Input) (a : Action) → KnownAction a → AllSent IsCommand (act s i a).1
unfolding act
act-IsCommand s i (move c) known =
    AllSent-append (send_data s i.written (command_buffer c i.param0 i.param1)).1 []
      (send_data-IsCommand s i.written c i.param0 i.param1 known) tt
act-IsCommand s i (plain c) known = send_data-IsCommand s i.written c 0 0 known
act-IsCommand s i (toggle c) known =
    AllSent-append (send_data s i.written (command_buffer c 0 0)).1 (sleep 2 ∷ [])
      (send_data-IsCommand s i.written c 0 0 known) tt
act-IsCommand s i quit known = tt
act-IsCommand s i bad known = tt

manual_round_known : (s : Client) (i : Input) (l : Local) → AllSent IsCommand (manual_round s i l).2
unfolding manual_round
manual_round_known s i l = act-IsCommand s i (manual_action i.key) (manual_action-KnownAction i.key)

teleop_round_known :
    (clocks_per_sec : ℕ) (s : Client) (i : Input) (l : Local)
    → AllSent IsCommand (teleop_round clocks_per_sec s i l).2
unfolding teleop_round
teleop_round_known clocks_per_sec s i l =
    elim (Bool-cases (ltb clocks_per_sec (2 * (i.now - l.old)))) [
      | inl late ↦ rw late (
          AllSent-append (send_data s i.written (command_buffer (teleop_letter i.key) 0 0)).1
            (sleep 0 ∷ [])
            (send_data-IsCommand s i.written (teleop_letter i.key) 0 0
              (teleop_letter-IsKnown i.key))
            tt)
      | inr early ↦ rw early tt
    ]

-- Whatever key is pressed, in either mode, every message to the Pi is ten bytes of a command whose
-- letter the Pi knows.
pub writer_round_known :
    (clocks_per_sec : ℕ) (s : Client) (i : Input) (l : Local)
    → AllSent IsCommand (writer_round clocks_per_sec s i l).2
unfolding writer_round
writer_round_known clocks_per_sec s i l = elim (Bool-cases s.manual_mode) [
  | inl manual ↦ simp manual (manual_round_known s i l)
  | inr free ↦ simp free (teleop_round_known clocks_per_sec s i l)
]
