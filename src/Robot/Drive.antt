-- ===== src/Robot/Drive.antt =====
-- A drive over a given distance: from the command to the stop.
use cg2111a_final_project.Base.{
  ℕ, ◌+◌, ◌^◌, ◌<◌, ◌≡◌, refl, ap, ◌∙◌, ◌⊎◌, inl, inr, List, [], ◌∷◌, Bool, true, false, ltb,
  if◌then◌else◌, u32, Bool-cases, lt→ltb,
}
use cg2111a_final_project.Robot.{Floats, Motors, Counters, Robot}
use cg2111a_final_project.Robot.Direction
use cg2111a_final_project.Robot.Moves.{running, move, stop, asked, forward}
use cg2111a_final_project.Robot.Encoders.{
  left_count, right_count, left_isr, right_isr, end_move, check_distance, check_turn, supervise,
}

-- A tick of an encoder, or a round of the loop in which no packet is complete.
pub data Op : Type 0 where
  left_tick right_tick round : Op

abbrev pub apply : Floats → Robot → Op → Robot
apply f r left_tick = left_isr f r
apply f r right_tick = right_isr r
apply f r round = supervise f r

abbrev pub run : Floats → Robot → List Op → Robot
run f r [] = r
run f r (op ∷ ops) = run f (apply f r op) ops

module _ (f : Floats) (m : Motors) (d t : ℕ) where
  -- The motors run as they were told, and the limit stands.
  pub record Underway (r : Robot) : Type 0 where
    pub heading : r.dir ≡ Direction.forward
    pub manual : r.manual_mode ≡ true
    pub running : r.motors ≡ m
    pub distance : r.delta_dist ≡ d
    pub limit : r.new_dist ≡ t
    pub no_turn : r.delta_ticks ≡ 0

  -- The motors stand, and no limit is left to check.
  pub record Halted (r : Robot) : Type 0 where
    pub heading : r.dir ≡ Direction.forward
    pub manual : r.manual_mode ≡ true
    pub standing : r.motors ≡ cg2111a_final_project.Robot.Moves.running (f.scaled_speed 0) 0 0 0 0
    pub distance : r.delta_dist ≡ 0
    pub no_turn : r.delta_ticks ≡ 0

  abbrev pub Expected : Bool → Robot → Type 0
  Expected true r = Halted r
  Expected false r = Underway r

  -- The reading of the distance belongs to the ticks, which do not wrap around within `n` more.
  pub record IsCounting (n : ℕ) (r : Robot) : Type 0 where
    pub reading : r.counters.forward_dist ≡ f.distance_of_ticks r.counters.left_forward_ticks
    pub no_wrap : r.counters.left_forward_ticks + n < 2 ^ 32

  pub end_move-Halted : (r : Robot) → Underway r → Halted (end_move f r)
  unfolding end_move stop move
  end_move-Halted r u = record {
    heading = u.heading;
    manual = u.manual;
    standing = refl;
    distance = refl;
    no_turn = u.no_turn;
  }

  no_turn_left : (r : Robot) → r.delta_ticks ≡ 0 → check_turn f r ≡ r
  unfolding check_turn
  no_turn_left r e = simp e refl

  supervise_manual :
      (r : Robot) → r.manual_mode ≡ true → supervise f r ≡ check_turn f (check_distance f r)
  unfolding supervise
  supervise_manual r e = simp e refl

  check_distance-Underway :
      (r : Robot)
      → 0 < d
      → Underway r
      → check_distance f r ≡ (if ltb t r.counters.forward_dist then end_move f r else r)
  unfolding check_distance
  check_distance-Underway r pos u = simp (u.distance, lt→ltb 0 d pos, u.heading, u.limit) refl

  -- A round of the loop while the robot is underway.
  pub supervise_cases :
      (r : Robot)
      → 0 < d
      → Underway r
      → ((ltb t r.counters.forward_dist ≡ true) × (supervise f r ≡ end_move f r))
        ⊎ ((ltb t r.counters.forward_dist ≡ false) × (supervise f r ≡ r))
  supervise_cases r pos u = elim (Bool-cases (ltb t r.counters.forward_dist)) [
    | inl passed ↦ inl (
      passed,
      after (end_move f r) (check_distance-Underway r pos u ∙ rw passed refl)
          (end_move-Halted r u).no_turn,
    )
    | inr before ↦
        inr (before, after r (check_distance-Underway r pos u ∙ rw before refl) u.no_turn)
  ]
    where
      after : (r' : Robot) → check_distance f r ≡ r' → r'.delta_ticks ≡ 0 → supervise f r ≡ r'
      after r' e z = supervise_manual r u.manual ∙ ap (check_turn f) e ∙ no_turn_left r' z

  -- A round of the loop after the stop changes nothing.
  pub supervise-Halted : (r : Robot) → Halted r → supervise f r ≡ r
  unfolding check_distance
  supervise-Halted r h =
      supervise_manual r h.manual
      ∙ ap (check_turn f) (simp h.distance refl)
      ∙ no_turn_left r h.no_turn

  -- What a tick of the left encoder counts.
  pub left_isr_counts :
      (r : Robot)
      → r.dir ≡ Direction.forward
      → left_isr f r ≡ record r {
        counters = record r.counters {
          left_forward_ticks = u32 (r.counters.left_forward_ticks + 1);
          forward_dist = f.distance_of_ticks (u32 (r.counters.left_forward_ticks + 1));
        };
      }
  unfolding left_isr left_count
  left_isr_counts r e = simp e refl

  pub right_isr_counts :
      (r : Robot)
      → r.dir ≡ Direction.forward
      → right_isr r ≡ record r {
        counters = record r.counters {
          right_forward_ticks = u32 (r.counters.right_forward_ticks + 1);
        };
      }
  unfolding right_isr right_count
  right_isr_counts r e = simp e refl
