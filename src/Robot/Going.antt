-- ===== src/Robot/Going.antt =====
-- Ticks of the encoders and rounds of the loop in any order.
use cg2111a_final_project.Base.{
  ℕ, suc, ◌+◌, ◌≤◌, ◌<◌, ◌≡◌, refl, sym, subst, ◌⊎◌, inl, inr, List, [], ◌∷◌, ltb, arith, u32,
  length, ltb→lt, lt→ltb,
}
use cg2111a_final_project.Robot.{Floats, Motors, Robot}
use cg2111a_final_project.Robot.Moves.{move, stop}
use cg2111a_final_project.Robot.Encoders.{left_isr, right_isr, end_move, supervise}
use cg2111a_final_project.Robot.Drive.{
  Op, left_tick, right_tick, round, run, Underway, Halted, Expected, IsCounting, end_move-Halted,
  supervise_cases, supervise-Halted, left_isr_counts, right_isr_counts,
}

module _ (f : Floats) (m : Motors) (d t : ℕ) where
  -- Underway f m d t, or halted with the limit passed, with `n` ticks to come at most.
  pub record Going (n : ℕ) (r : Robot) : Type 0 where
    pub counting : IsCounting f m d t n r
    pub state : Underway f m d t r ⊎ (Halted f m d t r × (t < r.counters.forward_dist))

  module _ (pos : 0 < d)
      (rising : (a b : ℕ) → a ≤ b → f.distance_of_ticks a ≤ f.distance_of_ticks b) where
    left_tick-Going : (n : ℕ) (r : Robot) → Going (suc n) r → Going n (left_isr f r)
    left_tick-Going n r g = elim g.state [
      | inl u ↦ subst (Going n) (sym (left_isr_counts f m d t r u.heading)) (record {
        counting = ticked;
        state = inl (record {
          heading = u.heading;
          manual = u.manual;
          running = u.running;
          distance = u.distance;
          limit = u.limit;
          no_turn = u.no_turn;
        });
      })
      | inr (h, far) ↦ subst (Going n) (sym (left_isr_counts f m d t r h.heading)) (record {
        counting = ticked;
        state = inr (
          record {
            heading = h.heading;
            manual = h.manual;
            standing = h.standing;
            distance = h.distance;
            no_turn = h.no_turn;
          },
          farther far,
        );
      })
    ]
      where
        ticks : ℕ
        ticks = r.counters.left_forward_ticks

        next : u32 (ticks + 1) ≡ ticks + 1
        next = omega (arith, g.counting.no_wrap)

        ticked : IsCounting f m d t n (record r {
          counters = record r.counters {
            left_forward_ticks = u32 (ticks + 1);
            forward_dist = f.distance_of_ticks (u32 (ticks + 1));
          };
        })
        ticked = record { reading = refl; no_wrap = omega (arith, g.counting.no_wrap, next) }

        farther : t < r.counters.forward_dist → t < f.distance_of_ticks (u32 (ticks + 1))
        farther far =
            omega
              (arith, far, g.counting.reading, rising ticks (u32 (ticks + 1)) (omega (arith, next)))

    right_tick-Going : (n : ℕ) (r : Robot) → Going (suc n) r → Going n (right_isr r)
    right_tick-Going n r g = elim g.state [
      | inl u ↦ subst (Going n) (sym (right_isr_counts f m d t r u.heading)) (record {
        counting = record {
          reading = g.counting.reading;
          no_wrap = omega (arith, g.counting.no_wrap);
        };
        state = inl (record {
          heading = u.heading;
          manual = u.manual;
          running = u.running;
          distance = u.distance;
          limit = u.limit;
          no_turn = u.no_turn;
        });
      })
      | inr (h, far) ↦ subst (Going n) (sym (right_isr_counts f m d t r h.heading)) (record {
        counting = record {
          reading = g.counting.reading;
          no_wrap = omega (arith, g.counting.no_wrap);
        };
        state = inr (
          record {
            heading = h.heading;
            manual = h.manual;
            standing = h.standing;
            distance = h.distance;
            no_turn = h.no_turn;
          },
          far,
        );
      })
    ]

    weaken : (n : ℕ) (r : Robot) → Going (suc n) r → Going n r
    weaken n r g = record {
      counting = record {
        reading = g.counting.reading;
        no_wrap = omega (arith, g.counting.no_wrap);
      };
      state = g.state;
    }

    round-Going : (n : ℕ) (r : Robot) → Going (suc n) r → Going n (supervise f r)
    unfolding end_move stop move
    round-Going n r g = elim g.state [
      | inl u ↦ elim (supervise_cases f m d t r pos u) [
        | inl (passed, e) ↦ subst (Going n) (sym e) (record {
          counting = record {
            reading = g.counting.reading;
            no_wrap = omega (arith, g.counting.no_wrap);
          };
          state = inr (end_move-Halted f m d t r u, ltb→lt _ _ passed);
        })
        | inr (before, e) ↦ subst (Going n) (sym e) (weaken n r g)
      ]
      | inr (h, far) ↦ subst (Going n) (sym (supervise-Halted f m d t r h)) (weaken n r g)
    ]

    pub run-Going : (ops : List Op) (r : Robot) → Going (length ops) r → Going 0 (run f r ops)
    run-Going [] r g = g
    run-Going (left_tick ∷ ops) r g =
        run-Going ops (left_isr f r) (left_tick-Going (length ops) r g)
    run-Going (right_tick ∷ ops) r g =
        run-Going ops (right_isr r) (right_tick-Going (length ops) r g)
    run-Going (round ∷ ops) r g = run-Going ops (supervise f r) (round-Going (length ops) r g)

    pub Going-Expected :
        (r : Robot) → Going 0 r → Expected f m d t (ltb t r.counters.forward_dist) (supervise f r)
    Going-Expected r g = elim g.state [
      | inl u ↦ elim (supervise_cases f m d t r pos u) [
        | inl (passed, e) ↦ rw passed (subst (Halted f m d t) (sym e) (end_move-Halted f m d t r u))
        | inr (before, e) ↦ rw before (subst (Underway f m d t) (sym e) u)
      ]
      | inr (h, far) ↦
          rw (lt→ltb t r.counters.forward_dist far)
            (subst (Halted f m d t) (sym (supervise-Halted f m d t r h)) h)
    ]
