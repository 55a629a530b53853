-- ===== src/Robot/Journey.antt =====
-- A whole drive of the robot, from the call of `forward` on.
use cg2111a_final_project.Base.{ℕ, ◌+◌, ◌^◌, ◌≤◌, ◌<◌, ◌≡◌, refl, inl, List, true, ltb, length, u32}
use cg2111a_final_project.Robot.{Floats, Robot}
use cg2111a_final_project.Robot.Direction
use cg2111a_final_project.Robot.Moves.{running, move, asked, forward}
use cg2111a_final_project.Robot.Encoders.{supervise}
use cg2111a_final_project.Robot.Drive.{Op, run, Expected}
use cg2111a_final_project.Robot.Going.{Going, run-Going, Going-Expected}

-- The reading at which the drive ends.
abbrev pub target : Floats → Robot → ℕ → ℕ
target f r dist = u32 (r.counters.forward_dist + asked f dist)

-- The robot after `forward`, and ticks of the encoders and rounds of the loop in any order.
abbrev pub driven : Floats → Robot → ℕ → ℕ → List Op → Robot
driven f r dist speed ops = run f (forward f r dist speed).0 ops

-- In manual mode, from a call of `forward` on, with ticks and rounds in any order: after the next round
-- of the loop the motors stand and no limit is left if the distance has passed the one asked for, and
-- otherwise they run forward at the given speed with the limit in place. It is assumed that no turn is
-- pending, that the distance asked for is not 0 as an integer, that the reading belongs to the ticks,
-- that these do not wrap around on the way, and that more ticks are no shorter distance.
pub drive_stops :
    (f : Floats) (r : Robot) (dist speed : ℕ) (ops : List Op)
    → r.manual_mode ≡ true
    → r.delta_ticks ≡ 0
    → 0 < asked f dist
    → r.counters.forward_dist ≡ f.distance_of_ticks r.counters.left_forward_ticks
    → r.counters.left_forward_ticks + length ops < 2 ^ 32
    → ((a b : ℕ) → a ≤ b → f.distance_of_ticks a ≤ f.distance_of_ticks b)
    → Expected f
        (running
          (f.scaled_speed speed)
          Direction.forward
          Direction.forward
          Direction.backward
          Direction.backward)
        (asked f dist)
        (target f r dist)
        (ltb (target f r dist) (driven f r dist speed ops).counters.forward_dist)
        (supervise f (driven f r dist speed ops))
unfolding forward move
drive_stops f r dist speed ops manual no_turn pos reading no_wrap rising =
    Going-Expected f _ _ _ pos rising (driven f r dist speed ops)
      (run-Going f _ _ _ pos rising ops (forward f r dist speed).0 begun)
  where
    begun :
        Going f
          (running
            (f.scaled_speed speed)
            Direction.forward
            Direction.forward
            Direction.backward
            Direction.backward)
          (asked f dist)
          (target f r dist)
          (length ops)
          (forward f r dist speed).0
    begun = simp manual (record {
      counting = record { reading = reading; no_wrap = no_wrap };
      state = inl (record {
        heading = refl;
        manual = refl;
        running = refl;
        distance = refl;
        limit = refl;
        no_turn = no_turn;
      });
    })
