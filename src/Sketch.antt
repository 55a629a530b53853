-- ===== src/Sketch.antt =====
-- Working/Alex-sb: the older sketch of the robot, with Alex-sb.ino and robotlib.ino. This file has its
-- state and its moves. It has no drive mode and no limits: a move goes on until the next command.
pub mod Codes
pub mod Encoders
pub mod Replies
pub mod Commands
pub mod Agreement
pub mod Tests
use cg2111a_final_project.Base.{ℕ, [], ◌∷◌, switch}
use cg2111a_final_project.Robot.{Floats, Motors, Counters}
use cg2111a_final_project.Robot.Moves.{running}
use cg2111a_final_project.Sketch.Codes

pub record Sketch : Type 0 where
  pub dir : ℕ
  pub counters : Counters
  pub motors : Motors

-- `move(speed, direction)`
unfoldable pub move : Floats → Sketch → ℕ → ℕ → Sketch
move f s speed direction =
    let v = f.scaled_speed speed in
    let b = Codes.backward in
    let g = Codes.forward in
    record s {
      motors =
          switch direction
            ((Codes.back ∷ [], running v b b g g)
              ∷ (Codes.go ∷ [], running v g g b b)
              ∷ (Codes.cw ∷ [], running v b g g b)
              ∷ (Codes.ccw ∷ [], running v g b b g)
              ∷ [])
            (running v 0 0 0 0);
    }

unfoldable pub forward : Floats → Sketch → ℕ → ℕ → Sketch
unfolding move
forward f s dist speed = move f (record s { dir = Codes.forward }) speed Codes.forward

unfoldable pub backward : Floats → Sketch → ℕ → ℕ → Sketch
unfolding move
backward f s dist speed = move f (record s { dir = Codes.backward }) speed Codes.backward

unfoldable pub ccw : Floats → Sketch → ℕ → ℕ → Sketch
unfolding move
ccw f s dist speed = move f (record s { dir = Codes.ccw }) speed Codes.ccw

unfoldable pub cw : Floats → Sketch → ℕ → ℕ → Sketch
unfolding move
cw f s dist speed = move f (record s { dir = Codes.cw }) speed Codes.cw

unfoldable pub stop : Floats → Sketch → Sketch
unfolding move
stop f s = move f (record s { dir = Codes.stop }) 0 Codes.stop

unfoldable pub left : Floats → Sketch → ℕ → ℕ → Sketch
unfolding ccw
left f s ang speed = ccw f s ang speed

unfoldable pub right : Floats → Sketch → ℕ → ℕ → Sketch
unfolding cw
right f s ang speed = cw f s ang speed
