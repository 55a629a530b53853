-- ===== src/Robot/Modes.antt =====
-- The two drive modes of the robot.
use cg2111a_final_project.Base.{ℕ, ◌≡◌, refl, List, [], ◌∷◌, false, get_or}
use cg2111a_final_project.Base.Switch.{switch_rule}
use cg2111a_final_project.Wire.Packet.{Packet}
use cg2111a_final_project.Robot.{Floats, Robot, Event}
use cg2111a_final_project.Robot.Moves.{forward, backward, left, right, turn, nudge, move, stop}
use cg2111a_final_project.Robot.Encoders.{clear_one_counter}
use cg2111a_final_project.Robot.Replies.{send_bad_command}
use cg2111a_final_project.Robot.Commands.{Input, command_cases, toggle_manual, handle_command}

-- The speed of the motors is the one that stands for 0.
abbrev pub Stands : Floats → Robot × List Event → Type 0
Stands f out = out.0.motors.speed ≡ f.scaled_speed 0

module _ (f : Floats) (r : Robot) (free : r.manual_mode ≡ false) (a b : ℕ) where
  forward-Stands : Stands f (forward f r a b)
  unfolding forward nudge stop move
  forward-Stands = simp free refl

  backward-Stands : Stands f (backward f r a b)
  unfolding backward nudge stop move
  backward-Stands = simp free refl

  left-Stands : Stands f (left f r a b)
  unfolding left turn nudge stop move
  left-Stands = simp free refl

  right-Stands : Stands f (right f r a b)
  unfolding right turn nudge stop move
  right-Stands = simp free refl

-- In the free mode a robot that stands, stands again after every command, known or not.
pub handle_command-Stands :
    (f : Floats) (i : Input) (r : Robot) (p : Packet)
    → r.manual_mode ≡ false
    → r.motors.speed ≡ f.scaled_speed 0
    → (handle_command f i r p).0.motors.speed ≡ f.scaled_speed 0
unfolding handle_command toggle_manual stop move clear_one_counter
handle_command-Stands f i r p free still =
    let p0 = get_or p.params 0 0 in
    let p1 = get_or p.params 1 0 in
    switch_rule (Stands f) p.command (command_cases f i r p0 p1)
      (r, send_bad_command i.before_answer ∷ [])
      (
        forward-Stands f r free p0 p1,
        (
          backward-Stands f r free p0 p1,
          (
            left-Stands f r free p0 p1,
            (
              right-Stands f r free p0 p1,
              (
                refl,
                (
                  still,
                  (
                    still,
                    (still, (still, (still, (still, (still, (still, (still, (still, tt)))))))),
                  ),
                ),
              ),
            ),
          ),
        ),
      )
      still
