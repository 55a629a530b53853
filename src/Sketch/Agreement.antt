-- ===== src/Sketch/Agreement.antt =====
-- The two sketches, Working/Alex-sb and Working/Alex-a in its manual mode, side by side.
use cg2111a_final_project.Base.{◌≡◌, List, [], ◌∷◌, ◌++◌, Bool, true, not, ◌&&◌, ◌==◌, ltb}
use cg2111a_final_project.Wire.Packet.{Packet}
use cg2111a_final_project.Robot.{Floats, Counters, Robot, Event}
use cg2111a_final_project.Robot.Commands.{Input}
use cg2111a_final_project.Robot.Commands as Alex
use cg2111a_final_project.Robot.Direction
use cg2111a_final_project.Wire.Assemble.{packet_ok, packet_incomplete}
use cg2111a_final_project.Robot.Encoders as Alex_encoders
use cg2111a_final_project.Robot.Moves as Alex_moves
use cg2111a_final_project.Robot.Replies as Alex_replies
use cg2111a_final_project.Sketch.{Sketch, forward}
use cg2111a_final_project.Sketch.Codes
use cg2111a_final_project.Sketch.Encoders.{left_isr, right_isr}
use cg2111a_final_project.Sketch.Commands.{handle_command, handle_packet}

-- The counters of ticks and revolutions, with the distances left out.
abbrev pub ticks : Counters → Counters
ticks c = record c { forward_dist = 0; reverse_dist = 0 }

-- The two sketches are in the same state, but for the distances and what only one of them has.
pub record Agree (r : Robot) (s : Sketch) : Type 0 where
  pub manual : r.manual_mode ≡ true
  pub heading : r.dir ≡ s.dir
  pub motors : r.motors ≡ s.motors
  pub counters : ticks r.counters ≡ ticks s.counters

-- An interrupt of an encoder, or a call of `loop`: with a packet, or with none that is complete. The
-- packet handling in the loop of Alex-sb stands in a comment; this is what it would do.
pub data Op : Type 0 where
  left_tick right_tick : Op
  command idle : Input → Packet → Op

abbrev pub AllForward : List Op → Type 0
AllForward [] = Unit
AllForward (left_tick ∷ ops) = AllForward ops
AllForward (right_tick ∷ ops) = AllForward ops
AllForward (command i p ∷ ops) =
    (p.packet_type ≡ Codes.packet_command) × (p.command ≡ Codes.command_forward) × AllForward ops
AllForward (idle i p ∷ ops) = AllForward ops

-- The robot drives forward and has not covered more than the distance it was asked for.
abbrev pub driving : Robot → Bool
driving r = (r.dir == Direction.forward) && not (ltb r.new_dist r.counters.forward_dist)

module _ (f : Floats) where
  abbrev pub step_alex : Robot → Op → Robot × List Event
  step_alex r left_tick = (Alex_encoders.left_isr f r, [])
  step_alex r right_tick = (Alex_encoders.right_isr r, [])
  step_alex r (command i p) = Alex.loop f i r packet_ok p
  step_alex r (idle i p) = Alex.loop f i r packet_incomplete p

  abbrev pub step_sketch : Sketch → Op → Sketch × List Packet
  step_sketch s left_tick = (left_isr f s, [])
  step_sketch s right_tick = (right_isr f s, [])
  step_sketch s (command i p) = handle_packet f i.before_ok s p
  step_sketch s (idle i p) = (s, [])

  abbrev pub run_alex : Robot → List Op → Robot × List Event
  run_alex r [] = (r, [])
  run_alex r (op ∷ ops) =
      let out = step_alex r op in let rest = run_alex out.0 ops in (rest.0, out.1 ++ rest.1)

  abbrev pub run_sketch : Sketch → List Op → Sketch × List Packet
  run_sketch s [] = (s, [])
  run_sketch s (op ∷ ops) =
      let out = step_sketch s op in let rest = run_sketch out.0 ops in (rest.0, out.1 ++ rest.1)

  -- In each call of `loop`, the robot is under way when the loop comes to its second half.
  abbrev pub underway : Robot → List Op → Bool
  underway r [] = true
  underway r (left_tick ∷ ops) = underway (Alex_encoders.left_isr f r) ops
  underway r (right_tick ∷ ops) = underway (Alex_encoders.right_isr r) ops
  underway r (command i p ∷ ops) =
      driving (Alex.handle_command f i r p).0 && underway (step_alex r (command i p)).0 ops
  underway r (idle i p ∷ ops) = driving r && underway (step_alex r (idle i p)).0 ops
