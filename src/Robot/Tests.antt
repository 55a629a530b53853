-- ===== src/Robot/Tests.antt =====
-- The theorems on the Arduino at concrete commands.
use cg2111a_final_project.Base.{
  ◌*◌, ◌<◌, ◌≡◌, refl, List, [], ◌∷◌, true, false, arith, replicate, ltb,
}
use cg2111a_final_project.Wire.Packet.{Packet}
use cg2111a_final_project.Robot.{Floats, Robot}
use cg2111a_final_project.Robot.Direction
use cg2111a_final_project.Robot.Moves.{running, asked}
use cg2111a_final_project.Robot.Encoders.{cleared, supervise}
use cg2111a_final_project.Robot.Commands.{Input, handle_command}
use cg2111a_final_project.Robot.Modes.{handle_command-Stands}
use cg2111a_final_project.Robot.Drive.{Op, left_tick, right_tick, round, Expected}
use cg2111a_final_project.Robot.Journey.{target, driven, drive_stops}

-- Five centimetres a tick.
abbrev pub floats : Floats
floats = record {
  through_float = λ n. n;
  ticks_of_angle = λ n. n;
  distance_of_ticks = λ n. 5 * n;
  scaled_speed = λ n. 2 * n;
}

abbrev pub robot : Robot
robot = record {
  dir = 0;
  manual_mode = true;
  counters = cleared;
  delta_dist = 0;
  new_dist = 0;
  delta_ticks = 0;
  target_ticks = 0;
  motors = running 0 0 0 0 0;
}

abbrev way : List Op
way = left_tick ∷ round ∷ right_tick ∷ left_tick ∷ left_tick ∷ []

drive_stops_example :
    Expected floats
      (running
        (floats.scaled_speed 70)
        Direction.forward
        Direction.forward
        Direction.backward
        Direction.backward)
      (asked floats 12)
      (target floats robot 12)
      (ltb (target floats robot 12) (driven floats robot 12 70 way).counters.forward_dist)
      (supervise floats (driven floats robot 12 70 way))
drive_stops_example =
    drive_stops floats robot 12 70 way refl refl asked_some refl (omega arith)
      (λ a b h. omega (arith, h))
  where
    asked_some : 0 < asked floats 12
    asked_some = unfold asked in omega arith

abbrev pub zeros : Packet
zeros = record {
  packet_type = 0;
  command = 0;
  dummy = replicate 2 0;
  text = replicate 32 0;
  params = replicate 16 0;
}

abbrev pub input : Input
input = record {
  distance = 30;
  color = 1;
  before_ok = zeros;
  before_answer = zeros;
  before_text = zeros;
}

handle_command-Stands_example :
    (handle_command floats input (record robot { manual_mode = false }) zeros).0.motors.speed
    ≡ floats.scaled_speed 0
handle_command-Stands_example =
    handle_command-Stands floats input (record robot { manual_mode = false }) zeros refl refl
