-- ===== src/Robot.antt =====
-- Working/Alex-a/Alex-a.ino and robotlib.ino: the sketch of the Arduino. This file has its state and the
-- effects of its functions; the children have the moves, the encoders, the answers, the commands and
-- the loop.
pub mod Direction
pub mod Moves
pub mod Encoders
pub mod Replies
pub mod Commands
pub mod Modes
pub mod Port
pub mod Receive
pub mod Send
pub mod Hello
pub mod Reckoning
pub mod Setup
pub mod Serve
pub mod Drive
pub mod Going
pub mod Journey
pub mod Tests
pub mod PortTests
pub mod HelloTests
use cg2111a_final_project.Base.{ℕ, List, Bool}
use cg2111a_final_project.Wire.Packet.{Packet}

-- What the floating-point computations give as integers: a distance or a speed that passes through a
-- `float`, `computeDeltaTicks`, the distance for a number of ticks, and the speed for the motor driver.
pub record Floats : Type 0 where
  pub through_float : ℕ → ℕ
  pub ticks_of_angle : ℕ → ℕ
  pub distance_of_ticks : ℕ → ℕ
  pub scaled_speed : ℕ → ℕ

-- The speed of the four motors and the direction that each was told.
pub record Motors : Type 0 where
  pub speed : ℕ
  pub front_left : ℕ
  pub front_right : ℕ
  pub back_left : ℕ
  pub back_right : ℕ

-- The counters that `clearCounters` clears.
pub record Counters : Type 0 where
  pub left_forward_ticks : ℕ
  pub right_forward_ticks : ℕ
  pub left_reverse_ticks : ℕ
  pub right_reverse_ticks : ℕ
  pub left_forward_ticks_turns : ℕ
  pub right_forward_ticks_turns : ℕ
  pub left_reverse_ticks_turns : ℕ
  pub right_reverse_ticks_turns : ℕ
  pub left_revs : ℕ
  pub right_revs : ℕ
  pub forward_dist : ℕ
  pub reverse_dist : ℕ

pub record Robot : Type 0 where
  pub dir : ℕ
  pub manual_mode : Bool
  pub counters : Counters
  pub delta_dist : ℕ
  pub new_dist : ℕ
  pub delta_ticks : ℕ
  pub target_ticks : ℕ
  pub motors : Motors

pub data Tune : Type 0 where
  start_tone low_hp caught celebrate tokyo_drift : Tune

-- The effects of a function, in order.
pub data Event : Type 0 where
  delay : ℕ → Event
  respond : Packet → Event
  play : Tune → Event
