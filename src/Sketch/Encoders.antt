-- ===== src/Sketch/Encoders.antt =====
-- The interrupts of the wheel encoders, and the counters, of Alex-sb.ino.
use cg2111a_final_project.Base.{ℕ, ◌+◌, ◌==◌, if◌then◌else◌, u32}
use cg2111a_final_project.Robot.{Floats, Counters}
use cg2111a_final_project.Sketch.{Sketch}
use cg2111a_final_project.Sketch.Codes

-- `clearCounters()`
unfoldable pub clear_counters : Sketch → Sketch
clear_counters s = record s {
  counters = record {
    left_forward_ticks = 0;
    right_forward_ticks = 0;
    left_reverse_ticks = 0;
    right_reverse_ticks = 0;
    left_forward_ticks_turns = 0;
    right_forward_ticks_turns = 0;
    left_reverse_ticks_turns = 0;
    right_reverse_ticks_turns = 0;
    left_revs = 0;
    right_revs = 0;
    forward_dist = 0;
    reverse_dist = 0;
  };
}

-- `clearOneCounter(which)`: its `switch` is commented out.
unfoldable pub clear_one_counter : Sketch → ℕ → Sketch
unfolding clear_counters
clear_one_counter s which = clear_counters s

-- The tests of `leftISR`, in order; each one leaves the direction alone.
unfoldable pub left_count : Floats → ℕ → Counters → Counters
left_count f dir c =
    let c1 =
      if dir == Codes.forward
      then record c {
        left_forward_ticks = u32 (c.left_forward_ticks + 1);
        forward_dist = f.distance_of_ticks (u32 (c.left_forward_ticks + 1));
      }
      else c in
    let c2 =
      if dir == Codes.backward
      then record c1 { left_reverse_ticks = u32 (c1.left_reverse_ticks + 1) }
      else c1 in
    let c3 =
      if dir == Codes.left
      then record c2 { left_reverse_ticks_turns = u32 (c2.left_reverse_ticks_turns + 1) }
      else c2 in
    if dir == Codes.right
    then record c3 { left_forward_ticks_turns = u32 (c3.left_forward_ticks_turns + 1) }
    else c3

unfoldable pub right_count : Floats → ℕ → Counters → Counters
right_count f dir c =
    let c1 =
      if dir == Codes.forward
      then record c {
        right_forward_ticks = u32 (c.right_forward_ticks + 1);
        forward_dist = f.distance_of_ticks (u32 (c.right_forward_ticks + 1));
      }
      else c in
    let c2 =
      if dir == Codes.backward
      then record c1 { right_reverse_ticks = u32 (c1.right_reverse_ticks + 1) }
      else c1 in
    let c3 =
      if dir == Codes.left
      then record c2 { right_forward_ticks_turns = u32 (c2.right_forward_ticks_turns + 1) }
      else c2 in
    if dir == Codes.right
    then record c3 { right_reverse_ticks_turns = u32 (c3.right_reverse_ticks_turns + 1) }
    else c3

-- `leftISR()` and `rightISR()`
unfoldable pub left_isr : Floats → Sketch → Sketch
unfolding left_count
left_isr f s = record s { counters = left_count f s.dir s.counters }

unfoldable pub right_isr : Floats → Sketch → Sketch
unfolding right_count
right_isr f s = record s { counters = right_count f s.dir s.counters }
