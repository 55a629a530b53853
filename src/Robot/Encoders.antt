-- ===== src/Robot/Encoders.antt =====
-- The interrupts of the wheel encoders, the counters, and the second half of `loop`, which stops the
-- robot.
use cg2111a_final_project.Base.{ℕ, ◌+◌, ◌==◌, ltb, leb, if◌then◌else◌, u32}
use cg2111a_final_project.Robot.{Floats, Counters, Robot}
use cg2111a_final_project.Robot.Direction
use cg2111a_final_project.Robot.Moves.{stop}

abbrev pub cleared : Counters
cleared = record {
  left_forward_ticks = 0;
  right_forward_ticks = 0;
  left_reverse_ticks = 0;
  right_reverse_ticks = 0;
  left_forward_ticks_turns = 0;
  right_forward_ticks_turns = 0;
  left_reverse_ticks_turns = 0;
  right_reverse_ticks_turns = 0;
  left_revs = 0;
  right_revs = 0;
  forward_dist = 0;
  reverse_dist = 0;
}

-- `clearCounters()`
unfoldable pub clear_counters : Robot → Robot
clear_counters r = record r { counters = cleared }

-- `clearOneCounter(which)`: its `switch` is commented out.
unfoldable pub clear_one_counter : Robot → ℕ → Robot
unfolding clear_counters
clear_one_counter r which = clear_counters r

-- What the left encoder counts; the direction has one value, so one test holds at most.
unfoldable pub left_count : Floats → ℕ → Counters → Counters
left_count f dir c =
    if dir == Direction.forward
    then (let ticks = u32 (c.left_forward_ticks + 1) in
        record c { left_forward_ticks = ticks; forward_dist = f.distance_of_ticks ticks })
    else (if dir == Direction.backward
        then (let ticks = u32 (c.left_reverse_ticks + 1) in
            record c { left_reverse_ticks = ticks; reverse_dist = f.distance_of_ticks ticks })
        else (if dir == Direction.left
            then record c { left_reverse_ticks_turns = u32 (c.left_reverse_ticks_turns + 1) }
            else (if dir == Direction.right
                then record c { left_forward_ticks_turns = u32 (c.left_forward_ticks_turns + 1) }
                else c)))

unfoldable pub right_count : ℕ → Counters → Counters
right_count dir c =
    if dir == Direction.forward
    then record c { right_forward_ticks = u32 (c.right_forward_ticks + 1) }
    else (if dir == Direction.backward
        then record c { right_reverse_ticks = u32 (c.right_reverse_ticks + 1) }
        else (if dir == Direction.left
            then record c { right_forward_ticks_turns = u32 (c.right_forward_ticks_turns + 1) }
            else (if dir == Direction.right
                then record c { right_reverse_ticks_turns = u32 (c.right_reverse_ticks_turns + 1) }
                else c)))

-- `leftISR()` and `rightISR()`
unfoldable pub left_isr : Floats → Robot → Robot
unfolding left_count
left_isr f r = record r { counters = left_count f r.dir r.counters }

unfoldable pub right_isr : Robot → Robot
unfolding right_count
right_isr r = record r { counters = right_count r.dir r.counters }

unfoldable pub end_move : Floats → Robot → Robot
unfolding stop
end_move f r = stop f (record r { delta_dist = 0; new_dist = 0 })

-- "Manual Forward/Backward Movement"
unfoldable pub check_distance : Floats → Robot → Robot
unfolding end_move
check_distance f r =
    if ltb 0 r.delta_dist
    then (if r.dir == Direction.forward
        then (if ltb r.new_dist r.counters.forward_dist then end_move f r else r)
        else (if r.dir == Direction.backward
            then (if ltb r.new_dist r.counters.reverse_dist then end_move f r else r)
            else (if r.dir == Direction.stop then end_move f r else r)))
    else r

unfoldable pub end_turn : Floats → Robot → Robot
unfolding stop
end_turn f r = stop f (record r { delta_ticks = 0; target_ticks = 0 })

-- "Manual Turning"
unfoldable pub check_turn : Floats → Robot → Robot
unfolding end_turn
check_turn f r =
    if ltb 0 r.delta_ticks
    then (if r.dir == Direction.left
        then (if leb r.target_ticks r.counters.left_reverse_ticks_turns then end_turn f r else r)
        else (if r.dir == Direction.right
            then (if leb r.target_ticks r.counters.right_reverse_ticks_turns
                then end_turn f r
                else r)
            else (if r.dir == Direction.stop then end_turn f r else r)))
    else r

-- The second half of `loop()`.
unfoldable pub supervise : Floats → Robot → Robot
unfolding clear_counters
supervise f r = if r.manual_mode then check_turn f (check_distance f r) else clear_counters r
