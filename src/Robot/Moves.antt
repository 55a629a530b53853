-- ===== src/Robot/Moves.antt =====
-- robotlib.ino, and `left` and `right` of Alex-a.ino.
use cg2111a_final_project.Base.{ℕ, ◌+◌, List, [], ◌∷◌, ◌==◌, ltb, if◌then◌else◌, switch, u32}
use cg2111a_final_project.Robot.{Floats, Motors, Robot, Event, delay}
use cg2111a_final_project.Robot.Direction

abbrev pub fb_speed : ℕ
fb_speed = 70

abbrev pub fb_delay : ℕ
fb_delay = 170

abbrev pub lr_speed : ℕ
lr_speed = 100

abbrev pub lr_delay : ℕ
lr_delay = 110

-- The distance and the ticks that stand for no limit.
abbrev pub unlimited : ℕ
unlimited = 9999999

-- The directions of the motors: front left, front right, back left, back right.
abbrev pub running : ℕ → ℕ → ℕ → ℕ → ℕ → Motors
running speed fl fr bl br = record {
  speed = speed;
  front_left = fl;
  front_right = fr;
  back_left = bl;
  back_right = br;
}

-- `move(speed, direction)`
unfoldable pub move : Floats → Robot → ℕ → ℕ → Robot
move f r speed direction =
    let s = f.scaled_speed speed in
    let b = Direction.backward in
    let g = Direction.forward in
    record r {
      motors =
          switch direction
            ((Direction.back ∷ [], running s b b g g)
              ∷ (Direction.go ∷ [], running s g g b b)
              ∷ (Direction.cw ∷ [], running s b g g b)
              ∷ (Direction.ccw ∷ [], running s g b b g)
              ∷ [])
            (running s 0 0 0 0);
    }

-- `stop()`
unfoldable pub stop : Floats → Robot → Robot
unfolding move
stop f r = move f r 0 Direction.stop

-- What the free mode does: move for a fixed time.
unfoldable pub nudge : Floats → Robot → ℕ → ℕ → ℕ → Robot × List Event
unfolding move stop
nudge f r speed direction time = (stop f (move f r speed direction), delay time ∷ [])

-- The distance that is asked for; 0 stands for no limit.
unfoldable pub asked : Floats → ℕ → ℕ
asked f dist = if ltb 0 dist then f.through_float dist else unlimited

unfoldable pub forward : Floats → Robot → ℕ → ℕ → Robot × List Event
unfolding move nudge asked
forward f r dist speed =
    let r' = record r { dir = Direction.forward } in
    if r.manual_mode
    then (
      move f
          (record r' {
            delta_dist = asked f dist;
            new_dist = u32 (r.counters.forward_dist + asked f dist);
          })
          speed Direction.forward,
      [],
    )
    else nudge f r' fb_speed Direction.forward fb_delay

unfoldable pub backward : Floats → Robot → ℕ → ℕ → Robot × List Event
unfolding move nudge asked
backward f r dist speed =
    let r' = record r { dir = Direction.backward } in
    if r.manual_mode
    then (
      move f
          (record r' {
            delta_dist = asked f dist;
            new_dist = u32 (r.counters.reverse_dist + asked f dist);
          })
          speed Direction.backward,
      [],
    )
    else nudge f r' fb_speed Direction.backward fb_delay

-- `ccw` and `cw`, with the direction that they set.
unfoldable pub turn : Floats → Robot → ℕ → ℕ → Robot × List Event
unfolding move nudge
turn f r direction speed =
    let r' = record r { dir = direction } in
    if r.manual_mode
    then (move f r' speed direction, [])
    else nudge f r' lr_speed direction lr_delay

-- The ticks of a turn; the angle 0 stands for no limit.
unfoldable pub turn_ticks : Floats → ℕ → ℕ
turn_ticks f ang = if ang == 0 then unlimited else f.ticks_of_angle ang

unfoldable pub left : Floats → Robot → ℕ → ℕ → Robot × List Event
unfolding turn turn_ticks
left f r ang speed =
    turn f
      (record r {
        delta_ticks = turn_ticks f ang;
        target_ticks = u32 (r.counters.left_reverse_ticks_turns + turn_ticks f ang);
      })
      Direction.ccw speed

unfoldable pub right : Floats → Robot → ℕ → ℕ → Robot × List Event
unfolding turn turn_ticks
right f r ang speed =
    turn f
      (record r {
        delta_ticks = turn_ticks f ang;
        target_ticks = u32 (r.counters.right_reverse_ticks_turns + turn_ticks f ang);
      })
      Direction.cw speed
