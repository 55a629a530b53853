-- ===== src/Sketch/Tests.antt =====
-- The theorem on the two sketches at a drive with three ticks.
use cg2111a_final_project.Base.{List, [], ◌∷◌, replicate}
use cg2111a_final_project.Robot.Encoders.{cleared}
use cg2111a_final_project.Robot.Tests.{robot, zeros, input}
use cg2111a_final_project.Robot.Commands as Alex
use cg2111a_final_project.Sketch.{Sketch}
use cg2111a_final_project.Sketch.Agreement.{Op, left_tick, right_tick, command, idle}

abbrev sketch : Sketch
sketch = record { dir = 0; counters = cleared; motors = robot.motors }

abbrev drive : List Op
drive =
    left_tick
    ∷ command input (record zeros { params = 20 ∷ 50 ∷ replicate 14 0 })
    ∷ left_tick
    ∷ idle input zeros
    ∷ right_tick
    ∷ []
