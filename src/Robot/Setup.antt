-- ===== src/Robot/Setup.antt =====
-- `setup` of Alex-a.ino, with the routines that it calls.
pub mod Ready
use cg2111a_final_project.Base.{
  ℕ, List, Option, some, ◌>>=◌, Bool, true, set_bit, clear_bit, if◌then◌else◌,
}
use cg2111a_final_project.Wire.Assemble.{Assembler}
use cg2111a_final_project.Uart.{Uart, begin}
use cg2111a_final_project.Sensors.Floating.{Floating}
use cg2111a_final_project.Sensors.Ultrasound.{Sonar, setup_ultrasonic}
use cg2111a_final_project.Sensors.Colour.{Three, Pins, setup_color}
use cg2111a_final_project.Robot.{Robot}
use cg2111a_final_project.Robot.Encoders.{clear_counters}
use cg2111a_final_project.Robot.Hello.{Round, Waited, wait_for_hello}
use cg2111a_final_project.Robot.Reckoning.{alex_circ}

-- `initializeState()`
unfoldable pub initialize_state : Robot → Robot
unfolding clear_counters
initialize_state r = clear_counters r

-- `setupEINT()`: the registers that it assigns belong to the sonar too.
unfoldable pub setup_eint : Sonar → Sonar
setup_eint s = record s { eicra = 0b10100000; eimsk = 0b00001100 }

-- What `enablePullups` does to DDRD.
unfoldable pub pullup_inputs : ℕ → ℕ
pullup_inputs ddrd = clear_bit 3 (clear_bit 2 ddrd)

module _ (f : Floating) where
  -- The state of the whole sketch: its variables, the registers, and whether interrupts are enabled.
  pub record Board : Type 0 where
    pub robot : Robot
    pub sonar : Sonar
    pub portd : ℕ
    pub pins : Pins
    pub color_dir_vect : Three (Three f.Real)
    pub uart : Uart
    pub alex_circ : f.Real
    pub interrupts : Bool

  -- `enablePullups()`
  unfoldable pub enable_pullups : Board → Board
  unfolding pullup_inputs
  enable_pullups b = record b {
    sonar = record b.sonar { ddrd = pullup_inputs b.sonar.ddrd };
    portd = set_bit 3 (set_bit 2 b.portd);
  }

  -- What `setup()` does up to `sei()`, with the serial port that it began.
  unfoldable pub configure : Board → Uart → Board
  unfolding setup_eint enable_pullups initialize_state
  configure b uart =
      let colored = setup_color f b.pins in
      record (enable_pullups (record b {
        sonar = setup_ultrasonic (setup_eint b.sonar);
        pins = colored.0;
        color_dir_vect = colored.1;
        uart = uart;
      })) { robot = initialize_state b.robot; interrupts = true }

  -- At a clock of `f_cpu`.
  unfoldable pub prepare : ℕ → Board → Option Board
  unfolding configure
  prepare f_cpu b = begin f_cpu b.uart 9600 >>= λ uart. some (configure b uart)

  -- `setup()`, for as many calls of `readPacket` as there are rounds: once the loop is left, the size of
  -- the robot is computed.
  unfoldable pub setup : ℕ → List Round → Board → Assembler → Option (Waited × Board)
  unfolding prepare
  setup f_cpu rounds b a = prepare f_cpu b >>= λ b'. wait_for_hello rounds b'.uart a >>= λ w.
      some (w, record b' { uart = w.3; alex_circ = if w.0 then alex_circ f else b.alex_circ })
