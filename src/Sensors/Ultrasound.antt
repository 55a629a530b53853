-- ===== src/Sensors/Ultrasound.antt =====
-- Working/Alex-a/ultrasound.ino: the ultrasonic sensor behind Timer 5 and the external interrupt 0.
-- The registers are fields; what the hardware does to them, the timer that runs and the changes of the
-- echo pin, is `happen`.
pub mod Echo
pub mod Measured
use cg2111a_final_project.Base.{
  ℕ, List, [], ◌∷◌, Bool, true, false, ◌==◌, if◌then◌else◌, bit, set_bit, clear_bit,
}
use cg2111a_final_project.Sensors.Floating.{Floating}

abbrev pub trigger : ℕ
trigger = 2

abbrev pub echo : ℕ
echo = 0

-- Bits of EICRA, EIMSK and TCCR5B.
abbrev pub isc00 : ℕ
isc00 = 0

abbrev pub isc01 : ℕ
isc01 = 1

abbrev pub int0 : ℕ
int0 = 0

abbrev pub cs51 : ℕ
cs51 = 1

-- The registers that the sketch uses, `pulse` and `edge`. `flag` is INTF0: a change of the pin while the
-- interrupt is masked is kept there.
pub record Sonar : Type 0 where
  pub ddra : ℕ
  pub ddrd : ℕ
  pub porta : ℕ
  pub tccr5a : ℕ
  pub tccr5b : ℕ
  pub tcnt5 : ℕ
  pub eicra : ℕ
  pub eimsk : ℕ
  pub flag : Bool
  pub pulse : ℕ
  pub edge : ℕ

-- `setupUltrasonic()`
unfoldable pub setup_ultrasonic : Sonar → Sonar
setup_ultrasonic s = record s {
  ddra = set_bit trigger s.ddra;
  ddrd = clear_bit echo s.ddrd;
  porta = clear_bit trigger s.porta;
  tccr5a = 0b00000000;
  tccr5b = 0b00001000;
  tcnt5 = 0;
  eicra = clear_bit isc01 (set_bit isc00 s.eicra);
}

-- `ISR(INT0_vect)`
unfoldable pub int0_isr : Sonar → Sonar
int0_isr s =
    if s.edge == 0
    then record s { edge = 1; tccr5b = set_bit cs51 s.tccr5b }
    else (if s.edge == 1
        then record s { edge = 0; tccr5b = clear_bit cs51 s.tccr5b; pulse = s.tcnt5; tcnt5 = 0 }
        else s)

-- What the hardware does: the clock of Timer 5 ticks, or the echo pin changes.
pub data Happening : Type 0 where
  ticks : ℕ → Happening
  change : Happening

-- `timer v n` is what TCNT5 reads `n` ticks after it read `v`, while the timer runs.
unfoldable pub happen : (ℕ → ℕ → ℕ) → Sonar → Happening → Sonar
unfolding int0_isr
happen timer s (ticks n) = if bit cs51 s.tccr5b then record s { tcnt5 = timer s.tcnt5 n } else s
happen timer s change = if bit int0 s.eimsk then int0_isr s else record s { flag = true }

unfoldable pub happen_all : (ℕ → ℕ → ℕ) → Sonar → List Happening → Sonar
unfolding happen
happen_all timer s [] = s
happen_all timer s (h ∷ hs) = happen_all timer (happen timer s h) hs

-- `EIMSK |= (1 << INT0)`: a change that was kept interrupts at once.
unfoldable pub enable_int0 : Sonar → Sonar
unfolding int0_isr
enable_int0 s =
    let s' = record s { eimsk = set_bit int0 s.eimsk; flag = false } in
    if s.flag then int0_isr s' else s'

unfoldable pub disable_int0 : Sonar → Sonar
disable_int0 s = record s { eimsk = clear_bit int0 s.eimsk }

-- `triggerUltrasonic()`, with what happens in its delays of 15 microseconds and of 20 milliseconds.
unfoldable pub trigger_ultrasonic : (ℕ → ℕ → ℕ) → List Happening → List Happening → Sonar → Sonar
unfolding happen_all
trigger_ultrasonic timer during after s =
    let high = happen_all timer (record s { porta = set_bit trigger s.porta }) during in
    happen_all timer (record high { porta = clear_bit trigger high.porta }) after

module _ (f : Floating) where
  open f use {Real, of_ℕ, decimal, sub, mul, div}

  -- `readPulse()`: the pulse in microseconds.
  unfoldable pub read_pulse : ℕ → Real
  read_pulse pulse = div (of_ℕ pulse) (decimal 20 1)

  -- The centimetres of a pulse.
  unfoldable pub centimetres : ℕ → Real
  unfolding read_pulse
  centimetres pulse = sub (mul (div (read_pulse pulse) (of_ℕ 2)) (decimal 343 4)) (decimal 50 1)

  -- `getDistance()`: the distance, and the registers afterwards.
  unfoldable pub get_distance : (ℕ → ℕ → ℕ) → List Happening → List Happening → Sonar → Real × Sonar
  unfolding centimetres enable_int0 trigger_ultrasonic disable_int0
  get_distance timer during after s =
      let s' = trigger_ultrasonic timer during after (enable_int0 s) in
      (centimetres s'.pulse, disable_int0 s')
