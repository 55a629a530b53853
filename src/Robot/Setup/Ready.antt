-- ===== src/Robot/Setup/Ready.antt =====
-- What `setup` leaves behind.
use cg2111a_final_project.Base.{
  ℕ, ◌+◌, ◌-◌, ◌/◌, ◌%◌, ◌^◌, u8, u32, ◌≡◌, refl, inl, List, [], ◌++◌, some, true, false, arith,
  bit,
}
use cg2111a_final_project.Wire.Packet.{Packet}
use cg2111a_final_project.Wire.Constants.PacketType
use cg2111a_final_project.Wire.Assemble.{Assembler}
use cg2111a_final_project.Wire.Assemble.Waiting.{IsAssembling, pending}
use cg2111a_final_project.Wire.Deserialize.Framed.{Framed, frames_bytes}
use cg2111a_final_project.Uart.{Uart, begin}
use cg2111a_final_project.Uart.Fifo.{IsUart, to_read, to_send}
use cg2111a_final_project.Sensors.Floating.{Floating}
use cg2111a_final_project.Sensors.Ultrasound.{setup_ultrasonic}
use cg2111a_final_project.Sensors.Ultrasound.Echo.{IsResting}
use cg2111a_final_project.Robot.Encoders.{cleared, clear_counters}
use cg2111a_final_project.Robot.Hello.{Round, Waited}
use cg2111a_final_project.Robot.Hello.Rounds.{IsIdle}
use cg2111a_final_project.Robot.Hello.Greeted.{
  AllFit, AllStrange, Answers, stream, wait_for_hello_ends,
}
use cg2111a_final_project.Robot.Reckoning.{alex_circ}
use cg2111a_final_project.Robot.Setup.{
  Board, configure, setup, prepare, setup_eint, enable_pullups, pullup_inputs, initialize_state,
}

-- The robot can be driven: its counters are cleared; INT2 and INT3 interrupt at falling edges and INT0 at
-- every change; the pins of the encoders are inputs with their pull-ups; no echo is being timed.
pub record IsSetUp (f : Floating) (b : Board f) : Type 0 where
  pub counters : b.robot.counters ≡ cleared
  pub edges : b.sonar.eicra ≡ 0b10100001
  pub enabled : b.sonar.eimsk ≡ 0b00001100
  pub left_input : bit 2 b.sonar.ddrd ≡ false
  pub right_input : bit 3 b.sonar.ddrd ≡ false
  pub left_pullup : bit 2 b.portd ≡ true
  pub right_pullup : bit 3 b.portd ≡ true
  pub sonar : IsResting b.sonar
  pub interrupts : b.interrupts ≡ true

-- The port at 9600 baud.
abbrev begun : ℕ → Uart → Uart
begun f_cpu u =
    let ubrr = u32 (f_cpu / 153600 + (2 ^ 32 - 1)) % 2 ^ 16 in
    record u {
      ubrr0h = ubrr / 2 ^ 8;
      ubrr0l = u8 ubrr;
      rxen0 = true;
      txen0 = true;
      rxcie0 = true;
      udrie0 = false;
    }

begin_lem :
    (f_cpu : ℕ) (u : Uart)
    → IsUart u
    → to_read u ≡ []
    → to_send u ≡ []
    → (u' : Uart) × (begin f_cpu u 9600 ≡ some u') × IsUart u' × (to_read u' ≡ [])
unfolding begin
begin_lem f_cpu u v clear quiet = (
  begun f_cpu u,
  refl,
  record { rx_ring = v.rx_ring; tx_ring = v.tx_ring; announced = inl quiet },
  clear,
)

module _ (f : Floating) where
  prepare-IsSetUp :
      (f_cpu : ℕ) (b : Board f)
      → IsUart b.uart
      → to_read b.uart ≡ []
      → to_send b.uart ≡ []
      → b.sonar.edge ≡ 0
      → b.sonar.flag ≡ false
      → (b' : Board f) × (prepare f f_cpu b ≡ some b')
        × IsSetUp f b'
        × IsUart b'.uart
        × (to_read b'.uart ≡ [])
  unfolding prepare configure setup_ultrasonic setup_eint enable_pullups pullup_inputs
      initialize_state clear_counters
  prepare-IsSetUp f_cpu b v clear quiet low none_kept =
      let (u', e, v', q) = begin_lem f_cpu b.uart v clear quiet in
      (
        configure f b u',
        rw e refl,
        record {
          counters = refl;
          edges = refl;
          enabled = refl;
          left_input = ground arith;
          right_input = ground arith;
          left_pullup = ground arith;
          right_pullup = ground arith;
          sonar = record { low = low; stopped = refl; reset = refl; nothing_kept = none_kept };
          interrupts = refl;
        },
        v',
        q,
      )

  -- From a serial port in good order where no byte waits either way, an assembler that satisfies its
  -- invariant, and no echo or change of the echo pin noted: if the pending bytes and those that arrive while
  -- `setup` waits, at most 140 in each call, are the frames that `serialize` wrote of any number of packets
  -- of other types, the frame of a hello packet, and any bytes after it, then `setup` ends; the robot
  -- is set up, with its counters cleared, its interrupts configured and enabled, and the echo at rest; it has
  -- answered each of the other packets by RESP_BAD_RESPONSE and the hello packet by RESP_OK.
  pub setup_ends :
      (f_cpu : ℕ) (b : Board f) (fs : List (Packet × List ℕ)) (rounds : List Round) (a : Assembler)
      (p : Packet) (frame more : List ℕ)
      → IsUart b.uart
      → to_read b.uart ≡ []
      → to_send b.uart ≡ []
      → b.sonar.edge ≡ 0
      → b.sonar.flag ≡ false
      → IsAssembling a
      → AllFit rounds
      → AllStrange fs
      → Framed p frame
      → p.packet_type ≡ PacketType.hello
      → pending a ++ stream rounds ≡ frames_bytes fs ++ (frame ++ more)
      → (w : Waited) × (b' : Board f) × (setup f f_cpu rounds b a ≡ some (w, b'))
        × (w.0 ≡ true)
        × Answers fs w.1
        × IsSetUp f b'
        × IsIdle b'.uart w.4
  unfolding setup
  setup_ends f_cpu b fs rounds a p frame more v clear quiet low none_kept x fit strange framed hello
        e =
      let (b1, made, ready, v1, q1) = prepare-IsSetUp f_cpu b v clear quiet low none_kept in
      let (es, rs, u', a', run, replies, idle, left) =
        wait_for_hello_ends fs rounds b1.uart a p frame more
          (record { port = v1; clear = q1; assembling = x }) fit strange framed hello e in
      (
        (true, es, rs, u', a'),
        record b1 { uart = u'; alex_circ = alex_circ f },
        rw (made, run) refl,
        refl,
        replies,
        record {
          counters = ready.counters;
          edges = ready.edges;
          enabled = ready.enabled;
          left_input = ready.left_input;
          right_input = ready.right_input;
          left_pullup = ready.left_pullup;
          right_pullup = ready.right_pullup;
          sonar = ready.sonar;
          interrupts = ready.interrupts;
        },
        idle,
      )
