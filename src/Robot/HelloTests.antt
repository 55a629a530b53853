-- ===== src/Robot/HelloTests.antt =====
-- The theorems on `waitForHello` and `setup` at a greeting behind another packet, cut into three reads.
use cg2111a_final_project.Base.{
  ℕ, ◌≡◌, refl, List, [], ◌∷◌, ◌++◌, some, arith, take, drop, replicate, u32_bytes, true, false,
}
use cg2111a_final_project.Wire.Packet.{Packet, IsPacket, packet_size, bytes_of_packet, words_bytes}
use cg2111a_final_project.Wire.Constants.PacketType
use cg2111a_final_project.Wire.Frame.{bytes_of_comms, checksum_from, copy_front, serialize}
use cg2111a_final_project.Wire.Frame.Encode.{framed}
use cg2111a_final_project.Wire.Assemble.{Assembler, fresh}
use cg2111a_final_project.Wire.Assemble.Waiting.{pending}
use cg2111a_final_project.Wire.Tests.{blank, blank-IsComms, fresh-IsAssembling}
use cg2111a_final_project.Wire.Deserialize.Framed.{Framed, frames_bytes}
use cg2111a_final_project.Uart.{Uart}
use cg2111a_final_project.Uart.Tests.{port, port-IsUart}
use cg2111a_final_project.Server.Tests.{blank_packet, blank_packet-IsPacket}
use cg2111a_final_project.Robot.{Event}
use cg2111a_final_project.Sensors.Colour.{three}
use cg2111a_final_project.Sensors.Tests.{whole, sonar, pins}
use cg2111a_final_project.Robot.Tests.{robot}
use cg2111a_final_project.Robot.Setup.{Board, setup}
use cg2111a_final_project.Robot.Setup.Ready.{IsSetUp, setup_ends}
use cg2111a_final_project.Robot.Hello.{Round, Waited, wait_for_hello}
use cg2111a_final_project.Robot.Hello.Rounds.{IsIdle}
use cg2111a_final_project.Robot.Hello.Greeted.{AllFit, Answers, stream, wait_for_hello_ends}

abbrev greeting : Packet
greeting = record blank_packet { packet_type = PacketType.hello }

abbrev stranger : Packet
stranger = record blank_packet { packet_type = PacketType.command }

abbrev frame_of : Packet → List ℕ
frame_of p = bytes_of_comms (framed blank (bytes_of_packet p) packet_size)

abbrev incoming : List ℕ
incoming = frame_of stranger ++ frame_of greeting

abbrev round_of : List ℕ → Round
round_of bs = record { arrived = bs; held = replicate packet_size 7; before = blank_packet }

abbrev rounds : List Round
rounds =
    round_of (take 100 incoming)
    ∷ round_of []
    ∷ round_of (take 100 (drop 100 incoming))
    ∷ round_of (drop 200 incoming ++ 1 ∷ 2 ∷ [])
    ∷ []

idle : IsIdle port fresh
idle = record { port = port-IsUart; clear = refl; assembling = fresh-IsAssembling }

stranger-IsPacket : IsPacket stranger
stranger-IsPacket = record {
  dummy_fits = refl;
  text_fits = refl;
  params_fit = refl;
  params_words = blank_packet-IsPacket.params_words;
}

stranger-Framed : Framed stranger (frame_of stranger)
unfolding serialize copy_front checksum_from bytes_of_comms u32_bytes bytes_of_packet words_bytes
stranger-Framed = (blank, blank-IsComms, stranger-IsPacket, refl)

greeting-Framed : Framed greeting (frame_of greeting)
unfolding serialize copy_front checksum_from bytes_of_comms u32_bytes bytes_of_packet words_bytes
greeting-Framed = (blank, blank-IsComms, blank_packet-IsPacket, refl)

rounds-AllFit : AllFit rounds
unfolding serialize copy_front checksum_from bytes_of_comms u32_bytes bytes_of_packet words_bytes
rounds-AllFit =
    (omega arith, refl, (omega arith, refl, (omega arith, refl, (omega arith, refl, tt))))

stream-rounds :
    pending fresh ++ stream rounds
    ≡ frames_bytes ((stranger, frame_of stranger) ∷ []) ++ (frame_of greeting ++ 1 ∷ 2 ∷ [])
unfolding serialize copy_front checksum_from bytes_of_comms u32_bytes bytes_of_packet words_bytes
stream-rounds = refl

wait_for_hello_ends_example :
    (es : List Event) × (rs : List Round) × (u' : Uart) × (a' : Assembler) × (wait_for_hello rounds
        port fresh
      ≡ some (true, es, rs, u', a'))
    × Answers ((stranger, frame_of stranger) ∷ []) es
    × IsIdle u' a'
    × (pending a' ++ stream rs ≡ 1 ∷ 2 ∷ [])
wait_for_hello_ends_example =
    wait_for_hello_ends ((stranger, frame_of stranger) ∷ []) rounds port fresh greeting
      (frame_of greeting) (1 ∷ 2 ∷ []) idle rounds-AllFit (stranger-Framed, (λ e. cc), tt)
      greeting-Framed refl stream-rounds

abbrev board : Board whole
board = record {
  robot = robot;
  sonar = sonar;
  portd = 0;
  pins = pins;
  color_dir_vect = three (three 0 0 0) (three 0 0 0) (three 0 0 0);
  uart = port;
  alex_circ = 0;
  interrupts = false;
}

setup_ends_example :
    (w : Waited) × (b' : Board whole) × (setup whole 16000000 rounds board fresh ≡ some (w, b'))
    × (w.0 ≡ true)
    × Answers ((stranger, frame_of stranger) ∷ []) w.1
    × IsSetUp whole b'
    × IsIdle b'.uart w.4
setup_ends_example =
    setup_ends whole 16000000 board ((stranger, frame_of stranger) ∷ []) rounds fresh greeting
      (frame_of greeting) (1 ∷ 2 ∷ []) port-IsUart refl refl refl refl fresh-IsAssembling
      rounds-AllFit (stranger-Framed, (λ e. cc), tt) greeting-Framed refl stream-rounds
