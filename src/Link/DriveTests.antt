-- ===== src/Link/DriveTests.antt =====
-- A `forward` and a `right` of the operator in the robot's loop, their frames cut into four reads.
use cg2111a_final_project.Base.{
  ℕ, ◌≡◌, refl, List, [], ◌∷◌, ◌++◌, arith, take, drop, replicate, u32_bytes, u32_of_bytes,
}
use cg2111a_final_project.Wire.Packet.{packet_size, bytes_of_packet, words_bytes}
use cg2111a_final_project.Wire.Frame.{bytes_of_comms, checksum_from, copy_front, serialize}
use cg2111a_final_project.Wire.Frame.Encode.{framed}
use cg2111a_final_project.Wire.Assemble.{fresh}
use cg2111a_final_project.Wire.Assemble.Waiting.{pending}
use cg2111a_final_project.Wire.Tests.{fresh-IsAssembling}
use cg2111a_final_project.Server.Commands.{
  command_of, command_packet, handle_network_data, handle_command, dispatch, uart_send_packet,
}
use cg2111a_final_project.Server.Tests.{stack, stack-IsComms, blank_packet-IsPacket, connected}
use cg2111a_final_project.Uart.Tests.{port, port-IsUart}
use cg2111a_final_project.Robot.Tests.{floats, robot, input}
use cg2111a_final_project.Robot.Hello.Rounds.{IsIdle}
use cg2111a_final_project.Robot.Hello.Greeted.{AllFit, stream}
use cg2111a_final_project.Robot.Serve.{Turn}
use cg2111a_final_project.Robot.Serve.Served.{rounds_of}
use cg2111a_final_project.Link.Drive.{Order, IsRelayed, AllServed, frames_of, commands_served}

abbrev order : ℕ → ℕ → ℕ → ℕ → Order
order cmd code a b = record {
  before = connected;
  after = connected;
  stack = stack;
  conn = 4;
  cmd = cmd;
  code = code;
  param0 = a;
  param1 = b;
  rest = [];
  frame =
      bytes_of_comms
        (framed stack.comms (bytes_of_packet (command_packet stack.packet code a b)) packet_size);
}

abbrev orders : List Order
orders = order b'f' 0 20 50 ∷ order b'r' 3 90 40 ∷ []

abbrev turn_of : List ℕ → Turn
turn_of bs = record {
  round = record { arrived = bs; held = replicate packet_size 7; before = stack.packet };
  input = input;
}

abbrev turns : List Turn
turns =
    turn_of (take 100 (frames_of orders))
    ∷ turn_of []
    ∷ turn_of (take 100 (drop 100 (frames_of orders)))
    ∷ turn_of (drop 200 (frames_of orders) ++ 1 ∷ 2 ∷ [])
    ∷ turn_of (3 ∷ [])
    ∷ []

idle : IsIdle port fresh
idle = record { port = port-IsUart; clear = refl; assembling = fresh-IsAssembling }

forward-IsRelayed : IsRelayed (order b'f' 0 20 50)
unfolding handle_network_data handle_command dispatch uart_send_packet command_packet command_of
    u32_of_bytes serialize copy_front checksum_from bytes_of_comms u32_bytes bytes_of_packet
    words_bytes
forward-IsRelayed = record {
  comms = stack-IsComms;
  packet = blank_packet-IsPacket;
  param0_fits = omega arith;
  param1_fits = omega arith;
  known = refl;
  relayed = refl;
}

right-IsRelayed : IsRelayed (order b'r' 3 90 40)
unfolding handle_network_data handle_command dispatch uart_send_packet command_packet command_of
    u32_of_bytes serialize copy_front checksum_from bytes_of_comms u32_bytes bytes_of_packet
    words_bytes
right-IsRelayed = record {
  comms = stack-IsComms;
  packet = blank_packet-IsPacket;
  param0_fits = omega arith;
  param1_fits = omega arith;
  known = refl;
  relayed = refl;
}

turns-AllFit : AllFit (rounds_of turns)
unfolding command_packet serialize copy_front checksum_from bytes_of_comms u32_bytes bytes_of_packet
    words_bytes
turns-AllFit = (
  omega arith,
  refl,
  (omega arith, refl, (omega arith, refl, (omega arith, refl, (omega arith, refl, tt)))),
)

turns-frames : pending fresh ++ stream (rounds_of turns) ≡ frames_of orders ++ 1 ∷ 2 ∷ 3 ∷ []
unfolding command_packet serialize copy_front checksum_from bytes_of_comms u32_bytes bytes_of_packet
    words_bytes
turns-frames = refl

commands_served_example : AllServed floats orders (1 ∷ 2 ∷ 3 ∷ []) turns robot port fresh
commands_served_example =
    commands_served orders (1 ∷ 2 ∷ 3 ∷ []) floats turns robot port fresh
      (forward-IsRelayed, (right-IsRelayed, tt)) idle turns-AllFit turns-frames
