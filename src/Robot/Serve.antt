-- ===== src/Robot/Serve.antt =====
-- `loop` of Alex-a.ino, round after round, with its reads of the serial port.
pub mod Served
use cg2111a_final_project.Base.{ℕ, List, [], ◌∷◌, ◌++◌, Option, some, ◌>>=◌}
use cg2111a_final_project.Wire.Packet.{packet_of_bytes}
use cg2111a_final_project.Wire.Assemble.{Assembler}
use cg2111a_final_project.Uart.{Uart}
use cg2111a_final_project.Robot.{Floats, Robot, Event}
use cg2111a_final_project.Robot.Commands.{Input, loop}
use cg2111a_final_project.Robot.Port.{read_packet}
use cg2111a_final_project.Robot.Hello.{Round, receive_all}

-- One call of `loop`: what its call of `readPacket` meets, and what its handlers take from outside.
pub record Turn : Type 0 where
  pub round : Round
  pub input : Input

-- The robot, what was sent and done, and the port.
abbrev pub Progress : Type 0
Progress = Robot × List Event × Uart × Assembler

abbrev pub preceded : List Event → Progress → Option Progress
preceded es (r, es', u, a) = some (r, es ++ es', u, a)

-- `loop()` once for each turn; `none` is an access outside an array.
unfoldable pub serve : Floats → List Turn → Robot → Uart → Assembler → Option Progress
serve f [] r u a = some (r, [], u, a)
serve f (t ∷ ts) r u a = receive_all u t.round.arrived >>= λ u1.
    read_packet u1 a t.round.held >>= λ (u2, (result, bytes, a2)).
    let out = loop f t.input r result (packet_of_bytes bytes) in
    serve f ts out.0 u2 a2 >>= preceded out.1
