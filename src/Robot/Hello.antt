-- ===== src/Robot/Hello.antt =====
-- `waitForHello` of Alex-a.ino: the robot waits at its serial port until a packet greets it.
pub mod Rounds
pub mod Greeted
use cg2111a_final_project.Base.{
  ℕ, List, [], ◌∷◌, ◌++◌, Option, none, some, ◌>>=◌, Bool, true, false, ◌==◌, if◌then◌else◌,
}
use cg2111a_final_project.Wire.Packet.{Packet, packet_of_bytes}
use cg2111a_final_project.Wire.Constants.PacketType
use cg2111a_final_project.Wire.Assemble.{
  Assembler, Result, packet_ok, packet_bad, packet_checksum_bad, packet_incomplete, packet_complete,
}
use cg2111a_final_project.Uart.{Uart, rx_interrupt}
use cg2111a_final_project.Robot.{Event}
use cg2111a_final_project.Robot.Port.{read_packet}
use cg2111a_final_project.Robot.Replies.{
  send_ok, send_bad_response, send_bad_packet, send_bad_checksum,
}

-- What one call of `readPacket` meets: the bytes that the receive interrupt stored since the last one,
-- what the local variable `hello` held, and what the local packet of the answer held.
pub record Round : Type 0 where
  pub arrived : List ℕ
  pub held : List ℕ
  pub before : Packet

-- The receive interrupt, once for each byte.
unfoldable pub receive_all : Uart → List ℕ → Option Uart
unfolding rx_interrupt
receive_all u [] = some u
receive_all u (b ∷ bs) = rx_interrupt u b >>= λ u'. receive_all u' bs

-- Whether the loop is left after a result, and the answer. On PACKET_INCOMPLETE the inner loop reads on.
unfoldable pub greet : Packet → Result → Packet → Bool × List Event
greet before packet_ok p =
    if p.packet_type == PacketType.hello
    then (true, send_ok before ∷ [])
    else (false, send_bad_response before ∷ [])
greet before packet_bad p = (false, send_bad_packet before ∷ [])
greet before packet_checksum_bad p = (false, send_bad_checksum before ∷ [])
greet before packet_incomplete p = (false, [])
greet before packet_complete p = (false, [])

-- Whether the loop was left, the answers, the rounds that were not needed, and the state.
abbrev pub Waited : Type 0
Waited = Bool × List Event × List Round × Uart × Assembler

abbrev pub answered : List Event → Waited → Option Waited
answered es (met, es', rest, u, a) = some (met, es ++ es', rest, u, a)

-- `waitForHello()`, for as many calls of `readPacket` as there are rounds; `none` is an access outside an
-- array.
unfoldable pub wait_for_hello : List Round → Uart → Assembler → Option Waited
wait_for_hello [] u a = some (false, [], [], u, a)
wait_for_hello (r ∷ rs) u a = receive_all u r.arrived >>= λ u1.
    read_packet u1 a r.held >>= λ (u2, (result, bytes, a2)).
    let out = greet r.before result (packet_of_bytes bytes) in
    let on = wait_for_hello rs u2 a2 >>= answered out.1 in
    if out.0 then some (true, out.1, rs, u2, a2) else on
