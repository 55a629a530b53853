-- ===== src/Server/Commands.antt =====
-- Commands from the client, and their packets to the Arduino.
use cg2111a_final_project.Base.{
  ℕ, List, [], ◌∷◌, Option, none, some, ◌>>=◌, ◌==◌, if◌then◌else◌, take, drop, get_elem?, slice?,
  switch, u32_of_bytes,
}
use cg2111a_final_project.Wire.Packet.{Packet, packet_size, bytes_of_packet}
use cg2111a_final_project.Wire.Frame.{Comms, serialize}
use cg2111a_final_project.Wire.Constants.PacketType
use cg2111a_final_project.Wire.Constants.Command
use cg2111a_final_project.Wire.Constants.Net
use cg2111a_final_project.Server.{
  Server, Conn, Event, print, serial_write, command_received, bad_command,
}

-- What the stack holds before the handler assigns it: its packet, and the frame of `serialize`.
pub record Stack : Type 0 where
  pub packet : Packet
  pub comms : Comms

-- `uartSendPacket(packet)`
unfoldable pub uart_send_packet : Stack → Packet → Option (List Event)
uart_send_packet st p =
    serialize st.comms (bytes_of_packet p) packet_size >>= λ frame. some (serial_write frame ∷ [])

-- The command of a letter; `none` is the default case.
unfoldable pub command_of : ℕ → Option ℕ
command_of cmd =
    switch cmd
      ((b'f' ∷ b'F' ∷ [], some Command.forward)
        ∷ (b'b' ∷ b'B' ∷ [], some Command.reverse)
        ∷ (b'l' ∷ b'L' ∷ [], some Command.turn_left)
        ∷ (b'r' ∷ b'R' ∷ [], some Command.turn_right)
        ∷ (b's' ∷ b'S' ∷ [], some Command.stop)
        ∷ (b'c' ∷ b'C' ∷ [], some Command.clear_stats)
        ∷ (b'g' ∷ b'G' ∷ [], some Command.get_stats)
        ∷ (b'y' ∷ b'Y' ∷ [], some Command.get_color)
        ∷ (b'u' ∷ b'U' ∷ [], some Command.get_ultrasonic)
        ∷ (b'i' ∷ b'I' ∷ [], some Command.buzzer_1)
        ∷ (b'o' ∷ b'O' ∷ [], some Command.buzzer_2)
        ∷ (b'p' ∷ b'P' ∷ [], some Command.buzzer_3)
        ∷ (b'{' ∷ b'[' ∷ [], some Command.buzzer_4)
        ∷ (b']' ∷ b'}' ∷ [], some Command.buzzer_5)
        ∷ (b'm' ∷ b'M' ∷ [], some Command.toggle_manual)
        ∷ [])
      none

-- The packet that a command sends: two parameters are assigned, and the first is cleared again for
-- COMMAND_CLEAR_STATS. What else it holds stood on the stack.
unfoldable pub command_packet : Packet → ℕ → ℕ → ℕ → Packet
command_packet before code param0 param1 = record before {
  packet_type = PacketType.command;
  command = code;
  params = (if code == Command.clear_stats then 0 else param0) ∷ param1 ∷ drop 2 before.params;
}

unfoldable pub dispatch : Stack → Option ℕ → ℕ → ℕ → Option (List Event)
unfolding uart_send_packet
dispatch st none param0 param1 = some (print bad_command ∷ [])
dispatch st (some code) param0 param1 =
    uart_send_packet st (command_packet st.packet code param0 param1)

-- `handleCommand(conn, buffer)`; `none` is a read past the end of `buffer`.
unfoldable pub handle_command : Stack → List ℕ → Option (List Event)
unfolding dispatch
handle_command st buffer = get_elem? buffer 1 >>= λ cmd. slice? buffer 2 8 >>= λ bytes.
    let param0 = u32_of_bytes (take 4 bytes) in
    let param1 = u32_of_bytes (drop 4 bytes) in
    dispatch st (command_of cmd) param0 param1 >>= λ events.
    some (print (command_received cmd param0 param1) ∷ events)

-- `handleNetworkData(conn, buffer, len)`
unfoldable pub handle_network_data : Server → Stack → Conn → List ℕ → Option (Server × List Event)
unfolding handle_command
handle_network_data s st conn buffer =
    let s' = record s { tls_conn = some conn } in
    get_elem? buffer 0 >>= λ type.
    (if type == Net.command_packet then handle_command st buffer else some []) >>= λ events.
    some (s', events)

-- `sendHello()`
unfoldable pub send_hello : Stack → Option (List Event)
send_hello st = uart_send_packet st (record st.packet { packet_type = PacketType.hello })
