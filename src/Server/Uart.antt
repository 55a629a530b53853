-- ===== src/Server/Uart.antt =====
-- The handlers for packets from the Arduino.
use cg2111a_final_project.Base.{
  ℕ, List, [], ◌∷◌, ◌++◌, Option, none, some, ◌>>=◌, ◌==◌, if◌then◌else◌, switch,
}
use cg2111a_final_project.Wire.Packet.{Packet, words_bytes}
use cg2111a_final_project.Wire.Constants.PacketType
use cg2111a_final_project.Wire.Constants.Response
use cg2111a_final_project.Wire.Constants.Net
use cg2111a_final_project.Server.{
  Server, Line, Event, print, Outcome, send_network_data, uart_error, message_packet, reading,
  uart_ultrasonic, uart_color, uart_manual, uart_buzzer, uart_status, command_ok, boo,
  hello_from_arduino,
}

-- Print a line, then send.
unfoldable pub report : Server → Outcome → Line → List ℕ → Server × List Event
unfolding send_network_data
report s o line bytes = let (s', events) = send_network_data s o bytes in (s', print line ∷ events)

-- One byte of packet type and the sixteen parameters: 65 bytes.
unfoldable pub forwarded : ℕ → Packet → List ℕ
forwarded type p = type ∷ words_bytes p.params

unfoldable pub handle_error_response : Server → Outcome → Packet → Server × List Event
unfolding report
handle_error_response s o p = report s o (uart_error p.command) (Net.error_packet ∷ p.command ∷ [])

unfoldable pub handle_message : Server → Packet → Server × List Event
handle_message s p = (s, print message_packet ∷ print (reading p.text) ∷ [])

unfoldable pub handle_ultrasonic_message : Server → Outcome → Packet → Server × List Event
unfolding report forwarded
handle_ultrasonic_message s o p =
    report s o uart_ultrasonic (forwarded Net.ultrasonic_message_packet p)

-- What `printf` prints of an array for `%s`: the bytes in front of the first 0. Without one it goes on
-- behind the array, and `none` says so.
unfoldable pub text_of : List ℕ → Option (List ℕ)
text_of [] = none
text_of (b ∷ bs) = let rest = text_of bs in if b == 0 then some [] else rest >>= λ l. some (b ∷ l)

-- The parameters are the last array of the packet.
unfoldable pub handle_color_message : Server → Outcome → Packet → Server × List Event
unfolding report forwarded
handle_color_message s o p =
    report s o (uart_color (text_of (words_bytes p.params))) (forwarded Net.color_message_packet p)

unfoldable pub handle_mode_message : Server → Outcome → Packet → Server × List Event
unfolding report forwarded
handle_mode_message s o p = report s o uart_manual (forwarded Net.manualmode_packet p)

unfoldable pub handle_buzzer_message : Server → Outcome → Packet → Server × List Event
unfolding report forwarded
handle_buzzer_message s o p = report s o uart_buzzer (forwarded Net.buzzer_packet p)

unfoldable pub handle_status : Server → Outcome → Packet → Server × List Event
unfolding report forwarded
handle_status s o p = report s o uart_status (forwarded Net.status_packet p)

abbrev pub response_cases : Server → Outcome → Packet → List (List ℕ × (Server × List Event))
response_cases s o p =
    (Response.ok ∷ [], report s o command_ok (Net.error_packet ∷ Response.ok ∷ []))
    ∷ (Response.status ∷ [], handle_status s o p)
    ∷ []

unfoldable pub handle_response : Server → Outcome → Packet → Server × List Event
unfolding report handle_status
handle_response s o p = switch p.command (response_cases s o p) (s, print boo ∷ [])

-- The case PACKET_TYPE_MANUAL has no `break` and goes on with that of PACKET_TYPE_HELLO.
unfoldable pub manual_then_hello : Server → Outcome → Packet → Server × List Event
unfolding handle_mode_message
manual_then_hello s o p =
    let (s', events) = handle_mode_message s o p in (s', events ++ print hello_from_arduino ∷ [])

abbrev pub uart_cases : Server → Outcome → Packet → List (List ℕ × (Server × List Event))
uart_cases s o p =
    (PacketType.command ∷ [], (s, []))
    ∷ (PacketType.response ∷ [], handle_response s o p)
    ∷ (PacketType.error ∷ [], handle_error_response s o p)
    ∷ (PacketType.ultrasonic_message ∷ [], handle_ultrasonic_message s o p)
    ∷ (PacketType.color_message ∷ [], handle_color_message s o p)
    ∷ (PacketType.message ∷ [], handle_message s p)
    ∷ (PacketType.buzzer ∷ [], handle_buzzer_message s o p)
    ∷ (PacketType.manual ∷ [], manual_then_hello s o p)
    ∷ (PacketType.hello ∷ [], (s, print hello_from_arduino ∷ []))
    ∷ []

unfoldable pub handle_uart_packet : Server → Outcome → Packet → Server × List Event
unfolding handle_response handle_error_response handle_ultrasonic_message handle_color_message
    handle_message handle_buzzer_message manual_then_hello
handle_uart_packet s o p = switch p.packet_type (uart_cases s o p) (s, [])
