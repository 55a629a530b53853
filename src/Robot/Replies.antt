-- ===== src/Robot/Replies.antt =====
-- The packets that the Arduino sends. Each function assigns a few fields of a local packet; what else it
-- holds, `before`, stood on the stack.
use cg2111a_final_project.Base.{
  ℕ, List, [], ◌∷◌, ◌++◌, Bool, length, take, drop, replicate, if◌then◌else◌,
}
use cg2111a_final_project.Wire.Packet.{Packet, max_str_len}
use cg2111a_final_project.Wire.Constants.PacketType
use cg2111a_final_project.Wire.Constants.Response
use cg2111a_final_project.Robot.{Counters, Event, respond}

-- A packet of a type and a command, with the first parameters assigned.
unfoldable pub answer : Packet → ℕ → ℕ → List ℕ → Packet
answer before type command ps = record before {
  packet_type = type;
  command = command;
  params = ps ++ drop (length ps) before.params;
}

unfoldable pub send_status : Packet → Counters → Event
send_status before c = respond (
    answer before PacketType.response Response.status (
      c.left_forward_ticks ∷ c.right_forward_ticks ∷ c.left_reverse_ticks ∷ c.right_reverse_ticks
      ∷ c.left_forward_ticks_turns ∷ c.right_forward_ticks_turns ∷ c.left_reverse_ticks_turns
      ∷ c.right_reverse_ticks_turns ∷ c.forward_dist ∷ c.reverse_dist ∷ []))

unfoldable pub send_color : Packet → ℕ → Event
send_color before color =
    respond (answer before PacketType.color_message Response.color (color ∷ []))

unfoldable pub send_distance : Packet → ℕ → Event
send_distance before distance =
    respond (answer before PacketType.ultrasonic_message Response.ultrasonic (distance ∷ []))

-- The packet of `sendMode`; a `bool` is 1 or 0.
unfoldable pub mode_packet : Packet → Bool → Packet
mode_packet before on = answer before PacketType.manual Response.mode ((if on then 1 else 0) ∷ [])

unfoldable pub send_mode : Packet → Bool → Event
unfolding mode_packet
send_mode before on = respond (mode_packet before on)

unfoldable pub send_buzzer : Packet → Event
send_buzzer before = respond (answer before PacketType.buzzer Response.buzzer [])

-- `sendMessage(message)`: the text is copied by `strncpy`.
unfoldable pub send_message : Packet → List ℕ → Event
send_message before message = respond (record before {
  packet_type = PacketType.message;
  text = take max_str_len (message ++ replicate max_str_len 0);
})

unfoldable pub send_bad_packet : Packet → Event
send_bad_packet before = respond (answer before PacketType.error Response.bad_packet [])

unfoldable pub send_bad_checksum : Packet → Event
send_bad_checksum before = respond (answer before PacketType.error Response.bad_checksum [])

unfoldable pub send_bad_command : Packet → Event
send_bad_command before = respond (answer before PacketType.error Response.bad_command [])

unfoldable pub send_bad_response : Packet → Event
send_bad_response before = respond (answer before PacketType.error Response.bad_response [])

unfoldable pub send_ok : Packet → Event
send_ok before = respond (answer before PacketType.response Response.ok [])
