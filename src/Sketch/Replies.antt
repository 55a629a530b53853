-- ===== src/Sketch/Replies.antt =====
-- The packets that Alex-sb.ino sends. What a local packet held before is `before`.
use cg2111a_final_project.Base.{ℕ, List, [], ◌++◌, Option, take, replicate}
use cg2111a_final_project.Wire.Packet.{Packet, max_str_len, packet_size, bytes_of_packet}
use cg2111a_final_project.Wire.Frame.{Comms, serialize}
use cg2111a_final_project.Sketch.Codes

-- `sendResponse(packet)`: the bytes that `writeSerial` writes to the port, with the frame's stack.
unfoldable pub send_response : Comms → Packet → Option (List ℕ)
send_response stack p = serialize stack (bytes_of_packet p) packet_size

-- `sendStatus()` is still to be written.
unfoldable pub send_status : List Packet
send_status = []

-- `sendMessage(message)`: the text is copied by `strncpy`.
unfoldable pub send_message : Packet → List ℕ → Packet
send_message before message = record before {
  packet_type = Codes.packet_message;
  text = take max_str_len (message ++ replicate max_str_len 0);
}

unfoldable pub send_bad_packet : Packet → Packet
send_bad_packet before = record before {
  packet_type = Codes.packet_error;
  command = Codes.resp_bad_packet;
}

unfoldable pub send_bad_checksum : Packet → Packet
send_bad_checksum before = record before {
  packet_type = Codes.packet_error;
  command = Codes.resp_bad_checksum;
}

unfoldable pub send_bad_command : Packet → Packet
send_bad_command before = record before {
  packet_type = Codes.packet_error;
  command = Codes.resp_bad_command;
}

unfoldable pub send_bad_response : Packet → Packet
send_bad_response before = record before {
  packet_type = Codes.packet_error;
  command = Codes.resp_bad_response;
}

unfoldable pub send_ok : Packet → Packet
send_ok before = record before { packet_type = Codes.packet_response; command = Codes.resp_ok }
