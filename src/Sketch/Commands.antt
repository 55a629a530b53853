-- ===== src/Sketch/Commands.antt =====
-- The serial reads, the commands, `waitForHello`, `setup` and `loop` of Alex-sb.ino.
use cg2111a_final_project.Base.{
  ℕ, List, [], ◌∷◌, ◌++◌, Option, none, some, ◌>>=◌, Bool, true, false, ◌==◌, if◌then◌else◌, leb,
  length, switch, get_or, set_bit, clear_bit,
}
use cg2111a_final_project.Wire.Packet.{Packet}
use cg2111a_final_project.Wire.Frame.{frame_size}
use cg2111a_final_project.Wire.Assemble.{
  Assembler, Result, packet_ok, packet_bad, packet_checksum_bad, packet_incomplete, packet_complete,
}
use cg2111a_final_project.Wire.Deserialize.{deserialize}
use cg2111a_final_project.Robot.{Floats}
use cg2111a_final_project.Sketch.{Sketch, forward}
use cg2111a_final_project.Sketch.Codes
use cg2111a_final_project.Sketch.Encoders.{clear_counters}
use cg2111a_final_project.Sketch.Replies.{
  send_ok, send_bad_packet, send_bad_checksum, send_bad_command, send_bad_response, send_message,
}

-- `readSerial(buffer)`: the bytes that `Serial` has, behind those that were taken; `none` is a write past
-- the end of the buffer.
unfoldable pub read_serial : List ℕ → List ℕ → Option (List ℕ)
read_serial got [] = some got
read_serial got (b ∷ bs) =
    let rest = read_serial (got ++ b ∷ []) bs in if leb frame_size (length got) then none else rest

-- `readPacket(packet)`
unfoldable pub read_packet : List ℕ → Assembler → List ℕ → Option (Result × List ℕ × Assembler)
unfolding read_serial
read_packet available a packet = read_serial [] available >>= λ got.
    if length got == 0 then some (packet_incomplete, packet, a) else deserialize a got packet

-- `handleCommand(command)`
unfoldable pub handle_command : Floats → Packet → Sketch → Packet → Sketch × List Packet
handle_command f before s p =
    switch p.command
      ((
        Codes.command_forward ∷ [],
        (forward f s (get_or p.params 0 0) (get_or p.params 1 0), send_ok before ∷ []),
      )
        ∷ [])
      (s, send_bad_command before ∷ [])

-- `handlePacket(packet)`
unfoldable pub handle_packet : Floats → Packet → Sketch → Packet → Sketch × List Packet
unfolding handle_command
handle_packet f before s p =
    switch p.packet_type
      ((Codes.packet_command ∷ [], handle_command f before s p)
        ∷ (Codes.packet_response ∷ [], (s, []))
        ∷ (Codes.packet_error ∷ [], (s, []))
        ∷ (Codes.packet_message ∷ [], (s, []))
        ∷ (Codes.packet_hello ∷ [], (s, []))
        ∷ [])
      (s, [])

-- Whether `waitForHello` is left after a result, and the answers.
unfoldable pub greet : Packet → Result → Packet → Bool × List Packet
greet before packet_ok p =
    if p.packet_type == Codes.packet_hello
    then (true, send_ok before ∷ [])
    else (false, send_bad_response before ∷ [])
greet before packet_bad p = (false, send_bad_packet before ∷ [])
greet before packet_checksum_bad p = (false, send_bad_checksum before ∷ [])
greet before packet_incomplete p = (false, [])
greet before packet_complete p = (false, [])

-- `waitForHello()` over the results of `readPacket`: whether it was left, and the answers.
unfoldable pub wait_for_hello : List (Result × Packet × Packet) → Bool × List Packet
unfolding greet
wait_for_hello [] = (false, [])
wait_for_hello ((result, p, before) ∷ rest) =
    let out = greet before result p in
    let on = wait_for_hello rest in if out.0 then out else (on.0, out.1 ++ on.1)

-- The registers that `setup` writes.
pub record Registers : Type 0 where
  pub eicra : ℕ
  pub eimsk : ℕ
  pub ddrd : ℕ
  pub portd : ℕ

unfoldable pub setup_eint : Registers → Registers
setup_eint g = record g { eicra = 0b10100000; eimsk = 0b00001100 }

unfoldable pub enable_pullups : Registers → Registers
enable_pullups g = record g {
  ddrd = clear_bit 3 (clear_bit 2 g.ddrd);
  portd = set_bit 3 (set_bit 2 g.portd);
}

unfoldable pub initialize_state : Sketch → Sketch
unfolding clear_counters
initialize_state s = clear_counters s

-- `setup()`: it does not wait for a greeting.
unfoldable pub setup : Registers → Sketch → Registers × Sketch
unfolding setup_eint enable_pullups initialize_state
setup g s = (enable_pullups (setup_eint g), initialize_state s)

-- `loop()`: a trial drive, and the text that `vsprintf` made.
unfoldable pub loop : Floats → Packet → List ℕ → Sketch → Sketch × List Packet
loop f before message s = (forward f s 0 50, send_message before message ∷ [])
