-- ===== src/Robot/Commands.antt =====
-- `handleCommand` and `handlePacket` of Alex-a.ino, and `loop`.
use cg2111a_final_project.Base.{ℕ, List, [], ◌∷◌, Bool, not, if◌then◌else◌, switch, get_or}
use cg2111a_final_project.Wire.Packet.{Packet}
use cg2111a_final_project.Wire.Assemble.{
  Result, packet_ok, packet_bad, packet_checksum_bad, packet_incomplete, packet_complete,
}
use cg2111a_final_project.Wire.Constants.PacketType
use cg2111a_final_project.Wire.Constants.Command
use cg2111a_final_project.Robot.{
  Floats, Robot, Event, play, Tune, start_tone, low_hp, caught, celebrate, tokyo_drift,
}
use cg2111a_final_project.Robot.Moves.{forward, backward, left, right, stop}
use cg2111a_final_project.Robot.Encoders.{clear_one_counter, supervise}
use cg2111a_final_project.Robot.Replies.{
  send_ok, send_status, send_color, send_distance, send_buzzer, send_message, send_mode,
  send_bad_command, send_bad_packet, send_bad_checksum,
}

-- What a call of `handleCommand` takes from outside: the measurements, and what the packets that it
-- sends held before.
pub record Input : Type 0 where
  pub distance : ℕ
  pub color : ℕ
  pub before_ok : Packet
  pub before_answer : Packet
  pub before_text : Packet

-- "manualMode is ON" and "manualMode is OFF"
abbrev pub mode_text : Bool → List ℕ
mode_text on =
    b'm'
    ∷ b'a'
    ∷ b'n'
    ∷ b'u'
    ∷ b'a'
    ∷ b'l'
    ∷ b'M'
    ∷ b'o'
    ∷ b'd'
    ∷ b'e'
    ∷ b' '
    ∷ b'i'
    ∷ b's'
    ∷ b' '
    ∷ (if on then b'O' ∷ b'N' ∷ [] else b'O' ∷ b'F' ∷ b'F' ∷ [])

abbrev pub acknowledged : Input → Robot × List Event → Robot × List Event
acknowledged i out = (out.0, send_ok i.before_ok ∷ out.1)

abbrev pub tune : Input → Robot → Tune → Robot × List Event
tune i r t = acknowledged i (r, play t ∷ send_buzzer i.before_answer ∷ [])

unfoldable pub toggle_manual : Input → Robot → Robot × List Event
toggle_manual i r =
    let on = not r.manual_mode in
    acknowledged i (
      record r { manual_mode = on },
      send_message i.before_text (mode_text on) ∷ send_mode i.before_answer on ∷ [],
    )

abbrev pub command_cases : Floats → Input → Robot → ℕ → ℕ → List (List ℕ × (Robot × List Event))
command_cases f i r p0 p1 =
    (Command.forward ∷ [], acknowledged i (forward f r p0 p1))
    ∷ (Command.reverse ∷ [], acknowledged i (backward f r p0 p1))
    ∷ (Command.turn_left ∷ [], acknowledged i (left f r p0 p1))
    ∷ (Command.turn_right ∷ [], acknowledged i (right f r p0 p1))
    ∷ (Command.stop ∷ [], acknowledged i (stop f r, []))
    ∷ (Command.get_stats ∷ [], (r, send_status i.before_answer r.counters ∷ []))
    ∷ (Command.clear_stats ∷ [], acknowledged i (clear_one_counter r p0, []))
    ∷ (
      Command.get_ultrasonic ∷ [],
      acknowledged i (r, send_distance i.before_answer i.distance ∷ []),
    )
    ∷ (Command.get_color ∷ [], acknowledged i (r, send_color i.before_answer i.color ∷ []))
    ∷ (Command.buzzer_1 ∷ [], tune i r start_tone)
    ∷ (Command.buzzer_2 ∷ [], tune i r low_hp)
    ∷ (Command.buzzer_3 ∷ [], tune i r caught)
    ∷ (Command.buzzer_4 ∷ [], tune i r celebrate)
    ∷ (Command.buzzer_5 ∷ [], tune i r tokyo_drift)
    ∷ (Command.toggle_manual ∷ [], toggle_manual i r)
    ∷ []

-- `handleCommand(command)`
unfoldable pub handle_command : Floats → Input → Robot → Packet → Robot × List Event
handle_command f i r p =
    switch p.command (command_cases f i r (get_or p.params 0 0) (get_or p.params 1 0))
      (r, send_bad_command i.before_answer ∷ [])

-- `handlePacket(packet)`
unfoldable pub handle_packet : Floats → Input → Robot → Packet → Robot × List Event
handle_packet f i r p =
    switch p.packet_type
      ((PacketType.command ∷ [], handle_command f i r p)
        ∷ (PacketType.response ∷ [], (r, []))
        ∷ (PacketType.error ∷ [], (r, []))
        ∷ (PacketType.message ∷ [], (r, []))
        ∷ (PacketType.hello ∷ [], (r, []))
        ∷ [])
      (r, [])

-- What `loop` does with the result of `readPacket`.
unfoldable pub on_packet : Floats → Input → Robot → Result → Packet → Robot × List Event
on_packet f i r packet_ok p = handle_packet f i r p
on_packet f i r packet_bad p = (r, send_bad_packet i.before_answer ∷ [])
on_packet f i r packet_checksum_bad p = (r, send_bad_checksum i.before_answer ∷ [])
on_packet f i r packet_incomplete p = (r, [])
on_packet f i r packet_complete p = (r, [])

-- `loop()`, once the packet was read.
unfoldable pub loop : Floats → Input → Robot → Result → Packet → Robot × List Event
loop f i r result p = let out = on_packet f i r result p in (supervise f out.0, out.1)
