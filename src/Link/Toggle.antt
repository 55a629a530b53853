-- ===== src/Link/Toggle.antt =====
-- COMMAND_TOGGLE_MANUAL, from the Arduino to the client.
use cg2111a_final_project.Base.{
  ℕ, ◌%◌, ◌^◌, ◌≡◌, refl, ap, ◌∙◌, List, [], ◌∷◌, ◌++◌, some, Bool, true, false, not, ◌==◌,
  if◌then◌else◌, drop,
}
use cg2111a_final_project.Wire.Packet.{Packet}
use cg2111a_final_project.Wire.Constants.Command
use cg2111a_final_project.Server.{
  Conn, Outcome, print, ssl_write, uart_manual, writing_to_client, hello_from_arduino, warn,
}
use cg2111a_final_project.Server.Uart.{handle_uart_packet}
use cg2111a_final_project.Client.{Client, print, mode}
use cg2111a_final_project.Client.Reader.{handle_network}
use cg2111a_final_project.Robot.{Floats, Robot, respond}
use cg2111a_final_project.Robot.Replies.{send_ok, send_message, send_mode, mode_packet, answer}
use cg2111a_final_project.Robot.Commands.{Input, handle_command, toggle_manual, mode_text}
use cg2111a_final_project.Link.{mode_reaches_client}

flag : Bool → ℕ
flag on = if on then 1 else 0

flag_read : (on : Bool) → not (flag on % 2 ^ 8 == 0) ≡ on
unfolding flag
flag_read true = refl
flag_read false = refl

-- The robot gets COMMAND_TOGGLE_MANUAL: its mode is the other one, it answers with RESP_OK, a text and a
-- mode packet, and when the Pi, connected to a client, handles that mode packet, it writes one message to
-- the client, which sets the client's drive mode to the robot's new one.
pub toggle_reaches_client :
    (f : Floats) (i : Input) (r : Robot) (p : Packet) (o : Outcome) (conn : Conn) (c : Client)
    (rest : List ℕ)
    → p.command ≡ Command.toggle_manual
    → (mp : Packet) × (bs : List ℕ) × (handle_command f i r p ≡ (
      record r { manual_mode = not r.manual_mode },
      send_ok i.before_ok
          ∷ send_message i.before_text (mode_text (not r.manual_mode))
          ∷ respond mp
          ∷ [],
    ))
      × ((handle_uart_packet (record { network_active = true; tls_conn = some conn }) o mp).1
          ≡ print uart_manual
            ∷ print writing_to_client
            ∷ ssl_write conn bs
            ∷ (warn o.written ++ print hello_from_arduino ∷ []))
      × (handle_network c (bs ++ rest)
          ≡ some
              (record c { manual_mode = not r.manual_mode }, print (mode (not r.manual_mode)) ∷ []))
unfolding handle_command toggle_manual send_mode mode_packet answer flag
toggle_reaches_client f i r p o conn c rest toggled =
    let on = not r.manual_mode in
    let mp : Packet = mode_packet i.before_answer on in
    let (bs, written, read) =
      mode_reaches_client o conn mp (flag on) (drop 1 i.before_answer.params) c rest refl refl in
    (
      mp,
      bs,
      simp toggled refl,
      written,
      read ∙ ap (λ b. some (record c { manual_mode = b }, print (mode b) ∷ [])) (flag_read on),
    )
