-- ===== src/Link/Tests.antt =====
-- The theorems on the three programs at concrete keys and packets.
use cg2111a_final_project.Base.{ℕ, ◌≡◌, refl, List, [], ◌∷◌, ◌++◌, some, true, not, replicate}
use cg2111a_final_project.Wire.Packet.{Packet, packet_size}
use cg2111a_final_project.Server.{
  print, ssl_write, uart_manual, writing_to_client, hello_from_arduino, warn,
}
use cg2111a_final_project.Server.Uart.{handle_uart_packet}
use cg2111a_final_project.Server.Tests.{
  stack, stack-IsComms, blank_packet-IsPacket, connected, failing,
}
use cg2111a_final_project.Client.{print, mode}
use cg2111a_final_project.Client.Reader.{handle_network}
use cg2111a_final_project.Client.Writer.{writer_round}
use cg2111a_final_project.Client.Known.{AllSent}
use cg2111a_final_project.Client.Tests.{driving, forward_key, started}
use cg2111a_final_project.Link.{Delivered, key_reaches_arduino}
use cg2111a_final_project.Robot.{respond}
use cg2111a_final_project.Robot.Replies.{send_ok, send_message}
use cg2111a_final_project.Robot.Commands.{handle_command, mode_text}
use cg2111a_final_project.Robot.Tests.{floats, robot, zeros, input}
use cg2111a_final_project.Link.Toggle.{toggle_reaches_client}

key_reaches_arduino_example :
    AllSent
      (Delivered connected stack 4 (replicate 118 0) (replicate packet_size 0))
      (writer_round 1000000 driving forward_key started).2
key_reaches_arduino_example =
    key_reaches_arduino 1000000 driving forward_key started connected stack 4 (replicate 118 0)
      (replicate packet_size 0) stack-IsComms blank_packet-IsPacket refl

toggle_reaches_client_example :
    (mp : Packet) × (bs : List ℕ) × (handle_command floats input robot
        (record zeros { command = 10 })
      ≡ (
        record robot { manual_mode = not robot.manual_mode },
        send_ok input.before_ok
            ∷ send_message input.before_text (mode_text (not robot.manual_mode))
            ∷ respond mp
            ∷ [],
      ))
    × ((handle_uart_packet (record { network_active = true; tls_conn = some 4 }) failing mp).1
        ≡ print uart_manual
          ∷ print writing_to_client
          ∷ ssl_write 4 bs
          ∷ (warn failing.written ++ print hello_from_arduino ∷ []))
    × (handle_network driving (bs ++ [])
        ≡ some (
          record driving { manual_mode = not robot.manual_mode },
          print (mode (not robot.manual_mode)) ∷ [],
        ))
toggle_reaches_client_example =
    toggle_reaches_client floats input robot (record zeros { command = 10 }) failing 4 driving []
      refl
