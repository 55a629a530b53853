-- ===== src/Link.antt =====
-- The three programs together: keys of the operator on their way to the Arduino, and the drive mode on
-- its way back.
pub mod Toggle
pub mod Drive
pub mod Status
pub mod Tests
pub mod DriveTests
pub mod StatusTests
use cg2111a_final_project.Base.{
  ℕ, ◌%◌, ◌/◌, ◌<◌, ◌^◌, ◌≡◌, refl, sym, ap, ap₂, ◌∙◌, subst, inl, inr, List, [], ◌∷◌, ◌++◌, Option,
  none, some, Bool, true, false, not, arith, length, ◌==◌, if◌then◌else◌, u8, u32, u32_bytes,
  u32_bytes-u32, append_assoc, switch,
}
use cg2111a_final_project.Base.Int.{ℤ, is_positive}
use cg2111a_final_project.Wire.Packet.{Packet, IsPacket, packet_size, words_bytes}
use cg2111a_final_project.Wire.Frame.{Comms, IsComms}
use cg2111a_final_project.Wire.Assemble.{packet_ok}
use cg2111a_final_project.Wire.Deserialize.{open_frame}
use cg2111a_final_project.Wire.Constants.PacketType
use cg2111a_final_project.Server.{
  Server, Conn, Outcome, print, serial_write, ssl_write, command_received, uart_manual,
  writing_to_client, hello_from_arduino, warn, send_network_data, write_to,
}
use cg2111a_final_project.Server.Uart.{
  handle_uart_packet, manual_then_hello, handle_mode_message, report, forwarded,
}
use cg2111a_final_project.Server.Commands.{Stack, command_of, command_packet, handle_network_data}
use cg2111a_final_project.Server.Relay.{command_bytes, unpacked, handle_network_data_relays}
use cg2111a_final_project.Client.{Client, Event, print, ssl_write, sleep, mode}
use cg2111a_final_project.Client.Reader.{handle_network}
use cg2111a_final_project.Client.Mode.{handle_network-mode}
use cg2111a_final_project.Client.Keys.{command_buffer}
use cg2111a_final_project.Client.Writer.{Input, Local, writer_round}
use cg2111a_final_project.Client.Known.{AllSent, IsCommand, IsKnown, writer_round_known}

-- The bytes of a mode packet.
abbrev mode_bytes : Packet → List ℕ
mode_bytes p = 7 ∷ words_bytes p.params

-- The Pi, connected to a client, receives PACKET_TYPE_MANUAL from the Arduino: it writes one message to
-- that client, and there, in front of whatever the buffer holds, the message sets the drive mode to
-- whether the low byte of the first parameter is not 0.
pub mode_reaches_client :
    (o : Outcome) (conn : Conn) (p : Packet) (w : ℕ) (ws : List ℕ) (c : Client) (rest : List ℕ)
    → p.packet_type ≡ PacketType.manual
    → p.params ≡ w ∷ ws
    → (bs : List ℕ) × ((handle_uart_packet
          (record { network_active = true; tls_conn = some conn })
          o
          p).1
        ≡ print uart_manual
          ∷ print writing_to_client
          ∷ ssl_write conn bs
          ∷ (warn o.written ++ print hello_from_arduino ∷ []))
      × (handle_network c (bs ++ rest)
          ≡ some (
            record c { manual_mode = not (w % 2 ^ 8 == 0) },
            print (mode (not (w % 2 ^ 8 == 0))) ∷ [],
          ))
unfolding handle_uart_packet manual_then_hello handle_mode_message report forwarded
    send_network_data write_to words_bytes u32_bytes
mode_reaches_client o conn p w ws c rest is_mode first =
    (mode_bytes p, simp is_mode refl, simp first (handle_network-mode c (u8 w) _))

module _ (s : Server) (st : Stack) (conn : Conn) (rest output : List ℕ) where
  -- The Pi answers the message with one frame on the serial line, which is unpacked as PACKET_OK and a
  -- command packet.
  abbrev pub Delivered : List ℕ → Type 0
  Delivered bs =
      (cmd : ℕ) × (code : ℕ) × (a : ℕ) × (b : ℕ) × (frame : List ℕ) × (command_of cmd ≡ some code)
      × (bs ≡ command_buffer cmd a b)
      × (handle_network_data s st conn (bs ++ rest)
          ≡ some (
            record s { tls_conn = some conn },
            print (command_received cmd a b) ∷ serial_write frame ∷ [],
          ))
      × (unpacked (open_frame frame output) ≡ some (packet_ok, command_packet st.packet code a b))

  IsCommand-Delivered :
      (bs : List ℕ)
      → IsComms st.comms
      → IsPacket st.packet
      → length output ≡ packet_size
      → IsCommand bs
      → Delivered bs
  unfolding command_buffer
  IsCommand-Delivered bs v w l (cmd, a, b, same, (code, known)) =
      let (frame, sent, opened) =
        handle_network_data_relays s st conn cmd code (u32 a) (u32 b) rest output v w (omega arith)
          (omega arith) known l in
      (
        cmd,
        code,
        u32 a,
        u32 b,
        frame,
        known,
        same ∙ simp (u32_bytes-u32 a, u32_bytes-u32 b),
        rw (same, u32_bytes-u32 a, u32_bytes-u32 b, append_assoc) sent,
        opened,
      )

AllSent-map :
    {P Q : List ℕ → Type 0} (es : List Event)
    → ((bs : List ℕ) → P bs → Q bs)
    → AllSent P es
    → AllSent Q es
AllSent-map [] f h = tt
AllSent-map (ssl_write bs ∷ es) f h = (f bs h.0, AllSent-map es f h.1)
AllSent-map (print l ∷ es) f h = AllSent-map es f h
AllSent-map (sleep n ∷ es) f h = AllSent-map es f h

-- Whatever key the operator presses, in either mode, and whatever packet and frame the Pi's stack
-- held before: each message of the round, in front of whatever the Pi's buffer holds, is a command
-- that the Pi knows, and it goes on as one frame from which, for an object of 100 bytes, PACKET_OK
-- and the packet of that command with the same two parameters are unpacked.
pub key_reaches_arduino :
    (clocks_per_sec : ℕ) (c : Client) (i : Input) (l : Local) (s : Server) (st : Stack)
    (conn : Conn) (rest output : List ℕ)
    → IsComms st.comms
    → IsPacket st.packet
    → length output ≡ packet_size
    → AllSent (Delivered s st conn rest output) (writer_round clocks_per_sec c i l).2
key_reaches_arduino clocks_per_sec c i l s st conn rest output v w sized =
    AllSent-map (writer_round clocks_per_sec c i l).2
      (λ bs. IsCommand-Delivered s st conn rest output bs v w sized)
      (writer_round_known clocks_per_sec c i l)
