-- ===== src/Server/Relay.antt =====
-- A command of the client, followed from its ten bytes to the packet that the Arduino unpacks.
use cg2111a_final_project.Base.{
  ℕ, ◌≤◌, ◌<◌, ◌^◌, ◌≡◌, List, [], ◌∷◌, ◌++◌, Option, none, some, ◌>>=◌, arith, length, drop,
  slice?, ◌==◌, Bool-cases, Option-cases, refl, inl, inr, u32_bytes, u32_of_bytes-u32_bytes, le→leb,
  length-drop,
}
use cg2111a_final_project.Wire.Packet.{
  Packet, IsPacket, AllWords, packet_size, bytes_of_packet, packet_of_bytes,
  packet_of_bytes-bytes_of_packet,
}
use cg2111a_final_project.Wire.Frame.{IsComms, serialize}
use cg2111a_final_project.Wire.Constants.Command
use cg2111a_final_project.Wire.Constants.Net
use cg2111a_final_project.Wire.Assemble.{Result, packet_ok}
use cg2111a_final_project.Wire.Deserialize.{open_frame}
use cg2111a_final_project.Wire.Deserialize.PacketFrame.{packet_frame}
use cg2111a_final_project.Server.{Server, Conn, print, serial_write, command_received}
use cg2111a_final_project.Server.Commands.{
  Stack, uart_send_packet, command_of, command_packet, dispatch, handle_command,
  handle_network_data,
}

-- What a packet handed to `uartSendPacket` becomes on the other side of the serial line.
pub uart_send_packet_lem :
    (st : Stack) (p : Packet) (output : List ℕ)
    → IsComms st.comms
    → IsPacket p
    → length output ≡ packet_size
    → (frame : List ℕ) × (uart_send_packet st p ≡ some (serial_write frame ∷ []))
      × (open_frame frame output ≡ some (packet_ok, bytes_of_packet p))
unfolding uart_send_packet
uart_send_packet_lem st p output v w l =
    let (frame, sent, sized, opened) = packet_frame st.comms p output v w l in
    (frame, rw sent, opened)

AllWords-drop_two : (ws : List ℕ) → AllWords ws → AllWords (drop 2 ws)
AllWords-drop_two [] h = tt
AllWords-drop_two (a ∷ []) h = tt
AllWords-drop_two (a ∷ b ∷ ws) h = h.1.1

pub command_packet-IsPacket :
    (p : Packet) (code a b : ℕ)
    → IsPacket p
    → a < 2 ^ 32
    → b < 2 ^ 32
    → IsPacket (command_packet p code a b)
unfolding command_packet
command_packet-IsPacket p code a b v ha hb = elim (Bool-cases (code == Command.clear_stats)) [
  | inl clear ↦ rw clear (packed 0 (omega arith))
  | inr other ↦ rw other (packed a ha)
]
  where
    packed :
        (x : ℕ)
        → x < 2 ^ 32
        → IsPacket (record p { packet_type = 0; command = code; params = x ∷ b ∷ drop 2 p.params })
    packed x hx = record {
      dummy_fits = v.dummy_fits;
      text_fits = v.text_fits;
      params_fit = omega (arith, length-drop 2 p.params, v.params_fit);
      params_words = (hx, (hb, AllWords-drop_two p.params v.params_words));
    }

-- The ten bytes that the client sends for a command.
abbrev pub command_bytes : ℕ → ℕ → ℕ → List ℕ → List ℕ
command_bytes cmd a b rest = Net.command_packet ∷ cmd ∷ (u32_bytes a ++ (u32_bytes b ++ rest))

handle_command-reads :
    (st : Stack) (cmd a b : ℕ) (rest : List ℕ)
    → a < 2 ^ 32
    → b < 2 ^ 32
    → handle_command st (command_bytes cmd a b rest) ≡ (
        dispatch st (command_of cmd) a b >>= λ events.
        some (print (command_received cmd a b) ∷ events))
unfolding handle_command u32_bytes
handle_command-reads st cmd a b rest ha hb =
    rw (sliced, u32_of_bytes-u32_bytes a ha, u32_of_bytes-u32_bytes b hb)
  where
    enough : 10 ≤ length (command_bytes cmd a b rest)
    enough = omega arith

    sliced : slice? (command_bytes cmd a b rest) 2 8 ≡ some (u32_bytes a ++ u32_bytes b)
    sliced = rw (le→leb 10 (length (command_bytes cmd a b rest)) enough)

-- The result of `deserialize` for a caller whose object is a `TPacket`.
abbrev pub unpacked : Option (Result × List ℕ) → Option (Result × Packet)
unpacked none = none
unpacked (some (r, bytes)) = some (r, packet_of_bytes bytes)

-- A command of the client with a letter that the Pi knows and two parameters below 2^32, whatever
-- packet and frame the Pi's stack held before: the connection becomes the one that answers are
-- sent to, one frame goes out on the serial line, and for an object of 100 bytes it is unpacked as
-- PACKET_OK and the command packet with the letter's code and the two parameters.
pub handle_network_data_relays :
    (s : Server) (st : Stack) (conn : Conn) (cmd code a b : ℕ) (rest output : List ℕ)
    → IsComms st.comms
    → IsPacket st.packet
    → a < 2 ^ 32
    → b < 2 ^ 32
    → command_of cmd ≡ some code
    → length output ≡ packet_size
    → (frame : List ℕ) × (handle_network_data s st conn (command_bytes cmd a b rest)
        ≡ some (
          record s { tls_conn = some conn },
          print (command_received cmd a b) ∷ serial_write frame ∷ [],
        ))
      × (unpacked (open_frame frame output) ≡ some (packet_ok, command_packet st.packet code a b))
unfolding handle_network_data dispatch
handle_network_data_relays s st conn cmd code a b rest output v w ha hb known l =
    let p : Packet = command_packet st.packet code a b in
    let valid : IsPacket p = command_packet-IsPacket st.packet code a b w ha hb in
    let (frame, sent, opened) = uart_send_packet_lem st p output v valid l in
    (
      frame,
      rw (handle_command-reads st cmd a b rest ha hb, known, sent),
      rw (opened, packet_of_bytes-bytes_of_packet p valid),
    )

-- The frame is the one that `serialize` writes of that packet.
pub handle_network_data_framed :
    (s s' : Server) (st : Stack) (conn : Conn) (cmd code a b : ℕ) (rest frame : List ℕ)
    → a < 2 ^ 32
    → b < 2 ^ 32
    → command_of cmd ≡ some code
    → handle_network_data s st conn (command_bytes cmd a b rest)
      ≡ some (s', print (command_received cmd a b) ∷ serial_write frame ∷ [])
    → serialize st.comms (bytes_of_packet (command_packet st.packet code a b)) packet_size
      ≡ some frame
unfolding handle_network_data dispatch uart_send_packet
handle_network_data_framed s s' st conn cmd code a b rest frame ha hb known sent =
    elim (Option-cases
      (serialize st.comms (bytes_of_packet (command_packet st.packet code a b)) packet_size)) [
        | inl failed ↦
            let e : handle_network_data s st conn (command_bytes cmd a b rest) ≡ none =
              rw (handle_command-reads st cmd a b rest ha hb, known, failed) refl in
            cc (sent, e)
        | inr (g, wrote) ↦
            let e : handle_network_data s st conn (command_bytes cmd a b rest)
                ≡ some (
                  record s { tls_conn = some conn },
                  print (command_received cmd a b) ∷ serial_write g ∷ [],
                ) =
              rw (handle_command-reads st cmd a b rest ha hb, known, wrote) refl in
            cc (sent, e, wrote)
      ]
