-- ===== src/Wire/Deserialize/PacketFrame.antt =====
-- The frame of a whole packet.
use cg2111a_final_project.Base.{ℕ, ◌≡◌, List, some, arith, length, take_all, drop_all, append-nil}
use cg2111a_final_project.Wire.Packet.{
  Packet, IsPacket, packet_size, bytes_of_packet, length-bytes_of_packet,
}
use cg2111a_final_project.Wire.Frame.{Comms, IsComms, frame_size, serialize}
use cg2111a_final_project.Wire.Frame.Encode.{length-serialize}
use cg2111a_final_project.Wire.Assemble.{packet_ok}
use cg2111a_final_project.Wire.Deserialize.{open_frame}
use cg2111a_final_project.Wire.Deserialize.RoundTrip.{open_frame-serialize}

-- A packet that is serialised fills a frame and is opened again as that packet.
pub packet_frame :
    (stack : Comms) (p : Packet) (output : List ℕ)
    → IsComms stack
    → IsPacket p
    → length output ≡ packet_size
    → (frame : List ℕ) × (serialize stack (bytes_of_packet p) packet_size ≡ some frame)
      × (length frame ≡ frame_size)
      × (open_frame frame output ≡ some (packet_ok, bytes_of_packet p))
packet_frame stack p output v w l =
    let sized : length (bytes_of_packet p) ≡ packet_size = length-bytes_of_packet p w in
    let (frame, sent, opened) =
      open_frame-serialize stack (bytes_of_packet p) output packet_size v (omega arith)
        (omega (arith, sized)) (omega (arith, l)) in
    (
      frame,
      sent,
      length-serialize stack (bytes_of_packet p) frame packet_size v (omega arith)
          (omega (arith, sized)) sent,
      rw (
        opened,
        take_all packet_size (bytes_of_packet p) (omega (arith, sized)),
        drop_all packet_size output (omega (arith, l)),
        append-nil (bytes_of_packet p),
      ),
    )
