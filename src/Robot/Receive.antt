-- ===== src/Robot/Receive.antt =====
-- A frame of the Pi at `readPacket` of the Arduino.
use cg2111a_final_project.Base.{
  ℕ, ◌≤◌, ◌≡◌, refl, sym, ap, ◌∙◌, List, [], ◌++◌, some, length, arith, le→leb, take, drop,
  take_all, drop_all, some_injective,
}
use cg2111a_final_project.Wire.Frame.{Comms, IsComms, frame_size, max_data_size, serialize}
use cg2111a_final_project.Wire.Frame.Encode.{length-serialize}
use cg2111a_final_project.Wire.Assemble.Waiting.{IsAssembling, pending}
use cg2111a_final_project.Wire.Assemble.Fill.{absorb}
use cg2111a_final_project.Wire.Assemble.Stream.{assemble_absorbs}
use cg2111a_final_project.Wire.Deserialize.RoundTrip.{open_frame-serialize}
use cg2111a_final_project.Wire.Deserialize.Split.{on_complete}
use cg2111a_final_project.Wire.Assemble.{packet_ok, Assembler}
use cg2111a_final_project.Wire.Deserialize.{deserialize}
use cg2111a_final_project.Uart.{Uart, buffer_size}
use cg2111a_final_project.Uart.Fifo.{IsUart, to_read}
use cg2111a_final_project.Robot.Port.{read_packet, read_serial_fits}

-- A frame that `serialize` wrote of a payload of at most 128 bytes that source and object have
-- room for waits at a port in good order, and at the assembler, which satisfies its invariant,
-- nothing is pending: `readPacket` answers PACKET_OK, puts the payload into the packet, and leaves
-- nothing waiting and nothing pending.
pub read_packet_receives :
    (stack : Comms) (source output : List ℕ) (size : ℕ) (u : Uart) (a : Assembler)
    → IsComms stack
    → size ≤ max_data_size
    → size ≤ length source
    → size ≤ length output
    → IsUart u
    → serialize stack source size ≡ some (to_read u)
    → IsAssembling a
    → pending a ≡ []
    → (u' : Uart) × (a' : Assembler) × (read_packet u a output
        ≡ some (u', (packet_ok, take size source ++ drop size output, a')))
      × IsUart u'
      × (to_read u' ≡ [])
      × IsAssembling a'
      × (pending a' ≡ [])
unfolding read_packet deserialize
read_packet_receives stack source output size u a v h k l w sent x clear =
    let (frame, sent', opened) = open_frame-serialize stack source output size v h k l in
    let same : frame ≡ to_read u = some_injective (sym sent' ∙ sent) in
    let whole : length (to_read u) ≡ frame_size =
      length-serialize stack source (to_read u) size v h k sent in
    let (u', run, w', none_left) =
      read_serial_fits (to_read u) buffer_size u [] w refl (omega (arith, whole))
        (omega (arith, whole)) in
    let (ra, e, kept, saw) = assemble_absorbs a (to_read u) x (omega (arith, whole)) in
    let (r, p) = on_complete ra output (to_read u) [] (
      saw
      ∙ ap (λ q. absorb q (to_read u)) clear
      ∙ rw
          (
            le→leb frame_size (length (to_read u)) (omega (arith, whole)),
            take_all frame_size (to_read u) (omega (arith, whole)),
            drop_all frame_size (to_read u) (omega (arith, whole)),
          )
          refl) in
    (u', ra.1, rw (run, whole, e, r, ← same, opened) refl, w', none_left, kept, p)
