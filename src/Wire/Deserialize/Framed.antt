-- ===== src/Wire/Deserialize/Framed.antt =====
-- A frame that `serialize` wrote, in a stream of bytes that is cut anywhere.
use cg2111a_final_project.Base.{
  ℕ, ◌≤◌, ◌<◌, ◌≡◌, refl, sym, ap, ◌∙◌, List, [], ◌∷◌, ◌++◌, some, arith, length, length-append,
  take, drop, take-append_left, drop-append_left, take-append, drop-append, some_injective, lt→leb,
  le→leb,
}
use cg2111a_final_project.Wire.Packet.{
  Packet, IsPacket, packet_size, bytes_of_packet, length-bytes_of_packet,
}
use cg2111a_final_project.Wire.Frame.{Comms, IsComms, frame_size, serialize}
use cg2111a_final_project.Wire.Frame.Encode.{length-serialize}
use cg2111a_final_project.Wire.Assemble.{Assembler, packet_ok, packet_incomplete}
use cg2111a_final_project.Wire.Assemble.Waiting.{IsAssembling, pending}
use cg2111a_final_project.Wire.Assemble.Stream.{assemble_absorbs}
use cg2111a_final_project.Wire.Deserialize.{open_frame, deserialize}
use cg2111a_final_project.Wire.Deserialize.Split.{on_complete, on_incomplete}
use cg2111a_final_project.Wire.Deserialize.PacketFrame.{packet_frame}

-- A frame that `serialize` wrote of a packet.
abbrev pub Framed : Packet → List ℕ → Type 0
Framed p frame =
    (stack : Comms) × IsComms stack
    × IsPacket p
    × (serialize stack (bytes_of_packet p) packet_size ≡ some frame)

-- Packets and their frames.
abbrev pub frames_bytes : List (Packet × List ℕ) → List ℕ
frames_bytes [] = []
frames_bytes ((p, frame) ∷ fs) = frame ++ frames_bytes fs

abbrev pub AllFramed : List (Packet × List ℕ) → Type 0
AllFramed [] = Unit
AllFramed ((p, frame) ∷ fs) = Framed p frame × AllFramed fs

-- The frame and what follows it, in the bytes that have arrived.
pub taken :
    (all later frame more : List ℕ)
    → all ++ later ≡ frame ++ more
    → length frame ≡ frame_size
    → frame_size ≤ length all
    → (take frame_size all ≡ frame) × (drop frame_size all ++ later ≡ more)
taken all later frame more e sized h = (
  sym (take-append_left frame_size all later h)
      ∙ ap (take frame_size) e
      ∙ take-append frame more frame_size (sym sized),
  sym (drop-append_left frame_size all later h)
      ∙ ap (drop frame_size) e
      ∙ drop-append frame more frame_size (sym sized),
)

-- The frame is opened as its packet, whatever the local packet held.
pub Framed-opened :
    (p : Packet) (frame held : List ℕ)
    → Framed p frame
    → length held ≡ packet_size
    → open_frame frame held ≡ some (packet_ok, bytes_of_packet p)
Framed-opened p frame held (stack, v, w, sent) l =
    let (frame', sent', sized, opened) = packet_frame stack p held v w l in
    let same : frame' ≡ frame = some_injective (sym sent' ∙ sent) in
    sym (ap (λ f. open_frame f held) same) ∙ opened

pub length-Framed : (p : Packet) (frame : List ℕ) → Framed p frame → length frame ≡ frame_size
length-Framed p frame (stack, v, w, sent) =
    length-serialize stack (bytes_of_packet p) frame packet_size v (omega arith)
      (omega (arith, length-bytes_of_packet p w)) sent

-- Bytes that do not complete a frame wait for the rest.
pub deserialize_short :
    (a : Assembler) (bs held : List ℕ)
    → IsAssembling a
    → length (pending a ++ bs) < frame_size
    → (a2 : Assembler) × (deserialize a bs held ≡ some (packet_incomplete, held, a2))
      × IsAssembling a2
      × (pending a2 ≡ pending a ++ bs)
unfolding deserialize
deserialize_short a bs held v h =
    let (ra, e, kept, saw) =
      assemble_absorbs a bs v (omega (arith, length-append (pending a) bs)) in
    let (r, p) =
      on_incomplete ra held (pending a ++ bs)
        (saw ∙ rw (lt→leb frame_size (length (pending a ++ bs)) h)) in
    (ra.1, rw (e, r) refl, kept, p)

-- Bytes that complete a frame: it is opened, and what follows it waits.
pub deserialize_rest :
    (a : Assembler) (bs held bytes : List ℕ)
    → IsAssembling a
    → length bs ≤ frame_size
    → frame_size ≤ length (pending a ++ bs)
    → open_frame (take frame_size (pending a ++ bs)) held ≡ some (packet_ok, bytes)
    → (a2 : Assembler) × (deserialize a bs held ≡ some (packet_ok, bytes, a2))
      × IsAssembling a2
      × (pending a2 ≡ drop frame_size (pending a ++ bs))
unfolding deserialize
deserialize_rest a bs held bytes v h full opened =
    let (ra, e, kept, saw) = assemble_absorbs a bs v h in
    let (r, p) =
      on_complete ra held (take frame_size (pending a ++ bs)) (drop frame_size (pending a ++ bs))
        (saw ∙ rw (le→leb frame_size (length (pending a ++ bs)) full)) in
    (ra.1, rw (e, r, opened) refl, kept, p)
