-- ===== src/Robot/Send.antt =====
-- `sendResponse` and `writeSerial` of Alex-a.ino over the serial port.
use cg2111a_final_project.Base.{
  ℕ, suc, ◌+◌, ◌≤◌, ◌≡◌, refl, ap, subst, List, [], ◌∷◌, ◌++◌, Option, some, ◌>>=◌, Bool, true,
  arith, length,
}
use cg2111a_final_project.Base.Switch.{OnSome, of_OnSome}
use cg2111a_final_project.Wire.Packet.{Packet, IsPacket, packet_size, bytes_of_packet}
use cg2111a_final_project.Wire.Frame.{Comms, IsComms, serialize}
use cg2111a_final_project.Wire.Assemble.{packet_ok}
use cg2111a_final_project.Wire.Deserialize.{open_frame}
use cg2111a_final_project.Wire.Deserialize.PacketFrame.{packet_frame}
use cg2111a_final_project.Uart.{Uart, Slot, write_all}
use cg2111a_final_project.Uart.Fifo.{IsUart, to_send}
use cg2111a_final_project.Uart.Arrays.{bytes_of, undisturbed, write_all_fits}

-- What the hardware does while an array is written, by the index of the byte: how many interrupts come
-- before it, the flag UDRE0, and whether an interrupt comes between the two assignments of
-- `CBuffer::write` for the byte.
pub record Hardware : Type 0 where
  pub before : ℕ → ℕ
  pub udre0 : ℕ → Bool
  pub inside : ℕ → Bool

abbrev pub slots : Hardware → ℕ → List ℕ → List Slot
slots hw i [] = []
slots hw i (b ∷ bs) =
    record { before = hw.before i; udre0 = hw.udre0 i; inside = hw.inside i; ch = b }
    ∷ slots hw (i + 1) bs

bytes_of-slots : (hw : Hardware) (i : ℕ) (bs : List ℕ) → bytes_of (slots hw i bs) ≡ bs
bytes_of-slots hw i [] = refl
bytes_of-slots hw i (b ∷ bs) = ap (λ l. b ∷ l) (bytes_of-slots hw (i + 1) bs)

length-slots : (hw : Hardware) (i : ℕ) (bs : List ℕ) → length (slots hw i bs) ≡ length bs
length-slots hw i [] = refl
length-slots hw i (b ∷ bs) = ap suc (length-slots hw (i + 1) bs)

-- `sendResponse(packet)`: the port afterwards, and what has gone out. `stack` holds what the local
-- variable of `serialize` held before.
unfoldable pub send_response : Comms → Uart → Hardware → Packet → Option (Uart × List ℕ)
send_response stack u hw p =
    serialize stack (bytes_of_packet p) packet_size >>= λ frame. write_all u (slots hw 0 frame)

-- While the frame is written, no interrupt comes between the two assignments of `CBuffer::write` at an
-- empty buffer.
abbrev pub Undisturbed : Comms → Uart → Hardware → Packet → Type 0
Undisturbed stack u hw p =
    OnSome (λ (frame : List ℕ). undisturbed u (slots hw 0 frame) ≡ true)
      (serialize stack (bytes_of_packet p) packet_size)

-- At a port in good order with at most 371 bytes waiting, with any number of interrupts of the transmitter
-- before each byte is written and at most one between the two assignments of `CBuffer::write`, but none
-- there when the buffer is empty: `sendResponse` sends the whole packet. One frame has gone out or waits, in order, behind
-- the bytes that waited before, and it is opened as PACKET_OK and that packet.
pub send_response_sends :
    (stack : Comms) (u : Uart) (hw : Hardware) (p : Packet) (output : List ℕ)
    → IsComms stack
    → IsPacket p
    → IsUart u
    → length (to_send u) ≤ 371
    → length output ≡ packet_size
    → Undisturbed stack u hw p
    → (frame : List ℕ) × (u' : Uart) × (out : List ℕ) × (send_response stack u hw p
        ≡ some (u', out))
      × IsUart u'
      × (to_send u ++ frame ≡ out ++ to_send u')
      × (open_frame frame output ≡ some (packet_ok, bytes_of_packet p))
unfolding send_response
send_response_sends stack u hw p output v w x h l calm =
    let (frame, sent, sized, opened) = packet_frame stack p output v w l in
    let (u', out, written, x', order) =
      write_all_fits (slots hw 0 frame) u x (omega (arith, h, sized, length-slots hw 0 frame))
        (of_OnSome (λ (f : List ℕ). undisturbed u (slots hw 0 f) ≡ true) calm sent) in
    (
      frame,
      u',
      out,
      rw (sent, written) refl,
      x',
      subst (λ bs. to_send u ++ bs ≡ out ++ to_send u') (bytes_of-slots hw 0 frame) order,
      opened,
    )
