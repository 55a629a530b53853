-- ===== src/Robot/Hello/Rounds.antt =====
-- One round of `waitForHello`: the bytes that arrive join those that wait for the rest of their frame.
use cg2111a_final_project.Base.{
  ℕ, ◌+◌, ◌≤◌, ◌<◌, ◌≡◌, refl, sym, ap, ◌∙◌, List, [], ◌∷◌, ◌++◌, append-nil, append_assoc, some,
  ◌>>=◌, arith, length, length-append, take, drop, lt→ltb, if◌then◌else◌, ◌==◌, ne→==,
}
use cg2111a_final_project.Wire.Frame.{frame_size}
use cg2111a_final_project.Wire.Assemble.{Assembler, packet_ok, packet_incomplete}
use cg2111a_final_project.Wire.Assemble.Waiting.{IsAssembling, pending}
use cg2111a_final_project.Wire.Deserialize.{open_frame, deserialize}
use cg2111a_final_project.Wire.Deserialize.Framed.{deserialize_short, deserialize_rest}
use cg2111a_final_project.Uart.{Uart, buffer_size, rx_interrupt}
use cg2111a_final_project.Uart.Cbuffer.Queue.{write-push}
use cg2111a_final_project.Uart.Fifo.{IsUart, to_read}
use cg2111a_final_project.Robot.Port.{read_packet, read_serial_fits}
use cg2111a_final_project.Robot.Hello.{receive_all}

rx_interrupt_lem :
    (u : Uart) (b : ℕ)
    → IsUart u
    → length (to_read u) < 511
    → (u' : Uart) × (rx_interrupt u b ≡ some u') × IsUart u' × (to_read u' ≡ to_read u ++ b ∷ [])
unfolding rx_interrupt
rx_interrupt_lem u b v h =
    let (r, e, ring, same) = write-push buffer_size u.rx_buffer b v.rx_ring in
    (
      record u { rx_buffer = r.1 },
      rw e refl,
      record { rx_ring = ring; tx_ring = v.tx_ring; announced = v.announced },
      ap (λ p. p.1) same ∙ rw (lt→ltb (length (to_read u)) 511 h) refl,
    )

-- Bytes for which there is room all wait, in order.
receive_all_lem :
    (bs : List ℕ) (u : Uart)
    → IsUart u
    → length (to_read u) + length bs ≤ 511
    → (u' : Uart) × (receive_all u bs ≡ some u') × IsUart u' × (to_read u' ≡ to_read u ++ bs)
unfolding receive_all
receive_all_lem [] u v h = (u, refl, v, sym (append-nil (to_read u)))
receive_all_lem (b ∷ bs) u v h =
    let (u1, e1, v1, q1) = rx_interrupt_lem u b v (omega arith) in
    let (u2, e2, v2, q2) =
      receive_all_lem bs u1 v1 (omega (arith, ap length q1, length-append (to_read u) (b ∷ []))) in
    (u2, rw (e1, e2) refl, v2, q2 ∙ ap (λ q. q ++ bs) q1 ∙ append_assoc (to_read u) (b ∷ []) bs)

-- Between two rounds: the port and the assembler are in good order, and no byte waits at the port.
pub record IsIdle (u : Uart) (a : Assembler) : Type 0 where
  pub port : IsUart u
  pub clear : to_read u ≡ []
  pub assembling : IsAssembling a

-- The port after the bytes have arrived and were read.
abbrev Arrives : Uart → List ℕ → Type 0
Arrives u bs =
    (u1 : Uart) × (u2 : Uart) × (receive_all u bs ≡ some u1)
    × (IsUart u2)
    × (to_read u2 ≡ [])
    × ((a : Assembler) (held : List ℕ)
        → read_packet u1 a held ≡ (
            if length bs == 0
            then some (u2, (packet_incomplete, held, a))
            else (deserialize a bs held >>= λ out. some (u2, out))))

arrives :
    (u : Uart) (bs : List ℕ) → IsUart u → to_read u ≡ [] → length bs ≤ frame_size → Arrives u bs
unfolding read_packet
arrives u bs v clear h =
    let (u1, e1, v1, q1) = receive_all_lem bs u v (omega (arith, ap length clear)) in
    let waits : to_read u1 ≡ bs = q1 ∙ ap (λ q. q ++ bs) clear in
    let (u2, e2, v2, q2) =
      read_serial_fits bs buffer_size u1 [] v1 waits (omega (arith, h)) (omega (arith, h)) in
    (u1, u2, e1, v2, q2, λ a held. rw e2 refl)

-- Bytes that do not complete the frame wait for the rest.
pub read_short :
    (u : Uart) (a : Assembler) (bs held : List ℕ)
    → IsIdle u a
    → length (pending a ++ bs) < frame_size
    → (u1 : Uart) × (u2 : Uart) × (a2 : Assembler) × (receive_all u bs ≡ some u1)
      × (read_packet u1 a held ≡ some (u2, (packet_incomplete, held, a2)))
      × IsIdle u2 a2
      × (pending a2 ≡ pending a ++ bs)
read_short u a [] held i h =
    let (u1, u2, e1, v2, q2, e2) = arrives u [] i.port i.clear (omega arith) in
    (
      u1,
      u2,
      a,
      e1,
      e2 a held,
      record { port = v2; clear = q2; assembling = i.assembling },
      sym (append-nil (pending a)),
    )
read_short u a (b ∷ bs) held i h =
    let short : length (b ∷ bs) < frame_size = omega (arith, length-append (pending a) (b ∷ bs)) in
    let (u1, u2, e1, v2, q2, e2) = arrives u (b ∷ bs) i.port i.clear (omega arith) in
    let (a2, e, kept, p) = deserialize_short a (b ∷ bs) held i.assembling h in
    (
      u1,
      u2,
      a2,
      e1,
      e2 a held ∙ rw (ne→== (length (b ∷ bs)) 0 (λ k. cc), e) refl,
      record { port = v2; clear = q2; assembling = kept },
      p,
    )

-- Bytes that complete the frame: it is opened, and what follows it waits.
pub read_rest :
    (u : Uart) (a : Assembler) (bs held bytes : List ℕ)
    → IsIdle u a
    → length bs ≤ frame_size
    → 0 < length bs
    → frame_size ≤ length (pending a ++ bs)
    → open_frame (take frame_size (pending a ++ bs)) held ≡ some (packet_ok, bytes)
    → (u1 : Uart) × (u2 : Uart) × (a2 : Assembler) × (receive_all u bs ≡ some u1)
      × (read_packet u1 a held ≡ some (u2, (packet_ok, bytes, a2)))
      × IsIdle u2 a2
      × (pending a2 ≡ drop frame_size (pending a ++ bs))
read_rest u a bs held bytes i h some_arrived full opened =
    let (u1, u2, e1, v2, q2, e2) = arrives u bs i.port i.clear h in
    let (a2, e, kept, p) = deserialize_rest a bs held bytes i.assembling h full opened in
    (
      u1,
      u2,
      a2,
      e1,
      e2 a held ∙ rw (ne→== (length bs) 0 (λ k. omega arith), e) refl,
      record { port = v2; clear = q2; assembling = kept },
      p,
    )
