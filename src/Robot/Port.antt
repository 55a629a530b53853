-- ===== src/Robot/Port.antt =====
-- `readSerial` and `readPacket` of Alex-a.ino over the serial port of uart.cpp.
use cg2111a_final_project.Base.{
  ℕ, zero, suc, ◌+◌, ◌≤◌, ◌<◌, ◌≡◌, refl, sym, ap, ◌∙◌, inl, inr, List, [], ◌∷◌, ◌++◌, append-nil,
  append_assoc, Option, none, some, ◌>>=◌, true, false, not, ◌==◌, if◌then◌else◌, leb, length,
  arith, lt→leb, length-snoc, ne→==, Bool-cases, leb→le, leb→lt,
}
use cg2111a_final_project.Wire.Frame.{frame_size}
use cg2111a_final_project.Uart.Cbuffer.Index.{length-collect}
use cg2111a_final_project.Uart.Cbuffer.Count.{count_cases}
use cg2111a_final_project.Wire.Assemble.{Result, packet_incomplete, Assembler}
use cg2111a_final_project.Wire.Deserialize.{deserialize}
use cg2111a_final_project.Uart.{Uart, buffer_size, read, available}
use cg2111a_final_project.Uart.Cbuffer.{contents, count}
use cg2111a_final_project.Uart.Cbuffer.Queue.{pop, read-pop, is_empty-contents}
use cg2111a_final_project.Uart.Fifo.{IsUart, to_read}

-- `readSerial(buffer)` with `fuel` rounds allowed and the bytes `got` in the buffer, where no byte
-- arrives while it runs; `none` is a write past the end of the buffer's PACKET_SIZE bytes, or the end of
-- the fuel.
unfoldable pub read_serial : ℕ → Uart → List ℕ → Option (List ℕ × Uart)
read_serial zero u got = none
read_serial (suc fuel) u got =
    if available u
    then (if leb frame_size (length got)
        then none
        else (read u >>= λ (b, u'). read_serial fuel u' (got ++ b ∷ [])))
    else some (got, u)

-- `readPacket(packet)`: the result, the bytes of the packet, and the new state.
unfoldable pub read_packet :
    Uart → Assembler → List ℕ → Option (Uart × (Result × List ℕ × Assembler))
unfolding read_serial
read_packet u a packet = read_serial buffer_size u [] >>= λ (got, u').
    if length got == 0
    then some (u', (packet_incomplete, packet, a))
    else (deserialize a got packet >>= λ out. some (u', out))

available_none : (u : Uart) → IsUart u → to_read u ≡ [] → available u ≡ false
unfolding available
available_none u v e =
    ap not (is_empty-contents buffer_size u.rx_buffer v.rx_ring ∙ ap (λ l. length l == 0) e)

available_some : (u : Uart) (x : ℕ) (q : List ℕ) → IsUart u → to_read u ≡ x ∷ q → available u ≡ true
unfolding available
available_some u x q v e = ap not (
    is_empty-contents buffer_size u.rx_buffer v.rx_ring
    ∙ ap (λ l. length l == 0) e
    ∙ ne→== (suc (length q)) 0 (λ h. cc))

read_lem :
    (u : Uart) (x : ℕ) (q : List ℕ)
    → IsUart u
    → to_read u ≡ x ∷ q
    → (u' : Uart) × (read u ≡ some (x, u')) × IsUart u' × (to_read u' ≡ q)
unfolding read
read_lem u x q v e =
    let (r, run, ring, same) = read-pop buffer_size u.rx_buffer v.rx_ring in
    let popped : (r.0, contents buffer_size r.1) ≡ (some x, q) = same ∙ ap pop e in
    (
      record u { rx_buffer = r.1 },
      rw (run, ap (λ p. p.0) popped) refl,
      record { rx_ring = ring; tx_ring = v.tx_ring; announced = v.announced },
      ap (λ p. p.1) popped,
    )

-- The bytes that wait are taken in order, if they fit behind those that were taken.
pub read_serial_fits :
    (q : List ℕ) (fuel : ℕ) (u : Uart) (got : List ℕ)
    → IsUart u
    → to_read u ≡ q
    → length q < fuel
    → length got + length q ≤ frame_size
    → (u' : Uart) × (read_serial fuel u got ≡ some (got ++ q, u')) × IsUart u' × (to_read u' ≡ [])
unfolding read_serial
read_serial_fits q zero u got v e h k = absurd (omega (arith, h))
read_serial_fits [] (suc fuel) u got v e h k =
    (u, rw (available_none u v e) (ap (λ l. some (l, u)) (sym (append-nil got))), v, e)
read_serial_fits (x ∷ q) (suc fuel) u got v e h k =
    let (u1, run, v1, e1) = read_lem u x q v e in
    let (u2, run2, v2, e2) =
      read_serial_fits q fuel u1 (got ++ x ∷ []) v1 e1 (omega (arith, h))
        (omega (arith, k, length-snoc got x)) in
    (
      u2,
      rw (
        available_some u x q v e,
        lt→leb frame_size (length got) (omega (arith, k)),
        run,
        run2,
        append_assoc got (x ∷ []) q,
      ),
      v2,
      e2,
    )

-- More bytes than fit run over the end of the buffer.
read_serial_overflows :
    (q : List ℕ) (fuel : ℕ) (u : Uart) (got : List ℕ)
    → IsUart u
    → to_read u ≡ q
    → length got ≤ frame_size
    → frame_size < length got + length q
    → read_serial fuel u got ≡ none
unfolding read_serial
read_serial_overflows q zero u got v e h k = refl
read_serial_overflows [] (suc fuel) u got v e h k = absurd (omega (arith, h, k))
read_serial_overflows (x ∷ q) (suc fuel) u got v e h k =
    let (u1, run, v1, e1) = read_lem u x q v e in
    elim (Bool-cases (leb frame_size (length got))) [
      | inl full ↦ rw (available_some u x q v e, full) refl
      | inr room ↦
          rw
            (
              available_some u x q v e,
              room,
              run,
              read_serial_overflows q fuel u1 (got ++ x ∷ []) v1 e1
                  (omega (arith, leb→lt frame_size (length got) room, length-snoc got x))
                  (omega (arith, k, length-snoc got x)),
            )
            refl
    ]

waiting_bound : (u : Uart) → IsUart u → length (to_read u) < 512
waiting_bound u v = omega (
  arith,
  length-collect buffer_size u.rx_buffer.array u.rx_buffer.tail (count buffer_size u.rx_buffer),
  (count_cases buffer_size u.rx_buffer v.rx_ring).0,
)

-- The bytes taken, and those that still wait.
abbrev pub remaining : Option (List ℕ × Uart) → Option (List ℕ × List ℕ)
remaining none = none
remaining (some (got, u)) = some (got, to_read u)

-- From a port in good order, with up to PACKET_SIZE bytes waiting `readSerial` takes them all, in order,
-- and none waits any longer; with more, it writes past the end of its buffer. The 512 rounds allowed are
-- enough for all that the port's buffer can hold.
pub read_serial_total :
    (u : Uart)
    → IsUart u
    → remaining (read_serial buffer_size u [])
      ≡ (if leb (length (to_read u)) frame_size then some (to_read u, []) else none)
read_serial_total u v = elim (Bool-cases (leb (length (to_read u)) frame_size)) [
  | inl fits ↦
      let (u', run, v', e) =
        read_serial_fits (to_read u) buffer_size u [] v refl (waiting_bound u v)
          (omega (arith, leb→le _ _ fits)) in
      rw (fits, run) (ap (λ l. some (to_read u, l)) e)
  | inr over ↦
      rw
        (
          over,
          read_serial_overflows (to_read u) buffer_size u [] v refl (omega arith)
              (omega (arith, leb→lt _ _ over)),
        )
        refl
]
