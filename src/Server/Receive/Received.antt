-- ===== src/Server/Receive/Received.antt =====
-- A packet of the Arduino in the receiving thread of the Pi, however its frame is cut into reads.
use cg2111a_final_project.Base.{
  ℕ, ◌≤◌, ◌<◌, ◌≡◌, refl, sym, ap, ◌∙◌, inl, inr, List, [], ◌∷◌, ◌++◌, append_assoc, append-nil,
  Option, none, some, ◌>>=◌, arith, length, length-append, take, drop, ltb, ltb→lt, ltb→le, false,
  Bool-cases,
}
use cg2111a_final_project.Wire.Packet.{
  Packet, packet_size, bytes_of_packet, packet_of_bytes-bytes_of_packet, length-bytes_of_packet,
}
use cg2111a_final_project.Wire.Frame.{frame_size}
use cg2111a_final_project.Wire.Assemble.Waiting.{IsAssembling, pending, length-pending-lt}
use cg2111a_final_project.Wire.Deserialize.{open_frame}
use cg2111a_final_project.Wire.Deserialize.Framed.{
  Framed, Framed-opened, length-Framed, AllFramed, frames_bytes, taken, deserialize_short,
  deserialize_rest,
}
use cg2111a_final_project.Server.{Server, Event, Outcome}
use cg2111a_final_project.Server.Uart.{handle_uart_packet}
use cg2111a_final_project.Server.Threads.{
  SerialRead, received, failed, Receiver, on_packet, uart_receive,
}
use cg2111a_final_project.Server.Receive.{Reading, Received, after, uart_receive_all}

-- The bytes of a read; a failed one has none.
abbrev pub got : SerialRead → List ℕ
got (received bs) = bs
got failed = []

-- The bytes of all the rounds, in order.
abbrev pub stream : List Reading → List ℕ
stream [] = []
stream (t ∷ ts) = got t.read ++ stream ts

-- No read has more bytes than the local buffer.
abbrev pub AllFit : List Reading → Type 0
AllFit [] = Unit
AllFit (t ∷ ts) = (length (got t.read) ≤ frame_size) × AllFit ts

-- Rounds that do nothing and leave the shared variables as they were.
abbrev pub quiet : List Reading → List (Server × List Event)
quiet [] = []
quiet (t ∷ ts) = (t.server, []) ∷ quiet ts

-- Between two rounds.
pub record IsReceiver (rx : Receiver) : Type 0 where
  pub assembling : IsAssembling rx.assembler
  pub sized : length rx.packet ≡ packet_size

fits : (bs : List ℕ) → length bs ≤ frame_size → ltb frame_size (length bs) ≡ false
fits bs h = ground arith

-- A round without a whole frame keeps its bytes.
receive_short :
    (s : Server) (o : Outcome) (read : SerialRead) (rx : Receiver)
    → IsReceiver rx
    → length (pending rx.assembler ++ got read) < frame_size
    → (rx' : Receiver) × (uart_receive s o rx read ≡ some (s, rx', []))
      × IsReceiver rx'
      × (pending rx'.assembler ≡ pending rx.assembler ++ got read)
unfolding uart_receive on_packet
receive_short s o failed rx v h = (rx, refl, v, sym (append-nil (pending rx.assembler)))
receive_short s o (received []) rx v h = (rx, refl, v, sym (append-nil (pending rx.assembler)))
receive_short s o (received (b ∷ bs)) rx v h =
    let (a, e, kept, p) = deserialize_short rx.assembler (b ∷ bs) rx.packet v.assembling h in
    (
      record { assembler = a; packet = rx.packet },
      rw (fits (b ∷ bs) (omega (arith, length-append (pending rx.assembler) (b ∷ bs))), e) refl,
      record { assembling = kept; sized = v.sized },
      p,
    )

-- A round that completes the frame of a packet handles the packet.
receive_rest :
    (s : Server) (o : Outcome) (read : SerialRead) (rx : Receiver) (p : Packet) (frame : List ℕ)
    → IsReceiver rx
    → Framed p frame
    → length (got read) ≤ frame_size
    → frame_size ≤ length (pending rx.assembler ++ got read)
    → take frame_size (pending rx.assembler ++ got read) ≡ frame
    → (rx' : Receiver) × (uart_receive s o rx read
        ≡ (let out = handle_uart_packet s o p in some (out.0, rx', out.1)))
      × IsReceiver rx'
      × (pending rx'.assembler ≡ drop frame_size (pending rx.assembler ++ got read))
unfolding uart_receive on_packet
receive_rest s o failed rx p frame v framed fit h e = absurd (
    omega
      (arith, length-pending-lt rx.assembler v.assembling, length-append (pending rx.assembler) []))
receive_rest s o (received []) rx p frame v framed fit h e = absurd (
    omega
      (arith, length-pending-lt rx.assembler v.assembling, length-append (pending rx.assembler) []))
receive_rest s o (received (b ∷ bs)) rx p frame v framed fit h e =
    let (a, done, kept, w) =
      deserialize_rest rx.assembler (b ∷ bs) rx.packet (bytes_of_packet p) v.assembling fit h
        (ap (λ l. open_frame l rx.packet) e ∙ Framed-opened p frame rx.packet framed v.sized) in
    (
      record { assembler = a; packet = bytes_of_packet p },
      rw (fits (b ∷ bs) fit, done, packet_of_bytes-bytes_of_packet p framed.2) refl,
      record { assembling = kept; sized = length-bytes_of_packet p framed.2 },
      w,
    )

-- The rounds `front ++ turn ∷ ts`, where the packet is handled once, in `turn`: before it the thread
-- does nothing, and after it `rx'` and `ts` are as `Next` says.
abbrev pub PacketHandled :
    Packet → List Reading → Receiver → (List Reading → Receiver → Type 0) → Type 0
PacketHandled p turns rx Next =
    (front : List Reading) × (turn : Reading) × (ts : List Reading) × (rx' : Receiver) × (turns
      ≡ front ++ turn ∷ ts)
    × (uart_receive_all turns rx ≡ (
        uart_receive_all ts rx'
        >>= after (quiet front ++ handle_uart_packet turn.server turn.outcome p ∷ [])))
    × Next ts rx'

-- The bytes `more` are what waits and what is still to be read.
abbrev pub Remains : List ℕ → List Reading → Receiver → Type 0
Remains more ts rx = IsReceiver rx × AllFit ts × (pending rx.assembler ++ stream ts ≡ more)

-- The packets are handled, each once and in order.
abbrev pub AllHandled : List (Packet × List ℕ) → List ℕ → List Reading → Receiver → Type 0
AllHandled [] more turns rx = Remains more turns rx
AllHandled ((p, frame) ∷ fs) more turns rx = PacketHandled p turns rx (AllHandled fs more)

after_after :
    (m : Option Received) (outs outs' : List (Server × List Event))
    → ((m >>= after outs') >>= after outs) ≡ (m >>= after (outs ++ outs'))
after_after none outs outs' = refl
after_after (some (rx, outs'')) outs outs' =
    ap (λ l. some (rx, l)) (sym (append_assoc outs outs' outs''))

-- One packet.
handles :
    (turns : List Reading) (rx : Receiver) (p : Packet) (frame more : List ℕ)
    → IsReceiver rx
    → AllFit turns
    → Framed p frame
    → pending rx.assembler ++ stream turns ≡ frame ++ more
    → PacketHandled p turns rx (Remains more)
unfolding uart_receive_all
handles [] rx p frame more v fit framed e = absurd (
    omega (
      arith,
      length-pending-lt rx.assembler v.assembling,
      ap length e,
      length-append (pending rx.assembler) [],
      length-append frame more,
      length-Framed p frame framed,
    ))
handles (t ∷ ts) rx p frame more v fit framed e =
    elim (Bool-cases (ltb (length (pending rx.assembler ++ got t.read)) frame_size)) [
      | inl short ↦
          let (rx', run, v', w) = receive_short t.server t.outcome t.read rx v (ltb→lt _ _ short) in
          let (front, turn, rest, rx'', split, runs, next) =
            handles ts rx' p frame more v' fit.1 framed (ap (λ l. l ++ stream ts) w ∙ joined) in
          (
            t ∷ front,
            turn,
            rest,
            rx'',
            ap (λ l. t ∷ l) split,
            rw (run, runs)
                (after_after (uart_receive_all rest rx'') ((t.server, []) ∷ [])
                  (quiet front ++ handle_uart_packet turn.server turn.outcome p ∷ [])),
            next,
          )
      | inr full ↦
          let (front, back) =
            taken (pending rx.assembler ++ got t.read) (stream ts) frame more joined
              (length-Framed p frame framed) (ltb→le _ _ full) in
          let (rx', run, v', w) =
            receive_rest t.server t.outcome t.read rx p frame v framed fit.0 (ltb→le _ _ full)
              front in
          ([], t, ts, rx', refl, rw run refl, (v', fit.1, ap (λ l. l ++ stream ts) w ∙ back))
    ]
  where
    joined : (pending rx.assembler ++ got t.read) ++ stream ts ≡ frame ++ more
    joined = append_assoc (pending rx.assembler) (got t.read) (stream ts) ∙ e

-- Frames of the Arduino, one behind the other, reach the receiving thread of the Pi, cut into reads
-- anywhere, with empty and failed reads among them and none longer than the local buffer, while the
-- other threads change the shared variables between the rounds. The thread handles each packet once and
-- in order, in the round in which its frame is whole, and does nothing in the rounds between; what
-- follows the frames waits or is still to be read.
pub uart_receive_all_handles :
    (fs : List (Packet × List ℕ)) (turns : List Reading) (rx : Receiver) (more : List ℕ)
    → IsReceiver rx
    → AllFit turns
    → AllFramed fs
    → pending rx.assembler ++ stream turns ≡ frames_bytes fs ++ more
    → AllHandled fs more turns rx
uart_receive_all_handles [] turns rx more v fit framed e = (v, fit, e)
uart_receive_all_handles ((p, frame) ∷ fs) turns rx more v fit framed e =
    let (front, turn, ts, rx', split, run, (v', fit', left)) =
      handles turns rx p frame (frames_bytes fs ++ more) v fit framed.0
        (e ∙ append_assoc frame (frames_bytes fs) more) in
    (
      front,
      turn,
      ts,
      rx',
      split,
      run,
      uart_receive_all_handles fs ts rx' more v' fit' framed.1 left,
    )
