-- ===== src/Robot/Hello/Greeted.antt =====
-- When `waitForHello` ends: with the first hello packet of the stream, however the serial line cuts it.
use cg2111a_final_project.Base.{
  ℕ, ◌≤◌, ◌≡◌, ◌≢◌, refl, ap, ◌∙◌, inl, inr, List, [], ◌∷◌, ◌++◌, append_assoc, some, ◌>>=◌, true,
  false, arith, if◌then◌else◌, Option, none, length, length-append, ltb, ltb→lt, ltb→le, ne→==,
  Bool-cases,
}
use cg2111a_final_project.Wire.Packet.{
  Packet, packet_size, bytes_of_packet, packet_of_bytes, packet_of_bytes-bytes_of_packet,
}
use cg2111a_final_project.Wire.Constants.PacketType
use cg2111a_final_project.Wire.Frame.{frame_size}
use cg2111a_final_project.Wire.Assemble.{Assembler, packet_ok, packet_incomplete}
use cg2111a_final_project.Wire.Assemble.Waiting.{pending, length-pending-lt}
use cg2111a_final_project.Wire.Deserialize.{open_frame}
use cg2111a_final_project.Wire.Deserialize.Framed.{
  frames_bytes, Framed, Framed-opened, length-Framed, taken,
}
use cg2111a_final_project.Uart.{Uart}
use cg2111a_final_project.Robot.{Event}
use cg2111a_final_project.Robot.Replies.{send_ok, send_bad_response}
use cg2111a_final_project.Robot.Hello.{Round, Waited, greet, wait_for_hello, answered}
use cg2111a_final_project.Robot.Hello.Rounds.{IsIdle, read_short, read_rest}

-- The bytes that arrive in the rounds, in order.
abbrev pub stream : List Round → List ℕ
stream [] = []
stream (r ∷ rs) = r.arrived ++ stream rs

-- No round brings more than the buffer of `readPacket` holds, and the local packet is a TPacket.
abbrev pub AllFit : List Round → Type 0
AllFit [] = Unit
AllFit (r ∷ rs) = (length r.arrived ≤ frame_size) × (length r.held ≡ packet_size) × AllFit rs

-- Once the frame of `p` is whole, at a round with `before` and `rs` still to come: the answer was given,
-- and the bytes that follow the frame wait or are still to arrive.
record Handled (p : Packet) (more : List ℕ) (rounds : List Round) (u : Uart) (a : Assembler)
    : Type 0 where
  before : Packet
  rs : List Round
  u' : Uart
  a' : Assembler
  idle : IsIdle u' a'
  fit : AllFit rs
  left : pending a' ++ stream rs ≡ more
  run : wait_for_hello rounds u a ≡ (
      let out = greet before packet_ok p in
      let on = wait_for_hello rs u' a' >>= answered out.1 in
      if out.0 then some (true, out.1, rs, u', a') else on)

answered_nil : (m : Option Waited) → (m >>= answered []) ≡ m
answered_nil none = refl
answered_nil (some w) = refl

greet_incomplete : (before p : Packet) → greet before packet_incomplete p ≡ (false, [])
unfolding greet
greet_incomplete before p = refl

handled :
    (rounds : List Round) (u : Uart) (a : Assembler) (p : Packet) (frame more : List ℕ)
    → IsIdle u a
    → AllFit rounds
    → Framed p frame
    → length frame ≡ frame_size
    → pending a ++ stream rounds ≡ frame ++ more
    → Handled p more rounds u a
unfolding wait_for_hello
handled [] u a p frame more i fit framed sized e = absurd (
    omega (
      arith,
      length-pending-lt a i.assembling,
      ap length e,
      length-append (pending a) [],
      length-append frame more,
      sized,
    ))
handled (r ∷ rs) u a p frame more i fit framed sized e =
    elim (Bool-cases (ltb (length (pending a ++ r.arrived)) frame_size)) [
      | inl short ↦
          let (u1, u2, a2, e1, e2, i2, p2) = read_short u a r.arrived r.held i (ltb→lt _ _ short) in
          let h =
            handled rs u2 a2 p frame more i2 fit.2 framed sized
              (ap (λ l. l ++ stream rs) p2 ∙ joined) in
          record {
            before = h.before;
            rs = h.rs;
            u' = h.u';
            a' = h.a';
            idle = h.idle;
            fit = h.fit;
            left = h.left;
            run =
                rw (e1, e2, greet_incomplete r.before (packet_of_bytes r.held))
                  (answered_nil (wait_for_hello rs u2 a2) ∙ h.run);
          }
      | inr full ↦
          let (front, back) =
            taken (pending a ++ r.arrived) (stream rs) frame more joined sized (ltb→le _ _ full) in
          let (u1, u2, a2, e1, e2, i2, p2) =
            read_rest u a r.arrived r.held (bytes_of_packet p) i fit.0
              (omega (
                arith,
                ltb→le _ _ full,
                length-append (pending a) r.arrived,
                length-pending-lt a i.assembling,
              ))
              (ltb→le _ _ full)
              (ap (λ f. open_frame f r.held) front ∙ Framed-opened p frame r.held framed fit.1) in
          record {
            before = r.before;
            rs = rs;
            u' = u2;
            a' = a2;
            idle = i2;
            fit = fit.2;
            left = ap (λ l. l ++ stream rs) p2 ∙ back;
            run = rw (e1, e2, packet_of_bytes-bytes_of_packet p framed.2) refl;
          }
    ]
  where
    joined : (pending a ++ r.arrived) ++ stream rs ≡ frame ++ more
    joined = append_assoc (pending a) r.arrived (stream rs) ∙ e

-- Each is a frame that `serialize` wrote, of a packet that is no greeting.
abbrev pub AllStrange : List (Packet × List ℕ) → Type 0
AllStrange [] = Unit
AllStrange ((p, frame) ∷ fs) = Framed p frame × (p.packet_type ≢ PacketType.hello) × AllStrange fs

-- One RESP_BAD_RESPONSE for each packet that is no greeting, and RESP_OK.
abbrev pub Answers : List (Packet × List ℕ) → List Event → Type 0
Answers [] es = (before : Packet) × (es ≡ send_ok before ∷ [])
Answers (f ∷ fs) es =
    (before : Packet) × (es' : List Event) × (es ≡ send_bad_response before ∷ es') × Answers fs es'

-- From a port in good order where no byte waits, and an assembler that satisfies its invariant: if the
-- pending bytes and those that arrive in the rounds, at most 140 in each, are the frames that `serialize`
-- wrote of any number of packets of other types, the frame of a hello packet, and any bytes after it,
-- however the rounds cut them, then `waitForHello` ends: it has sent RESP_BAD_RESPONSE once for
-- each of the other packets, and then RESP_OK. No byte waits at the port, and the bytes after the hello
-- packet are still pending or arrive in the rounds that it did not need.
pub wait_for_hello_ends :
    (fs : List (Packet × List ℕ)) (rounds : List Round) (u : Uart) (a : Assembler) (p : Packet)
    (frame more : List ℕ)
    → IsIdle u a
    → AllFit rounds
    → AllStrange fs
    → Framed p frame
    → p.packet_type ≡ PacketType.hello
    → pending a ++ stream rounds ≡ frames_bytes fs ++ (frame ++ more)
    → (es : List Event) × (rs : List Round) × (u' : Uart) × (a' : Assembler) × (wait_for_hello
          rounds u a
        ≡ some (true, es, rs, u', a'))
      × Answers fs es
      × IsIdle u' a'
      × (pending a' ++ stream rs ≡ more)
unfolding greet
wait_for_hello_ends [] rounds u a p frame more i fit strange framed hello e =
    let h = handled rounds u a p frame more i fit framed (length-Framed p frame framed) e in
    (
      send_ok h.before ∷ [],
      h.rs,
      h.u',
      h.a',
      h.run ∙ simp hello refl,
      (h.before, refl),
      h.idle,
      h.left,
    )
wait_for_hello_ends ((q, other) ∷ fs) rounds u a p frame more i fit strange framed hello e =
    let h =
      handled rounds u a q other (frames_bytes fs ++ (frame ++ more)) i fit strange.0
        (length-Framed q other strange.0)
        (e ∙ append_assoc other (frames_bytes fs) (frame ++ more)) in
    let (es, rs, u', a', run, replies, idle, left) =
      wait_for_hello_ends fs h.rs h.u' h.a' p frame more h.idle h.fit strange.2 framed hello
        h.left in
    (
      send_bad_response h.before ∷ es,
      rs,
      u',
      a',
      h.run ∙ simp (ne→== q.packet_type PacketType.hello strange.1, run) refl,
      (h.before, es, refl, replies),
      idle,
      left,
    )
