-- ===== src/Robot/Serve/Served.antt =====
-- A packet of the Pi in the loop of the robot, however the serial line cuts its frame.
use cg2111a_final_project.Base.{
  ℕ, ◌≡◌, refl, ap, ◌∙◌, inl, inr, List, [], ◌∷◌, ◌++◌, append_assoc, Option, none, some, ◌>>=◌,
  arith, length, length-append, ltb, ltb→lt, ltb→le, Bool-cases,
}
use cg2111a_final_project.Wire.Packet.{
  Packet, bytes_of_packet, packet_of_bytes, packet_of_bytes-bytes_of_packet,
}
use cg2111a_final_project.Wire.Frame.{frame_size}
use cg2111a_final_project.Wire.Assemble.{Assembler, packet_ok, packet_incomplete}
use cg2111a_final_project.Wire.Assemble.Waiting.{pending, length-pending-lt}
use cg2111a_final_project.Wire.Deserialize.{open_frame}
use cg2111a_final_project.Wire.Deserialize.Framed.{Framed, Framed-opened, length-Framed, taken}
use cg2111a_final_project.Uart.{Uart}
use cg2111a_final_project.Robot.{Floats, Robot}
use cg2111a_final_project.Robot.Encoders.{supervise}
use cg2111a_final_project.Robot.Commands.{Input, loop, on_packet}
use cg2111a_final_project.Robot.Hello.{Round}
use cg2111a_final_project.Robot.Hello.Rounds.{IsIdle, read_short, read_rest}
use cg2111a_final_project.Robot.Hello.Greeted.{AllFit, stream}
use cg2111a_final_project.Robot.Serve.{Turn, Progress, preceded, serve}

abbrev pub rounds_of : List Turn → List Round
rounds_of [] = []
rounds_of (t ∷ ts) = t.round ∷ rounds_of ts

-- What `loop` does in turns in which no packet is complete.
abbrev pub supervised : Floats → List Turn → Robot → Robot
supervised f [] r = r
supervised f (t ∷ ts) r = supervised f ts (supervise f r)

-- Once the frame of `p` is whole, at `turn` after the turns `front`: the packet has been handled, and
-- the bytes that follow the frame wait or are still to arrive in the turns `ts`.
pub record Served (f : Floats) (p : Packet) (more : List ℕ) (turns : List Turn) (r : Robot)
    (u : Uart) (a : Assembler) : Type 0 where
  pub front : List Turn
  pub turn : Turn
  pub ts : List Turn
  pub u' : Uart
  pub a' : Assembler
  pub split : turns ≡ front ++ turn ∷ ts
  pub idle : IsIdle u' a'
  pub fit : AllFit (rounds_of ts)
  pub left : pending a' ++ stream (rounds_of ts) ≡ more
  pub run : serve f turns r u a ≡ (
      let out = loop f turn.input (supervised f front r) packet_ok p in
      serve f ts out.0 u' a' >>= preceded out.1)

preceded_nil : (m : Option Progress) → (m >>= preceded []) ≡ m
preceded_nil none = refl
preceded_nil (some w) = refl

loop_incomplete :
    (f : Floats) (i : Input) (r : Robot) (p : Packet)
    → loop f i r packet_incomplete p ≡ (supervise f r, [])
unfolding loop on_packet
loop_incomplete f i r p = refl

pub served :
    (f : Floats) (turns : List Turn) (r : Robot) (u : Uart) (a : Assembler) (p : Packet)
    (frame more : List ℕ)
    → IsIdle u a
    → AllFit (rounds_of turns)
    → Framed p frame
    → pending a ++ stream (rounds_of turns) ≡ frame ++ more
    → Served f p more turns r u a
unfolding serve
served f [] r u a p frame more i fit framed e = absurd (
    omega (
      arith,
      length-pending-lt a i.assembling,
      ap length e,
      length-append (pending a) [],
      length-append frame more,
      length-Framed p frame framed,
    ))
served f (t ∷ ts) r u a p frame more i fit framed e =
    elim (Bool-cases (ltb (length (pending a ++ t.round.arrived)) frame_size)) [
      | inl short ↦
          let (u1, u2, a2, e1, e2, i2, p2) =
            read_short u a t.round.arrived t.round.held i (ltb→lt _ _ short) in
          let h =
            served f ts (supervise f r) u2 a2 p frame more i2 fit.2 framed
              (ap (λ l. l ++ stream (rounds_of ts)) p2 ∙ joined) in
          record {
            front = t ∷ h.front;
            turn = h.turn;
            ts = h.ts;
            u' = h.u';
            a' = h.a';
            split = ap (λ l. t ∷ l) h.split;
            idle = h.idle;
            fit = h.fit;
            left = h.left;
            run =
                rw (e1, e2, loop_incomplete f t.input r (packet_of_bytes t.round.held))
                  (preceded_nil (serve f ts (supervise f r) u2 a2) ∙ h.run);
          }
      | inr full ↦
          let (front, back) =
            taken (pending a ++ t.round.arrived) (stream (rounds_of ts)) frame more joined
              (length-Framed p frame framed) (ltb→le _ _ full) in
          let (u1, u2, a2, e1, e2, i2, p2) =
            read_rest u a t.round.arrived t.round.held (bytes_of_packet p) i fit.0
              (omega (
                arith,
                ltb→le _ _ full,
                length-append (pending a) t.round.arrived,
                length-pending-lt a i.assembling,
              ))
              (ltb→le _ _ full)
              (ap (λ l. open_frame l t.round.held) front
                ∙ Framed-opened p frame t.round.held framed fit.1) in
          record {
            front = [];
            turn = t;
            ts = ts;
            u' = u2;
            a' = a2;
            split = refl;
            idle = i2;
            fit = fit.2;
            left = ap (λ l. l ++ stream (rounds_of ts)) p2 ∙ back;
            run = rw (e1, e2, packet_of_bytes-bytes_of_packet p framed.2) refl;
          }
    ]
  where
    joined : (pending a ++ t.round.arrived) ++ stream (rounds_of ts) ≡ frame ++ more
    joined = append_assoc (pending a) t.round.arrived (stream (rounds_of ts)) ∙ e
