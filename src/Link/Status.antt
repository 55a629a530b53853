-- ===== src/Link/Status.antt =====
-- COMMAND_GET_STATS, from the robot's counters to the client's screen.
use cg2111a_final_project.Base.{
  ℕ, ◌≡◌, refl, sym, ap, subst, ◌∙◌, List, [], ◌∷◌, ◌++◌, some, ◌>>=◌, true, arith, length,
  length-append, take, drop, take-append, append-nil, slice?, le→leb,
}
use cg2111a_final_project.Wire.Packet.{
  Packet, words_bytes, words_of_bytes, length-words_bytes, words_of_bytes-words_bytes, n_params,
  AllWords,
}
use cg2111a_final_project.Wire.Constants.PacketType
use cg2111a_final_project.Wire.Constants.Command
use cg2111a_final_project.Wire.Constants.Response
use cg2111a_final_project.Wire.Constants.Net
use cg2111a_final_project.Wire.Assemble.Waiting.{pending}
use cg2111a_final_project.Wire.Deserialize.Framed.{Framed}
use cg2111a_final_project.Server.{
  Server, Conn, Outcome, print, ssl_write, uart_status, writing_to_client, warn, send_network_data,
  write_to,
}
use cg2111a_final_project.Base.Int.{is_positive}
use cg2111a_final_project.Server.Uart.{
  handle_uart_packet, handle_response, handle_status, report, forwarded,
}
use cg2111a_final_project.Server.Threads.{Receiver}
use cg2111a_final_project.Server.Receive.{Reading, after, uart_receive_all}
use cg2111a_final_project.Server.Receive.Received.{
  AllFit, IsReceiver, Remains, stream, quiet, uart_receive_all_handles,
}
use cg2111a_final_project.Client.{Client, print, status_report}
use cg2111a_final_project.Client.Reader.{handle_network, handle_status as show_status}
use cg2111a_final_project.Robot.{Floats, Robot, Counters, respond}
use cg2111a_final_project.Robot.Replies.{answer, send_status}
use cg2111a_final_project.Robot.Commands.{Input, handle_command}

-- The counters that `sendStatus` sends, in order.
abbrev pub counted : Counters → List ℕ
counted c =
    c.left_forward_ticks ∷ c.right_forward_ticks ∷ c.left_reverse_ticks ∷ c.right_reverse_ticks
    ∷ c.left_forward_ticks_turns ∷ c.right_forward_ticks_turns ∷ c.left_reverse_ticks_turns
    ∷ c.right_reverse_ticks_turns ∷ c.forward_dist ∷ c.reverse_dist ∷ []

abbrev pub status_packet : Packet → Counters → Packet
status_packet before c = answer before PacketType.response Response.status (counted c)

-- Each round begins while the network is active and the answers go to `conn`.
abbrev pub AllServing : Conn → List Reading → Type 0
AllServing conn [] = Unit
AllServing conn (t ∷ ts) =
    (t.server ≡ record { network_active = true; tls_conn = some conn }) × AllServing conn ts

serving_at :
    (conn : Conn) (front : List Reading) (t : Reading) (ts : List Reading)
    → AllServing conn (front ++ t ∷ ts)
    → t.server ≡ record { network_active = true; tls_conn = some conn }
serving_at conn [] t ts h = h.0
serving_at conn (u ∷ front) t ts h = serving_at conn front t ts h.1

-- The Pi forwards the sixteen parameters.
forwards :
    (s : Server) (o : Outcome) (conn : Conn) (before : Packet) (c : Counters)
    → s ≡ record { network_active = true; tls_conn = some conn }
    → handle_uart_packet s o (status_packet before c) ≡ (
      record { network_active = is_positive o.written; tls_conn = some conn },
      print uart_status
          ∷ print writing_to_client
          ∷ ssl_write conn (Net.status_packet ∷ words_bytes (status_packet before c).params)
          ∷ warn o.written,
    )
unfolding handle_uart_packet handle_response handle_status report forwarded send_network_data
    write_to answer
forwards s o conn before c e = rw e refl

-- The client reads the first ten of them.
reads :
    (s : Client) (ws more rest : List ℕ)
    → length ws ≡ 10
    → length (ws ++ more) ≡ n_params
    → AllWords (ws ++ more)
    → handle_network s ((Net.status_packet ∷ words_bytes (ws ++ more)) ++ rest)
      ≡ some (s, print (status_report ws) ∷ [])
unfolding handle_network show_status
reads s ws more rest short sized fit = rw (sliced, read, first) refl
  where
    bs : List ℕ
    bs = words_bytes (ws ++ more)

    whole : length bs ≡ 64
    whole = omega (arith, length-words_bytes (ws ++ more))

    sliced : slice? ((Net.status_packet ∷ bs) ++ rest) 1 64 ≡ some bs
    sliced =
        rw
          (le→leb 65 (length ((Net.status_packet ∷ bs) ++ rest))
            (omega (arith, whole, length-append bs rest)))
          (ap some (take-append bs rest 64 (sym whole)))

    read : words_of_bytes 16 bs ≡ ws ++ more
    read = words_of_bytes-words_bytes 16 (ws ++ more) sized fit

    first : take 10 (ws ++ more) ≡ ws
    first = take-append ws more 10 (sym short)

-- The robot gets COMMAND_GET_STATS and answers with one packet. A frame that `serialize` wrote of it, its
-- arrays of the declared lengths and its parameters below 2^32, reaches the receiving thread of the Pi, cut into reads anywhere, with empty and failed reads among them and none longer than the local
-- buffer, while the Pi is connected to a client: in the round in which the frame is whole, the Pi writes
-- one message to that client, before it nothing, and what follows the frame waits or is still to be
-- read. The message, in front of whatever the client's buffer holds, makes the client print the robot's
-- ten counters and leaves its state alone.
pub status_reaches_client :
    (f : Floats) (i : Input) (r : Robot) (p : Packet) (frame more : List ℕ) (turns : List Reading)
    (rx : Receiver) (conn : Conn) (c : Client) (rest : List ℕ)
    → p.command ≡ Command.get_stats
    → Framed (status_packet i.before_answer r.counters) frame
    → IsReceiver rx
    → AllFit turns
    → AllServing conn turns
    → pending rx.assembler ++ stream turns ≡ frame ++ more
    → (handle_command f i r p ≡ (r, respond (status_packet i.before_answer r.counters) ∷ []))
      × (front : List Reading) × (turn : Reading) × (ts : List Reading) × (rx' : Receiver)
      × (bs : List ℕ) × (turns ≡ front ++ turn ∷ ts)
      × (uart_receive_all turns rx ≡ (
          uart_receive_all ts rx'
          >>= after (
              quiet front
              ++ (
                record { network_active = is_positive turn.outcome.written; tls_conn = some conn },
                print uart_status
                    ∷ print writing_to_client
                    ∷ ssl_write conn bs
                    ∷ warn turn.outcome.written,
              )
                ∷ [])))
      × Remains more ts rx'
      × (handle_network c (bs ++ rest) ≡ some (c, print (status_report (counted r.counters)) ∷ []))
unfolding handle_command send_status
status_reaches_client f i r p frame more turns rx conn c rest asked framed v fit on e =
    let sp = status_packet i.before_answer r.counters in
    let valid = framed.2 in
    let (front, turn, ts, rx', split, run, next) =
      uart_receive_all_handles ((sp, frame) ∷ []) turns rx more v fit (framed, tt)
        (e ∙ sym (ap (λ l. l ++ more) (append-nil frame))) in
    let served = serving_at conn front turn ts (subst (AllServing conn) split on) in
    (
      rw asked refl,
      front,
      turn,
      ts,
      rx',
      Net.status_packet ∷ words_bytes sp.params,
      split,
      rw (run, forwards turn.server turn.outcome conn i.before_answer r.counters served) refl,
      next,
      unfold answer in
          reads c (counted r.counters) (drop 10 i.before_answer.params) rest refl valid.params_fit
            valid.params_words,
    )
