-- ===== src/Link/StatusTests.antt =====
-- The theorem on COMMAND_GET_STATS, and the receiving thread of the Pi, at two frames in four reads.
use cg2111a_final_project.Base.{
  ℕ, ◌≡◌, refl, List, [], ◌∷◌, ◌++◌, some, ◌>>=◌, arith, take, drop, replicate, u32_bytes,
}
use cg2111a_final_project.Base.Int.{is_positive}
use cg2111a_final_project.Wire.Packet.{Packet, packet_size, bytes_of_packet, words_bytes}
use cg2111a_final_project.Wire.Constants.PacketType
use cg2111a_final_project.Wire.Frame.{bytes_of_comms, checksum_from, copy_front, serialize}
use cg2111a_final_project.Wire.Frame.Encode.{framed}
use cg2111a_final_project.Wire.Assemble.{fresh}
use cg2111a_final_project.Wire.Assemble.Waiting.{pending}
use cg2111a_final_project.Wire.Deserialize.Framed.{Framed, frames_bytes}
use cg2111a_final_project.Wire.Tests.{fresh-IsAssembling}
use cg2111a_final_project.Server.{print, ssl_write, uart_status, writing_to_client, warn}
use cg2111a_final_project.Server.Threads.{SerialRead, received, failed, Receiver}
use cg2111a_final_project.Server.Receive.{Reading, after, uart_receive_all}
use cg2111a_final_project.Server.Receive.Received.{
  AllFit, AllHandled, IsReceiver, Remains, stream, quiet, uart_receive_all_handles,
}
use cg2111a_final_project.Server.Tests.{
  stack, stack-IsComms, blank_packet, blank_packet-IsPacket, connected, failing,
}
use cg2111a_final_project.Client.{print, status_report}
use cg2111a_final_project.Client.Reader.{handle_network}
use cg2111a_final_project.Client.Tests.{driving}
use cg2111a_final_project.Robot.{Robot, respond}
use cg2111a_final_project.Robot.Replies.{answer}
use cg2111a_final_project.Robot.Commands.{handle_command}
use cg2111a_final_project.Robot.Tests.{floats, robot, zeros, input}
use cg2111a_final_project.Link.Status.{status_packet, counted, status_reaches_client}

abbrev moved : Robot
moved = record robot {
  counters = record {
    left_forward_ticks = 1;
    right_forward_ticks = 2;
    left_reverse_ticks = 3;
    right_reverse_ticks = 4;
    left_forward_ticks_turns = 5;
    right_forward_ticks_turns = 6;
    left_reverse_ticks_turns = 7;
    right_reverse_ticks_turns = 8;
    left_revs = 9;
    right_revs = 10;
    forward_dist = 300;
    reverse_dist = 70000;
  };
}

abbrev status : Packet
status = status_packet input.before_answer moved.counters

abbrev greeting : Packet
greeting = record blank_packet { packet_type = PacketType.hello }

abbrev frame_of : Packet → List ℕ
frame_of p = bytes_of_comms (framed stack.comms (bytes_of_packet p) packet_size)

status-Framed : Framed status (frame_of status)
unfolding answer serialize copy_front checksum_from bytes_of_comms u32_bytes bytes_of_packet
    words_bytes
status-Framed = (
  stack.comms,
  stack-IsComms,
  record {
    dummy_fits = refl;
    text_fits = refl;
    params_fit = refl;
    params_words = (
      omega arith,
      (
        omega arith,
        (
          omega arith,
          (
            omega arith,
            (
              omega arith,
              (
                omega arith,
                (
                  omega arith,
                  (
                    omega arith,
                    (
                      omega arith,
                      (
                        omega arith,
                        (
                          omega arith,
                          (
                            omega arith,
                            (omega arith, (omega arith, (omega arith, (omega arith, tt)))),
                          ),
                        ),
                      ),
                    ),
                  ),
                ),
              ),
            ),
          ),
        ),
      ),
    );
  },
  refl,
)

greeting-Framed : Framed greeting (frame_of greeting)
unfolding serialize copy_front checksum_from bytes_of_comms u32_bytes bytes_of_packet words_bytes
greeting-Framed = (
  stack.comms,
  stack-IsComms,
  record {
    dummy_fits = refl;
    text_fits = refl;
    params_fit = refl;
    params_words = blank_packet-IsPacket.params_words;
  },
  refl,
)

abbrev reading_of : SerialRead → Reading
reading_of read = record { server = connected; outcome = failing; read = read }

abbrev receiver : Receiver
receiver = record { assembler = fresh; packet = replicate packet_size 7 }

receiver-IsReceiver : IsReceiver receiver
receiver-IsReceiver = record { assembling = fresh-IsAssembling; sized = refl }

abbrev frames : List ℕ
frames = frame_of status ++ frame_of greeting

abbrev turns : List Reading
turns =
    reading_of (received (take 100 frames))
    ∷ reading_of failed
    ∷ reading_of (received (take 100 (drop 100 frames)))
    ∷ reading_of (received (drop 200 frames ++ 1 ∷ 2 ∷ []))
    ∷ []

turns-AllFit : AllFit turns
unfolding answer serialize copy_front checksum_from bytes_of_comms u32_bytes bytes_of_packet
    words_bytes
turns-AllFit = (omega arith, (omega arith, (omega arith, (omega arith, tt))))

turns-frames : pending fresh ++ stream turns ≡ frame_of status ++ (frame_of greeting ++ 1 ∷ 2 ∷ [])
unfolding answer serialize copy_front checksum_from bytes_of_comms u32_bytes bytes_of_packet
    words_bytes
turns-frames = refl

abbrev sent : List (Packet × List ℕ)
sent = (status, frame_of status) ∷ (greeting, frame_of greeting) ∷ []

turns-sent : pending fresh ++ stream turns ≡ frames_bytes sent ++ 1 ∷ 2 ∷ []
unfolding answer serialize copy_front checksum_from bytes_of_comms u32_bytes bytes_of_packet
    words_bytes
turns-sent = refl

uart_receive_all_handles_example : AllHandled sent (1 ∷ 2 ∷ []) turns receiver
uart_receive_all_handles_example =
    uart_receive_all_handles sent turns receiver (1 ∷ 2 ∷ []) receiver-IsReceiver turns-AllFit
      (status-Framed, (greeting-Framed, tt)) turns-sent

status_reaches_client_example :
    (handle_command floats input moved (record zeros { command = 5 })
      ≡ (moved, respond status ∷ []))
    × (front : List Reading) × (turn : Reading) × (ts : List Reading) × (rx' : Receiver)
    × (bs : List ℕ) × (turns ≡ front ++ turn ∷ ts)
    × (uart_receive_all turns receiver ≡ (
        uart_receive_all ts rx'
        >>= after (
            quiet front
            ++ (
              record { network_active = is_positive turn.outcome.written; tls_conn = some 4 },
              print uart_status
                  ∷ print writing_to_client
                  ∷ ssl_write 4 bs
                  ∷ warn turn.outcome.written,
            )
              ∷ [])))
    × Remains (frame_of greeting ++ 1 ∷ 2 ∷ []) ts rx'
    × (handle_network driving (bs ++ replicate 63 0)
        ≡ some (driving, print (status_report (counted moved.counters)) ∷ []))
status_reaches_client_example =
    status_reaches_client floats input moved (record zeros { command = 5 }) (frame_of status)
      (frame_of greeting ++ 1 ∷ 2 ∷ []) turns receiver 4 driving (replicate 63 0) refl status-Framed
      receiver-IsReceiver turns-AllFit (refl, (refl, (refl, (refl, tt)))) turns-frames
