-- ===== src/Server/Tests.antt =====
-- The theorems on the server at concrete states, packets and commands.
use mathlib.Core.Bool.{true, false}
use cg2111a_final_project.Base.{
  ℕ, List, length, u32_bytes, ◌<◌, ◌^◌, ◌≡◌, refl, [], ◌∷◌, none, some, arith, replicate,
}
use cg2111a_final_project.Base.Int.{pos, negsuc}
use cg2111a_final_project.Wire.Packet.{Packet, IsPacket, packet_size, words_bytes}
use cg2111a_final_project.Wire.Frame.{IsComms, max_data_size}
use cg2111a_final_project.Wire.Assemble.{fresh}
use cg2111a_final_project.Wire.Constants.PacketType
use cg2111a_final_project.Wire.Constants.Net
use cg2111a_final_project.Server.{
  Server, ssl_write, warn, uart_ultrasonic, writing_to_client, send_network_data, write_to, Event,
  print, serial_write, Outcome, command_received,
}
use cg2111a_final_project.Server.Uart.{
  handle_uart_packet, handle_ultrasonic_message, report, forwarded,
}
use cg2111a_final_project.Server.Commands.{Stack}
use cg2111a_final_project.Server.Threads.{failed, uart_receive, worker_exit}
use cg2111a_final_project.Server.System.{
  System, Reach, waiting, over, leaving, test, handle, accept, leave, reset, here, next,
}
use cg2111a_final_project.Server.Sending.{AllSent, Proper, handle_uart_packet_sends}
use cg2111a_final_project.Server.Silence.{IsSilent, Reach-IsSilent}
use cg2111a_final_project.Tls.Listener.{listen_loop}
use cg2111a_final_project.Tls.Listener.Trust.{workers}
use cg2111a_final_project.Tls.Tests.{strict, good_peer, bad_peer}
use cg2111a_final_project.Server.Start.{create_alex, AllVerified, create_alex-AllVerified}

abbrev pub blank_packet : Packet
blank_packet = record {
  packet_type = 4;
  command = 0;
  dummy = replicate 2 0;
  text = replicate 32 0;
  params = replicate 16 9;
}

pub blank_packet-IsPacket : IsPacket blank_packet
blank_packet-IsPacket = record {
  dummy_fits = refl;
  text_fits = refl;
  params_fit = refl;
  params_words = (
    small,
    (
      small,
      (
        small,
        (
          small,
          (
            small,
            (
              small,
              (
                small,
                (small, (small, (small, (small, (small, (small, (small, (small, (small, tt))))))))),
              ),
            ),
          ),
        ),
      ),
    ),
  );
}
  where
    small : 9 < 2 ^ 32
    small = omega arith

abbrev pub stack : Stack
stack = record {
  packet = blank_packet;
  comms = record {
    magic = 0;
    data_size = 0;
    buffer = replicate max_data_size 0;
    checksum = 0;
    dummy = replicate 3 0;
  };
}

pub stack-IsComms : IsComms stack.comms
stack-IsComms = record {
  magic_word = omega arith;
  size_word = omega arith;
  buffer_fits = refl;
  dummy_fits = refl;
}

abbrev pub connected : Server
connected = record { network_active = true; tls_conn = some 4 }

abbrev pub failing : Outcome
failing = record { written = negsuc 0; unset = pos 0 }

-- PACKET_TYPE_ULTRASONIC_MESSAGE
abbrev distance_packet : Packet
distance_packet = record blank_packet { packet_type = PacketType.ultrasonic_message }

distance_packet-IsPacket : IsPacket distance_packet
distance_packet-IsPacket = record {
  dummy_fits = refl;
  text_fits = refl;
  params_fit = refl;
  params_words = blank_packet-IsPacket.params_words;
}

-- One message of 65 bytes goes to the client.
distance_written :
    (bs : List ℕ) × ((handle_uart_packet connected failing distance_packet).1
      ≡ print uart_ultrasonic ∷ print writing_to_client ∷ ssl_write 4 bs ∷ warn (negsuc 0))
    × (length bs ≡ 65)
unfolding handle_uart_packet handle_ultrasonic_message report forwarded send_network_data write_to
    words_bytes u32_bytes
distance_written = (forwarded Net.ultrasonic_message_packet distance_packet, refl, refl)

handle_uart_packet_sends_example :
    AllSent (Proper connected) (handle_uart_packet connected failing distance_packet).1
handle_uart_packet_sends_example =
    handle_uart_packet_sends connected failing distance_packet distance_packet-IsPacket

abbrev silent : System
silent = record {
  server = record { network_active = false; tls_conn = none };
  receiver = record { assembler = fresh; packet = replicate packet_size 0 };
  sending = waiting;
  workers = [];
}

abbrev joined : System
joined = record silent {
  workers =
      record { conn = 5; buffer = []; phase = cg2111a_final_project.Server.System.testing } ∷ [];
}

silent-IsSilent : IsSilent silent
silent-IsSilent = record { inactive = refl; quiet = tt; none_reading = tt }

-- A client connects, the serial line fails, and the worker leaves.
abbrev left : System
left = record silent { workers = record { conn = 5; buffer = []; phase = over } ∷ [] }

silent_run : Reach silent [] left
unfolding worker_exit uart_receive
silent_run =
    next
      (next
        (next (next (next here (accept 5 [])) (test failed refl))
          (handle failing false failed refl refl))
        (leave [] []
          (record { conn = 5; buffer = []; phase = cg2111a_final_project.Server.System.testing })
          refl refl refl))
      (reset [] [] (record { conn = 5; buffer = []; phase = leaving }) refl refl)

Reach-IsSilent_example : IsSilent left
Reach-IsSilent_example = Reach-IsSilent silent-IsSilent silent_run

create_alex-AllVerified_example :
    AllVerified 0
      ((false, bad_peer) ∷ (false, good_peer) ∷ [])
      (workers (listen_loop 0 (create_alex strict) ((false, bad_peer) ∷ (false, good_peer) ∷ [])))
create_alex-AllVerified_example =
    create_alex-AllVerified 0 strict ((false, bad_peer) ∷ (false, good_peer) ∷ [])
