-- ===== src/Server/Threads.antt =====
-- `uartReceiveThread` and `worker`, one round of the loop at a time.
use mathlib.Core.Bool.{true, false}
use cg2111a_final_project.Base.{
  ℕ, List, [], ◌∷◌, ◌++◌, Option, none, some, ◌>>=◌, ltb, length, drop, if◌then◌else◌,
}
use cg2111a_final_project.Wire.Packet.{packet_of_bytes}
use cg2111a_final_project.Wire.Frame.{frame_size}
use cg2111a_final_project.Wire.Assemble.{
  Assembler, Result, packet_ok, packet_bad, packet_checksum_bad, packet_incomplete,
}
use cg2111a_final_project.Wire.Deserialize.{deserialize}
use cg2111a_final_project.Server.{
  Server, Conn, Event, print, Outcome, bad_magic, bad_checksum, unknown_error, packet_error,
  error_reading,
}
use cg2111a_final_project.Server.Uart.{handle_uart_packet}
use cg2111a_final_project.Server.Commands.{Stack, handle_network_data}

-- `handleError(error)`
unfoldable pub handle_error : Result → List Event
handle_error packet_bad = print bad_magic ∷ []
handle_error packet_checksum_bad = print bad_checksum ∷ []
handle_error r = print unknown_error ∷ []

-- What `serialRead` returns: so many bytes, none at all among them, or an error.
pub data SerialRead : Type 0 where
  received : List ℕ → SerialRead
  failed : SerialRead

-- The static variables of `deserialize` and the bytes of the local `packet`. The local `counter` is
-- only ever written.
pub record Receiver : Type 0 where
  pub assembler : Assembler
  pub packet : List ℕ

unfoldable pub on_packet :
    Server → Outcome → Result × List ℕ × Assembler → Server × Receiver × List Event
on_packet s o (packet_ok, bytes, a) =
    let (s', events) = handle_uart_packet s o (packet_of_bytes bytes) in
    (s', record { assembler = a; packet = bytes }, events)
on_packet s o (packet_incomplete, bytes, a) = (s, record { assembler = a; packet = bytes }, [])
on_packet s o (r, bytes, a) =
    (s, record { assembler = a; packet = bytes }, print packet_error ∷ handle_error r)

-- One round of `uartReceiveThread`. The local buffer has PACKET_SIZE bytes and `serialRead` asks for
-- up to MAX_BUFFER_LEN: `none` is a read that does not fit, or a fault in `deserialize`.
unfoldable pub uart_receive :
    Server → Outcome → Receiver → SerialRead → Option (Server × Receiver × List Event)
unfolding on_packet
uart_receive s o rx failed = some (s, rx, [])
uart_receive s o rx (received []) = some (s, rx, [])
uart_receive s o rx (received (b ∷ bytes)) =
    if ltb frame_size (length (b ∷ bytes))
    then none
    else (deserialize rx.assembler (b ∷ bytes) rx.packet >>= λ result. some (on_packet s o result))

-- What `sslRead` returns: at least one byte, the end of the connection (0), or an error.
pub data SslRead : Type 0 where
  bytes : ℕ → List ℕ → SslRead
  closed errored : SslRead

-- What a round of `worker` does once `sslRead` has returned. The buffer keeps what earlier reads
-- left in it behind the new bytes.
unfoldable pub worker_round :
    Server → Stack → Conn → List ℕ → SslRead → Option (Server × List ℕ × List Event)
worker_round s st conn buffer (bytes b bs) =
    let buffer' = (b ∷ bs) ++ drop (length (b ∷ bs)) buffer in
    handle_network_data (record s { network_active = true }) st conn buffer' >>= λ (s', events).
    some (s', buffer', events)
worker_round s st conn buffer closed = some (record s { network_active = false }, buffer, [])
worker_round s st conn buffer errored =
    some (record s { network_active = false }, buffer, print error_reading ∷ [])

-- What `worker` does when the loop is left.
unfoldable pub worker_exit : Server → Server
worker_exit s = record s { tls_conn = none }
