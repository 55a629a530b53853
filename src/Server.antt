-- ===== src/Server.antt =====
-- tls-alex-server.cpp: the Pi between the TLS client and the Arduino. This file has the state that
-- its threads share and `sendNetworkData`; the children have the handlers and the threads.
pub mod Uart
pub mod Commands
pub mod Threads
pub mod Receive
pub mod System
pub mod Sending
pub mod Relay
pub mod Silence
pub mod Start
pub mod Tests
use mathlib.Core.Bool.{Bool, true, false}
use cg2111a_final_project.Base.{ℕ, List, [], ◌∷◌, ◌++◌, Option, none, some, if◌then◌else◌}
use cg2111a_final_project.Base.Int.{ℤ, is_positive, is_negative}

-- An `SSL *` that is not NULL.
abbrev pub Conn : Type 0
Conn = ℕ

-- `networkActive` and `tls_conn`.
pub record Server : Type 0 where
  pub network_active : Bool
  pub tls_conn : Option Conn

-- What is printed on the Pi's console.
pub data Line : Type 0 where
  uart_error : ℕ → Line
  message_packet : Line
  reading : List ℕ → Line
  uart_color : Option (List ℕ) → Line
  uart_ultrasonic uart_manual uart_buzzer uart_status : Line
  command_ok boo hello_from_arduino : Line
  bad_magic bad_checksum unknown_error packet_error : Line
  writing_to_client error_writing error_reading : Line
  command_received : ℕ → ℕ → ℕ → Line
  bad_command : Line

-- The effects of a handler, in order.
pub data Event : Type 0 where
  print : Line → Event
  ssl_write : Conn → List ℕ → Event
  serial_write : List ℕ → Event

-- What the environment decides in a call of `sendNetworkData`: the result of `sslWrite`, and what
-- the local variable `c` holds before it is assigned.
pub record Outcome : Type 0 where
  pub written : ℤ
  pub unset : ℤ

abbrev pub warn : ℤ → List Event
warn c = if is_negative c then print error_writing ∷ [] else []

unfoldable pub write_to : Option Conn → Outcome → List ℕ → ℤ × List Event
write_to none o bytes = (o.unset, [])
write_to (some conn) o bytes = (o.written, ssl_write conn bytes ∷ warn o.written)

-- `sendNetworkData(data, len)`
unfoldable pub send_network_data : Server → Outcome → List ℕ → Server × List Event
unfolding write_to
send_network_data s o bytes =
    if s.network_active
    then (let (c, events) = write_to s.tls_conn o bytes in
        (record s { network_active = is_positive c }, print writing_to_client ∷ events))
    else (s, [])
