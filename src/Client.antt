-- ===== src/Client.antt =====
-- tls-alex-client.cpp: the operator's laptop. This file has the state that its threads share and
-- `sendData`; the children have the thread that reads from the Pi and the one that reads the keys.
pub mod Reader
pub mod Keys
pub mod Writer
pub mod Known
pub mod Mode
pub mod Start
pub mod Tests
use cg2111a_final_project.Base.{ℕ, List, [], ◌∷◌, length, Bool, if◌then◌else◌}
use cg2111a_final_project.Base.Int.{ℤ, is_positive, is_negative}

-- `networkActive`, `manualMode`, and the exit flag of make_tls_client.cpp.
pub record Client : Type 0 where
  pub network_active : Bool
  pub manual_mode : Bool
  pub exit_flag : Bool

-- What is printed on the operator's console.
pub data Line : Type 0 where
  status_ok bad_magic bad_checksum bad_command_sent bad_response confused : Line
  status_report : List ℕ → Line
  distance : ℕ → Line
  white red green unknown_colour : Line
  colour_id : List ℕ → Line
  buzzer_activated : Line
  message : List ℕ → Line
  mode : Bool → Line
  sending : ℕ → Line
  error_writing : Line
  read_count : ℤ → Line
  exiting_reader exiting_keyboard : Line
  prompt teleop_banner ask_params bad_command : Line

-- The effects of a round, in order. There is one connection.
pub data Event : Type 0 where
  print : Line → Event
  ssl_write : List ℕ → Event
  sleep : ℕ → Event

abbrev pub warn : ℤ → List Event
warn c = if is_negative c then print error_writing ∷ [] else []

-- `sendData(conn, buffer, len)`, where `sslWrite` returns `c`.
unfoldable pub send_data : Client → ℤ → List ℕ → Client × List Event
send_data s c bytes =
    if s.network_active
    then (
      record s { network_active = is_positive c },
      print (sending (length bytes)) ∷ ssl_write bytes ∷ warn c,
    )
    else (s, print (sending (length bytes)) ∷ [])
