-- ===== src/Serial.antt =====
-- W9S2_TLS_Server/serial.cpp: the Pi's end of the serial line.
pub mod Attempts
pub mod Tests
use cg2111a_final_project.Base.{
  ℕ, zero, suc, ◌+◌, List, [], ◌∷◌, ◌++◌, Bool, true, false, ◌||◌, ◌==◌, if◌then◌else◌,
}
use cg2111a_final_project.Base.Int.{ℤ, pos, negsuc, is_negative, is_natural}

abbrev pub max_buffer_len : ℕ
max_buffer_len = 1024

-- The flags of `termios` that the code sets or clears, each with its name in lower case, and the size
-- of a character in bits. The output flags are left out.
pub record Options : Type 0 where
  pub raw : Bool
  pub speed : ℕ
  pub clocal : Bool
  pub cread : Bool
  pub parenb : Bool
  pub parodd : Bool
  pub inpck : Bool
  pub istrip : Bool
  pub cstopb : Bool
  pub size : ℕ
  pub crtscts : Bool
  pub ixon : Bool
  pub ixoff : Bool
  pub ixany : Bool
  pub icanon : Bool
  pub echo : Bool
  pub echoe : Bool
  pub isig : Bool

pub data Event : Type 0 where
  attempting : ℕ → Event
  trying_again : Event
  sleep : ℕ → Event
  giving_up : Event
  configure : ℤ → Options → Event

-- The loop of `startSerial`: `opens` answers for each attempt, `left` attempts are left, `attempt` were
-- made, and `fd` is what the last one gave.
unfoldable pub attempts : (ℕ → ℤ) → ℕ → ℕ → ℤ → ℤ × List Event
attempts opens zero attempt fd = (fd, [])
attempts opens (suc left) attempt fd =
    let fd' = opens (attempt + 1) in
    let (last, events) = attempts opens left (attempt + 1) fd' in
    if is_negative fd
    then (
      last,
      attempting (attempt + 1)
          ∷ ((if is_negative fd' then trying_again ∷ sleep 5 ∷ [] else []) ++ events),
    )
    else (fd, [])

abbrev even : ℕ → Bool
even parity = parity == b'e' || parity == b'E'

abbrev odd : ℕ → Bool
odd parity = parity == b'o' || parity == b'O'

-- The part of `startSerial` for a port that was opened, from what `tcgetattr` gave and `cfmakeraw`
-- made of it.
unfoldable pub with_port : Options → ℕ → ℕ → ℕ → ℕ → Options
with_port raw_options baud byte_size parity stop_bits =
    let o = record raw_options { raw = true; speed = baud; clocal = true; cread = true } in
    let p =
      if odd parity
      then record o { parenb = true; parodd = true; inpck = true; istrip = true }
      else (if even parity
          then record o { parenb = true; parodd = false; inpck = true; istrip = true }
          else record o { parenb = false }) in
    record p {
      cstopb = stop_bits == 2;
      size =
          if byte_size == 5
          then 5
          else (if byte_size == 6 then 6 else (if byte_size == 7 then 7 else 8));
    }

-- The end of `startSerial`, which is done in any case.
unfoldable pub common_options : Options → Options
common_options o = record o {
  crtscts = false;
  ixon = false;
  ixoff = false;
  ixany = false;
  icanon = false;
  echo = false;
  echoe = false;
  isig = false;
}

-- `startSerial(portName, baudRate, byteSize, parity, stopBits, maxAttempts)`, with `before` in the static
-- options and `got` from `tcgetattr` and `cfmakeraw`.
unfoldable pub start_serial :
    (ℕ → ℤ) → Options → Options → ℕ → ℕ → ℕ → ℕ → ℕ → ℤ × Options × List Event
start_serial opens before got baud byte_size parity stop_bits max_attempts =
    let (fd, events) = attempts opens max_attempts 0 (negsuc 0) in
    let o =
      common_options
        (if is_negative fd then before else with_port got baud byte_size parity stop_bits) in
    (fd, o, events ++ ((if is_negative fd then giving_up ∷ [] else []) ++ (configure fd o ∷ [])))

-- `serialRead(buffer)`: what it returns, where `read` gives what the system call answers.
unfoldable pub serial_read : ℤ → ℤ → ℤ
serial_read fd answer = if is_natural fd then answer else pos 0

-- `serialWrite(buffer, len)`: the bytes handed to the system call.
unfoldable pub serial_write : ℤ → List ℕ → List ℕ
serial_write fd bytes = if is_natural fd then bytes else []

-- `endSerial()`: whether the port is closed; the test is for more than 0.
unfoldable pub end_serial : ℤ → Bool
end_serial (pos zero) = false
end_serial (pos (suc n)) = true
end_serial (negsuc n) = false
