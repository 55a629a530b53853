-- ===== src/Serial/Tests.antt =====
-- The theorem on the serial port at a port that opens on the third attempt.
use cg2111a_final_project.Base.{ℕ, ◌==◌, false, if◌then◌else◌}
use cg2111a_final_project.Base.Int.{ℤ, pos, negsuc}
use cg2111a_final_project.Serial.{Options, start_serial}
use cg2111a_final_project.Serial.Attempts.{Ended, start_serial_ends}

abbrev third : ℕ → ℤ
third n = if n == 3 then pos 4 else negsuc 0

abbrev clear : Options
clear = record {
  raw = false;
  speed = 0;
  clocal = false;
  cread = false;
  parenb = false;
  parodd = false;
  inpck = false;
  istrip = false;
  cstopb = false;
  size = 0;
  crtscts = false;
  ixon = false;
  ixoff = false;
  ixany = false;
  icanon = false;
  echo = false;
  echoe = false;
  isig = false;
}

start_serial_ends_example : Ended third 5 0 (start_serial third clear clear 13 8 b'N' 1 5).0
start_serial_ends_example = start_serial_ends third clear clear 13 8 b'N' 1 5
