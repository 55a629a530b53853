-- ===== src/Wire/Constants/Response.antt =====
-- `TResponseType`; the value goes into the command field.
use Prim.Native.Nat.{ℕ}

abbrev pub ok : ℕ
ok = 0

abbrev pub status : ℕ
status = 1

abbrev pub bad_packet : ℕ
bad_packet = 2

abbrev pub bad_checksum : ℕ
bad_checksum = 3

abbrev pub bad_command : ℕ
bad_command = 4

abbrev pub bad_response : ℕ
bad_response = 5

abbrev pub color : ℕ
color = 6

abbrev pub ultrasonic : ℕ
ultrasonic = 7

abbrev pub mode : ℕ
mode = 8

abbrev pub buzzer : ℕ
buzzer = 9
