-- ===== src/Wire/Constants/Net.antt =====
-- `TNetConstants`: the first byte of what goes over the TLS connection.
use Prim.Native.Nat.{ℕ}

abbrev pub error_packet : ℕ
error_packet = 0

abbrev pub status_packet : ℕ
status_packet = 1

abbrev pub ultrasonic_message_packet : ℕ
ultrasonic_message_packet = 2

abbrev pub command_packet : ℕ
command_packet = 3

abbrev pub color_message_packet : ℕ
color_message_packet = 4

abbrev pub buzzer_packet : ℕ
buzzer_packet = 5

abbrev pub message_packet : ℕ
message_packet = 6

abbrev pub manualmode_packet : ℕ
manualmode_packet = 7
