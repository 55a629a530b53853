-- ===== src/Wire/Constants/PacketType.antt =====
-- `TPacketType`.
use Prim.Native.Nat.{ℕ}

abbrev pub command : ℕ
command = 0

abbrev pub response : ℕ
response = 1

abbrev pub error : ℕ
error = 2

abbrev pub ultrasonic_message : ℕ
ultrasonic_message = 3

abbrev pub hello : ℕ
hello = 4

abbrev pub color_message : ℕ
color_message = 5

abbrev pub buzzer : ℕ
buzzer = 6

abbrev pub message : ℕ
message = 7

abbrev pub speed : ℕ
speed = 8

abbrev pub manual : ℕ
manual = 9
