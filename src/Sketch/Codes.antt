-- ===== src/Sketch/Codes.antt =====
-- The codes of Working/Alex-sb/constants.h.
use Prim.Native.Nat.{ℕ}

abbrev pub packet_command : ℕ
packet_command = 0

abbrev pub packet_response : ℕ
packet_response = 1

abbrev pub packet_error : ℕ
packet_error = 2

abbrev pub packet_message : ℕ
packet_message = 3

abbrev pub packet_hello : ℕ
packet_hello = 4

abbrev pub resp_ok : ℕ
resp_ok = 0

abbrev pub resp_bad_packet : ℕ
resp_bad_packet = 2

abbrev pub resp_bad_checksum : ℕ
resp_bad_checksum = 3

abbrev pub resp_bad_command : ℕ
resp_bad_command = 4

abbrev pub resp_bad_response : ℕ
resp_bad_response = 5

abbrev pub command_forward : ℕ
command_forward = 0

abbrev pub forward : ℕ
forward = 1

abbrev pub backward : ℕ
backward = 2

abbrev pub left : ℕ
left = 3

abbrev pub right : ℕ
right = 4

abbrev pub stop : ℕ
stop = 0

abbrev pub go : ℕ
go = 1

abbrev pub back : ℕ
back = 2

abbrev pub ccw : ℕ
ccw = 3

abbrev pub cw : ℕ
cw = 4
