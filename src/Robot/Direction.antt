-- ===== src/Robot/Direction.antt =====
-- `TDirection` and `Tdir` of Working/Alex-a/constants.h.
use Prim.Native.Nat.{ℕ}

abbrev pub forward : ℕ
forward = 1

abbrev pub backward : ℕ
backward = 2

abbrev pub left : ℕ
left = 3

abbrev pub right : ℕ
right = 4

abbrev pub stop : ℕ
stop = 0

abbrev pub go : ℕ
go = 1

abbrev pub back : ℕ
back = 2

abbrev pub ccw : ℕ
ccw = 3

abbrev pub cw : ℕ
cw = 4
