-- ===== src/Wire/Constants/Command.antt =====
-- `TCommandType`.
use Prim.Native.Nat.{ℕ}

abbrev pub forward : ℕ
forward = 0

abbrev pub reverse : ℕ
reverse = 1

abbrev pub turn_left : ℕ
turn_left = 2

abbrev pub turn_right : ℕ
turn_right = 3

abbrev pub stop : ℕ
stop = 4

abbrev pub get_stats : ℕ
get_stats = 5

abbrev pub clear_stats : ℕ
clear_stats = 6

abbrev pub get_ultrasonic : ℕ
get_ultrasonic = 7

abbrev pub get_color : ℕ
get_color = 8

abbrev pub buzzer_1 : ℕ
buzzer_1 = 9

abbrev pub toggle_manual : ℕ
toggle_manual = 10

abbrev pub buzzer_2 : ℕ
buzzer_2 = 11

abbrev pub buzzer_3 : ℕ
buzzer_3 = 12

abbrev pub buzzer_4 : ℕ
buzzer_4 = 13

abbrev pub buzzer_5 : ℕ
buzzer_5 = 14
