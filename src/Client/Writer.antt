-- ===== src/Client/Writer.antt =====
-- `writerThread`, one round of the loop at a time.
use cg2111a_final_project.Base.{
  ℕ, ◌-◌, ◌*◌, List, [], ◌∷◌, ◌++◌, Bool, true, false, ltb, if◌then◌else◌,
}
use cg2111a_final_project.Base.Int.{ℤ}
use cg2111a_final_project.Client.{
  Client, Event, print, sleep, send_data, prompt, ask_params, bad_command, teleop_banner,
  exiting_keyboard,
}
use cg2111a_final_project.Client.Keys.{
  Action, move, plain, toggle, quit, bad, manual_action, teleop_letter, command_buffer,
}

-- What a round takes from outside: the key, the two numbers that `getParams` reads, the result of
-- `sslWrite`, and the two readings of `clock()`.
pub record Input : Type 0 where
  pub key : ℕ
  pub param0 : ℕ
  pub param1 : ℕ
  pub written : ℤ
  pub now : ℕ
  pub later : ℕ

-- The locals of the thread that outlive a round.
pub record Local : Type 0 where
  pub quitting : Bool
  pub old : ℕ

abbrev pub sent : Client × List Event → List Event → List Event → Client × List Event
sent out before after = (out.0, before ++ (out.1 ++ after))

unfoldable pub act : Client → Input → Action → Client × List Event
act s i (move ch) =
    sent (send_data s i.written (command_buffer ch i.param0 i.param1)) (print ask_params ∷ []) []
act s i (plain ch) = send_data s i.written (command_buffer ch 0 0)
act s i (toggle ch) = sent (send_data s i.written (command_buffer ch 0 0)) [] (sleep 2 ∷ [])
act s i quit = (s, [])
act s i bad = (s, print bad_command ∷ [])

abbrev pub is_quit : Action → Bool
is_quit quit = true
is_quit a = false

unfoldable pub manual_round : Client → Input → Local → Client × Local × List Event
manual_round s i l =
    let a = manual_action i.key in
    let (s', events) = act s i a in (s', record l { quitting = is_quit a }, print prompt ∷ events)

-- The message goes out only if more than half a second of processor time has passed since the round
-- before: `(clock() - old) / CLOCKS_PER_SEC > 0.5`. `sleep(0.7)` is a call with 0.
unfoldable pub teleop_round : ℕ → Client → Input → Local → Client × Local × List Event
teleop_round clocks_per_sec s i l =
    let out =
      if ltb clocks_per_sec (2 * (i.now - l.old))
      then sent (send_data s i.written (command_buffer (teleop_letter i.key) 0 0)) [] (sleep 0 ∷ [])
      else (s, []) in
    (out.0, record l { old = i.later }, print teleop_banner ∷ out.1)

unfoldable pub writer_round : ℕ → Client → Input → Local → Client × Local × List Event
writer_round clocks_per_sec s i l =
    if s.manual_mode then manual_round s i l else teleop_round clocks_per_sec s i l

-- The end of the thread: `stopClient()`.
unfoldable pub writer_exit : Client → Client × List Event
writer_exit s = (record s { exit_flag = true }, print exiting_keyboard ∷ [])
