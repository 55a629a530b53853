-- ===== src/Client/Reader.antt =====
-- `readerThread` and the handlers for what the Pi sends.
use cg2111a_final_project.Base.{
  ℕ, List, [], ◌∷◌, ◌++◌, Option, none, some, ◌>>=◌, true, false, not, ◌==◌, length, take, drop,
  get_elem?, slice?, switch,
}
use cg2111a_final_project.Base.Int.{ℤ, pos}
use cg2111a_final_project.Wire.Packet.{words_of_bytes}
use cg2111a_final_project.Wire.Constants.Response
use cg2111a_final_project.Wire.Constants.Net
use cg2111a_final_project.Client.{
  Client, Event, print, status_ok, bad_magic, bad_checksum, bad_command_sent, bad_response,
  confused, status_report, distance, white, red, green, unknown_colour, colour_id, buzzer_activated,
  message, mode, read_count, exiting_reader,
}

unfoldable pub handle_error : List ℕ → Option (List Event)
handle_error buffer = get_elem? buffer 1 >>= λ code. some (
    print (
      switch code
        ((Response.ok ∷ [], status_ok)
          ∷ (Response.bad_packet ∷ [], bad_magic)
          ∷ (Response.bad_checksum ∷ [], bad_checksum)
          ∷ (Response.bad_command ∷ [], bad_command_sent)
          ∷ (Response.bad_response ∷ [], bad_response)
          ∷ [])
        confused)
    ∷ [])

-- The first ten of the sixteen numbers are printed.
unfoldable pub handle_status : List ℕ → Option (List Event)
handle_status buffer = slice? buffer 1 64 >>= λ bytes.
    some (print (status_report (take 10 (words_of_bytes 16 bytes))) ∷ [])

-- `printf("… %d\n", buffer[1])` prints one byte.
unfoldable pub handle_ultrasonic_message : List ℕ → Option (List Event)
handle_ultrasonic_message buffer =
    get_elem? buffer 1 >>= λ reading. some (print (distance reading) ∷ [])

abbrev pub white_id : ℕ
white_id = 0

abbrev pub red_id : ℕ
red_id = 1

abbrev pub green_id : ℕ
green_id = 2

unfoldable pub handle_color_message : List ℕ → Option (List Event)
handle_color_message buffer = get_elem? buffer 1 >>= λ id. some (
    print (
      switch id ((white_id ∷ [], white) ∷ (red_id ∷ [], red) ∷ (green_id ∷ [], green) ∷ [])
        unknown_colour)
    ∷ print (colour_id (drop 1 buffer))
    ∷ [])

unfoldable pub handle_buzzer_message : List Event
handle_buzzer_message = print buzzer_activated ∷ []

unfoldable pub handle_message : List ℕ → List Event
handle_message buffer = print (message (drop 1 buffer)) ∷ []

-- "We don't do anything because we issue commands".
unfoldable pub handle_command : List ℕ → List Event
handle_command buffer = []

unfoldable pub handle_mode_message : Client → List ℕ → Option (Client × List Event)
handle_mode_message s buffer = get_elem? buffer 1 >>= λ value.
    let on = not (value == 0) in some (record s { manual_mode = on }, print (mode on) ∷ [])

-- The handlers that leave the state alone.
abbrev pub keeping : Client → Option (List Event) → Option (Client × List Event)
keeping s none = none
keeping s (some es) = some (s, es)

abbrev pub network_cases : Client → List ℕ → List (List ℕ × Option (Client × List Event))
network_cases s buffer =
    (Net.error_packet ∷ [], keeping s (handle_error buffer))
    ∷ (Net.status_packet ∷ [], keeping s (handle_status buffer))
    ∷ (Net.ultrasonic_message_packet ∷ [], keeping s (handle_ultrasonic_message buffer))
    ∷ (Net.command_packet ∷ [], some (s, handle_command buffer))
    ∷ (Net.color_message_packet ∷ [], keeping s (handle_color_message buffer))
    ∷ (Net.buzzer_packet ∷ [], some (s, handle_buzzer_message))
    ∷ (Net.message_packet ∷ [], some (s, handle_message buffer))
    ∷ (Net.manualmode_packet ∷ [], handle_mode_message s buffer)
    ∷ []

-- `handleNetwork(buffer, len)`; `none` is a read past the end of `buffer`.
unfoldable pub handle_network : Client → List ℕ → Option (Client × List Event)
handle_network s buffer =
    get_elem? buffer 0 >>= λ type. switch type (network_cases s buffer) (some (s, []))

-- What `sslRead` returns: bytes, or a number that is not positive.
pub data SslRead : Type 0 where
  bytes : ℕ → List ℕ → SslRead
  nothing : ℤ → SslRead

-- What a round of `readerThread` does once `sslRead` has returned; the buffer keeps its old contents
-- behind the new bytes.
unfoldable pub reader_round : Client → List ℕ → SslRead → Option (Client × List ℕ × List Event)
reader_round s buffer (bytes b bs) =
    let buffer' = (b ∷ bs) ++ drop (length (b ∷ bs)) buffer in
    handle_network (record s { network_active = true }) buffer' >>= λ (s', events).
    some (s', buffer', print (read_count (pos (length (b ∷ bs)))) ∷ events)
reader_round s buffer (nothing n) =
    some (record s { network_active = false }, buffer, print (read_count n) ∷ [])

-- The end of the thread: `stopClient()`.
unfoldable pub reader_exit : Client → Client × List Event
reader_exit s = (record s { exit_flag = true }, print exiting_reader ∷ [])
