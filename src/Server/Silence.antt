-- ===== src/Server/Silence.antt =====
-- Once the network is inactive, no worker waits in `sslRead` and the thread of the serial port is not
-- about to set the flag, it stays so for ever.
use mathlib.Core.Bool.{true, false}
use cg2111a_final_project.Base.{
  ℕ, ◌≡◌, ◌≢◌, refl, inl, inr, List, [], ◌∷◌, ◌++◌, some, ltb, length, Bool-cases, subst,
}
use cg2111a_final_project.Base.Switch.{switch_rule, OnSome, OnSome-bind, of_OnSome}
use cg2111a_final_project.Wire.Frame.{frame_size}
use cg2111a_final_project.Wire.Packet.{Packet, packet_of_bytes, words_bytes}
use cg2111a_final_project.Wire.Constants.Response
use cg2111a_final_project.Wire.Constants.Net
use cg2111a_final_project.Wire.Assemble.{
  Assembler, Result, packet_ok, packet_bad, packet_checksum_bad, packet_incomplete, packet_complete,
}
use cg2111a_final_project.Wire.Deserialize.{deserialize}
use cg2111a_final_project.Server.{
  Server, Line, Event, print, Outcome, send_network_data, command_ok, boo, uart_error, uart_status,
  uart_color, uart_ultrasonic, uart_buzzer, uart_manual, ssl_write, serial_write,
  hello_from_arduino,
}
use cg2111a_final_project.Server.Uart.{
  text_of, response_cases, uart_cases, report, forwarded, manual_then_hello, handle_uart_packet,
  handle_response, handle_error_response, handle_ultrasonic_message, handle_color_message,
  handle_message, handle_buzzer_message, handle_mode_message, handle_status,
}
use cg2111a_final_project.Server.Threads.{
  Receiver, SerialRead, received, failed, on_packet, handle_error, uart_receive, worker_exit,
}
use cg2111a_final_project.Server.System.{
  System, Worker, Step, Reach, Sending, waiting, tested, written, announces, sends, testing,
  reading, leaving, over, test, handle, assign, accept, enter, read, serve, leave, reset, hello,
  here, next,
}

abbrev pub NoneReading : List Worker → Type 0
NoneReading [] = Unit
NoneReading (w ∷ ws) = (w.phase ≢ reading) × NoneReading ws

-- The thread of the serial port has not found the flag set, and is not about to set it.
abbrev pub Quiet : Sending → Type 0
Quiet waiting = Unit
Quiet (tested active r) = active ≡ false
Quiet (written active) = active ≡ false

pub record IsSilent (y : System) : Type 0 where
  pub inactive : y.server.network_active ≡ false
  pub quiet : Quiet y.sending
  pub none_reading : NoneReading y.workers

-- Nothing is written to the client, so the flag is not assigned.
abbrev Unsent : Server × List Event → Type 0
Unsent out = sends out.1 ≡ false

sends-append : (es fs : List Event) → sends es ≡ false → sends fs ≡ false → sends (es ++ fs) ≡ false
sends-append [] fs h k = k
sends-append (print l ∷ es) fs h k = elim (Bool-cases (announces l)) [
  | inl told ↦ let found : sends (print l ∷ es) ≡ true = rw told refl in cc (h, found)
  | inr other ↦ rw other (sends-append es fs (rw other at h) k)
]
sends-append (ssl_write c bs ∷ es) fs h k = sends-append es fs h k
sends-append (serial_write bs ∷ es) fs h k = sends-append es fs h k

-- Lines of the handlers, which `sendNetworkData` does not print.
abbrev Other : Line → Type 0
Other l = announces l ≡ false

module _ (s : Server) (o : Outcome) (off : s.network_active ≡ false) where
  report-Unsent : (l : Line) (bs : List ℕ) → Other l → Unsent (report s o l bs)
  unfolding report send_network_data
  report-Unsent l bs h = simp (off, h) refl

  module _ (p : Packet) where
    handle_response-Unsent : Unsent (handle_response s o p)
    unfolding handle_response handle_status
    handle_response-Unsent =
        switch_rule Unsent p.command (response_cases s o p) (s, print boo ∷ [])
          (
            report-Unsent command_ok (Net.error_packet ∷ Response.ok ∷ []) refl,
            (report-Unsent uart_status (forwarded Net.status_packet p) refl, tt),
          )
          refl

    manual_then_hello-Unsent : Unsent (manual_then_hello s o p)
    unfolding manual_then_hello handle_mode_message
    manual_then_hello-Unsent =
        sends-append (report s o uart_manual (forwarded Net.manualmode_packet p)).1
          (print hello_from_arduino ∷ [])
          (report-Unsent uart_manual (forwarded Net.manualmode_packet p) refl) refl

    handle_uart_packet-Unsent : Unsent (handle_uart_packet s o p)
    unfolding handle_uart_packet handle_error_response handle_ultrasonic_message
        handle_color_message handle_message handle_buzzer_message
    handle_uart_packet-Unsent =
        switch_rule Unsent p.packet_type (uart_cases s o p) (s, [])
          (
            refl,
            (
              handle_response-Unsent,
              (
                report-Unsent (uart_error p.command) (Net.error_packet ∷ p.command ∷ []) refl,
                (ultrasonic, (color, (refl, (buzzer, (manual_then_hello-Unsent, (refl, tt)))))),
              ),
            ),
          )
          refl
      where
        ultrasonic : Unsent (handle_ultrasonic_message s o p)
        ultrasonic = report-Unsent uart_ultrasonic (forwarded Net.ultrasonic_message_packet p) refl

        color : Unsent (handle_color_message s o p)
        color =
            report-Unsent (uart_color (text_of (words_bytes p.params)))
              (forwarded Net.color_message_packet p) refl

        buzzer : Unsent (handle_buzzer_message s o p)
        buzzer = report-Unsent uart_buzzer (forwarded Net.buzzer_packet p) refl

abbrev Kept : Server × Receiver × List Event → Type 0
Kept out = sends out.2 ≡ false

on_packet-Kept :
    (s : Server) (o : Outcome) (off : s.network_active ≡ false) (r : Result × List ℕ × Assembler)
    → Kept (on_packet s o r)
unfolding on_packet handle_error
on_packet-Kept s o off (packet_ok, bs, a) = handle_uart_packet-Unsent s o off (packet_of_bytes bs)
on_packet-Kept s o off (packet_incomplete, bs, a) = refl
on_packet-Kept s o off (packet_bad, bs, a) = refl
on_packet-Kept s o off (packet_checksum_bad, bs, a) = refl
on_packet-Kept s o off (packet_complete, bs, a) = refl

uart_receive-Kept :
    (s : Server) (o : Outcome) (rx : Receiver) (r : SerialRead)
    → s.network_active ≡ false
    → OnSome Kept (uart_receive s o rx r)
unfolding uart_receive
uart_receive-Kept s o rx failed off = refl
uart_receive-Kept s o rx (received []) off = refl
uart_receive-Kept s o rx (received (b ∷ bs)) off =
    elim (Bool-cases (ltb frame_size (length (b ∷ bs)))) [
      | inl over_long ↦ rw over_long tt
      | inr fits ↦ rw fits (
          OnSome-bind Kept (deserialize rx.assembler (b ∷ bs) rx.packet)
            (λ r. some (on_packet s o r)) (on_packet-Kept s o off))
    ]

NoneReading-replace :
    (before after : List Worker) (w w' : Worker)
    → w'.phase ≢ reading
    → NoneReading (before ++ w ∷ after)
    → NoneReading (before ++ w' ∷ after)
NoneReading-replace [] after w w' ne h = (ne, h.1)
NoneReading-replace (v ∷ before) after w w' ne h =
    (h.0, NoneReading-replace before after w w' ne h.1)

NoneReading-middle :
    (before after : List Worker) (w : Worker)
    → NoneReading (before ++ w ∷ after)
    → w.phase ≢ reading
NoneReading-middle [] after w h = h.0
NoneReading-middle (v ∷ before) after w h = NoneReading-middle before after w h.1

-- A worker goes on to another phase than `reading`.
moves_on :
    (workers before after : List Worker) (w w' : Worker)
    → workers ≡ before ++ w ∷ after
    → w'.phase ≢ reading
    → NoneReading workers
    → NoneReading (before ++ w' ∷ after)
moves_on workers before after w w' e ne h =
    NoneReading-replace before after w w' ne (subst NoneReading e h)

-- One step keeps the silence.
Step-IsSilent : {y z : System} {es : List Event} → Step y es z → IsSilent y → IsSilent z
Step-IsSilent (test r at) v = record {
  inactive = v.inactive;
  quiet = v.inactive;
  none_reading = v.none_reading;
}
Step-IsSilent {y} (handle {s' = s'} {rx = rx} {es = es} o active r at e) v =
    let off : active ≡ false = subst Quiet at v.quiet in
    let unsent : sends es ≡ false =
      of_OnSome Kept
        (uart_receive-Kept (record y.server { network_active = active }) o y.receiver r off) e in
    record { inactive = v.inactive; quiet = rw unsent tt; none_reading = v.none_reading }
Step-IsSilent (assign active at) v = record {
  inactive = subst Quiet at v.quiet;
  quiet = tt;
  none_reading = v.none_reading;
}
Step-IsSilent (accept conn buffer) v = record {
  inactive = v.inactive;
  quiet = v.quiet;
  none_reading = ((λ e. cc), v.none_reading);
}
Step-IsSilent (enter before after w e t on) v = cc (on, v.inactive)
Step-IsSilent (read before after w r e t) v =
    absurd (NoneReading-middle before after w (subst NoneReading e v.none_reading) t)
Step-IsSilent {y} (serve before after w st r buffer e t run) v = record {
  inactive = v.inactive;
  quiet = v.quiet;
  none_reading =
      moves_on y.workers before after w (record w { buffer = buffer; phase = testing }) e (λ q. cc)
        v.none_reading;
}
Step-IsSilent {y} (leave before after w e t off) v = record {
  inactive = v.inactive;
  quiet = v.quiet;
  none_reading =
      moves_on y.workers before after w (record w { phase = leaving }) e (λ q. cc) v.none_reading;
}
Step-IsSilent {y} (reset before after w e t) v = record {
  inactive = unfold worker_exit in v.inactive;
  quiet = v.quiet;
  none_reading =
      moves_on y.workers before after w (record w { phase = over }) e (λ q. cc) v.none_reading;
}
Step-IsSilent (hello st e) v = v

-- From a state in which the network is down, no worker waits in `sslRead`, and the thread of the serial
-- port is neither in a handler that found the network active nor about to set the flag behind an
-- `sslWrite`: no sequence of steps brings the network up again, however many clients connect, and the
-- state stays like this.
pub Reach-IsSilent : {y z : System} {es : List Event} → IsSilent y → Reach y es z → IsSilent z
Reach-IsSilent v here = v
Reach-IsSilent v (next r st) = Step-IsSilent st (Reach-IsSilent v r)
