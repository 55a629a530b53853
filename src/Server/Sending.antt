-- ===== src/Server/Sending.antt =====
-- What the Pi sends to the TLS client.
use mathlib.Core.Bool.{true}
use cg2111a_final_project.Base.{
  ℕ, ◌≡◌, refl, ◌⊎◌, inl, inr, List, [], ◌∷◌, ◌++◌, Option, none, some, arith, length, Bool-cases,
}
use cg2111a_final_project.Base.Int.{is_negative}
use cg2111a_final_project.Base.Switch.{switch_rule}
use cg2111a_final_project.Wire.Packet.{Packet, IsPacket, words_bytes, length-words_bytes}
use cg2111a_final_project.Server.{
  Server, Conn, Line, Event, print, ssl_write, serial_write, Outcome, send_network_data, write_to,
  command_ok, boo, uart_error, uart_status, uart_color, uart_ultrasonic, uart_buzzer, uart_manual,
  hello_from_arduino,
}
use cg2111a_final_project.Wire.Constants.Net
use cg2111a_final_project.Wire.Constants.Response
use cg2111a_final_project.Server.Uart.{
  text_of, response_cases, uart_cases, report, forwarded, manual_then_hello, handle_uart_packet,
  handle_response, handle_error_response, handle_ultrasonic_message, handle_color_message,
  handle_message, handle_buzzer_message, handle_mode_message, handle_status,
}

-- Every write to a TLS connection among the events satisfies `P`.
abbrev pub AllSent {ℓ} : (Conn → List ℕ → Type ℓ) → List Event → Type ℓ
AllSent P [] = Unit
AllSent P (ssl_write c bs ∷ es) = P c bs × AllSent P es
AllSent P (print l ∷ es) = AllSent P es
AllSent P (serial_write bs ∷ es) = AllSent P es

AllSent-append {ℓ} :
    (P : Conn → List ℕ → Type ℓ) (es fs : List Event)
    → AllSent P es
    → AllSent P fs
    → AllSent P (es ++ fs)
AllSent-append P [] fs h k = k
AllSent-append P (ssl_write c bs ∷ es) fs h k = (h.0, AllSent-append P es fs h.1 k)
AllSent-append P (print l ∷ es) fs h k = AllSent-append P es fs h k
AllSent-append P (serial_write bs ∷ es) fs h k = AllSent-append P es fs h k

-- To the stored connection, while the network is active, two bytes or sixty-five.
abbrev pub Proper : Server → Conn → List ℕ → Type 0
Proper s c bs =
    (s.network_active ≡ true) × (s.tls_conn ≡ some c) × ((length bs ≡ 2) ⊎ (length bs ≡ 65))

abbrev Sends : Server → Server × List Event → Type 0
Sends s out = AllSent (Proper s) out.1

write_to-Proper :
    (conn : Option Conn) (s : Server) (o : Outcome) (bs : List ℕ)
    → s.network_active ≡ true
    → s.tls_conn ≡ conn
    → (length bs ≡ 2) ⊎ (length bs ≡ 65)
    → AllSent (Proper s) (write_to conn o bs).1
unfolding write_to
write_to-Proper none s o bs a c h = tt
write_to-Proper (some conn) s o bs a c h = elim (Bool-cases (is_negative o.written)) [
  | inl bad ↦ rw bad ((a, c, h), tt)
  | inr good ↦ rw good ((a, c, h), tt)
]

send_network_data-Proper :
    (s : Server) (o : Outcome) (bs : List ℕ)
    → (length bs ≡ 2) ⊎ (length bs ≡ 65)
    → Sends s (send_network_data s o bs)
unfolding send_network_data
send_network_data-Proper s o bs h = elim (Bool-cases s.network_active) [
  | inl on ↦ simp on (write_to-Proper s.tls_conn s o bs on refl h)
  | inr off ↦ simp off tt
]

report-Proper :
    (s : Server) (o : Outcome) (l : Line) (bs : List ℕ)
    → (length bs ≡ 2) ⊎ (length bs ≡ 65)
    → Sends s (report s o l bs)
unfolding report
report-Proper s o l bs h = send_network_data-Proper s o bs h

module _ (s : Server) (o : Outcome) (p : Packet) (v : IsPacket p) where
  forwarded-Proper : (l : Line) (type : ℕ) → Sends s (report s o l (forwarded type p))
  unfolding forwarded
  forwarded-Proper l type =
      report-Proper s o l (type ∷ words_bytes p.params)
        (inr (omega (arith, length-words_bytes p.params, v.params_fit)))

  handle_response-Proper : Sends s (handle_response s o p)
  unfolding handle_response handle_status
  handle_response-Proper =
      switch_rule (Sends s) p.command (response_cases s o p) (s, print boo ∷ [])
        (
          report-Proper s o command_ok (Net.error_packet ∷ Response.ok ∷ []) (inl refl),
          (forwarded-Proper uart_status Net.status_packet, tt),
        )
        tt

  manual_then_hello-Proper : Sends s (manual_then_hello s o p)
  unfolding manual_then_hello handle_mode_message
  manual_then_hello-Proper =
      AllSent-append (Proper s) (report s o uart_manual (forwarded Net.manualmode_packet p)).1
        (print hello_from_arduino ∷ []) (forwarded-Proper uart_manual Net.manualmode_packet) tt

  -- For a packet with its sixteen parameters, what is written to the client goes to the stored
  -- connection, and only while the network is active. It has 2 or 65 bytes, so it fits the 128
  -- bytes that the client reads at a time.
  pub handle_uart_packet_sends : AllSent (Proper s) (handle_uart_packet s o p).1
  unfolding handle_uart_packet handle_error_response handle_ultrasonic_message handle_color_message
      handle_message handle_buzzer_message
  handle_uart_packet_sends =
      switch_rule (Sends s) p.packet_type (uart_cases s o p) (s, [])
        (
          tt,
          (
            handle_response-Proper,
            (
              report-Proper s o (uart_error p.command) (Net.error_packet ∷ p.command ∷ [])
                  (inl refl),
              (
                forwarded-Proper uart_ultrasonic Net.ultrasonic_message_packet,
                (
                  forwarded-Proper (uart_color (text_of (words_bytes p.params)))
                      Net.color_message_packet,
                  (
                    tt,
                    (
                      forwarded-Proper uart_buzzer Net.buzzer_packet,
                      (manual_then_hello-Proper, (tt, tt)),
                    ),
                  ),
                ),
              ),
            ),
          ),
        )
        tt
