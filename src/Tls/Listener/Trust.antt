-- ===== src/Tls/Listener/Trust.antt =====
-- Whom the listener lets in.
use cg2111a_final_project.Base.{
  ℕ, ◌≡◌, refl, ap, ap₂, ◌∙◌, inl, inr, List, [], ◌∷◌, ◌++◌, none, some, Bool, true, false, ◌&&◌,
  ◌==◌, if◌then◌else◌, Bool-cases,
}
use cg2111a_final_project.Base.Int.{is_positive}
use cg2111a_final_project.Tls.Common.{Ssl, set_host_verification, verify_certificate}
use cg2111a_final_project.Tls.Listener.{
  Listener, Incoming, Event, connection_received, print_errors, no_certificate, ssl_free,
  print_certificate, certificate_error, certificate_valid, spawn_worker, shut_down, connect_ssl,
  admit, listen_round, listen_loop,
}

-- The sessions for which a worker thread is started, in order.
abbrev pub workers : List Event → List Ssl
workers [] = []
workers (spawn_worker s ∷ es) = s ∷ workers es
workers (e ∷ es) = workers es

workers-append : (es fs : List Event) → workers (es ++ fs) ≡ workers es ++ workers fs
workers-append [] fs = refl
workers-append (spawn_worker s ∷ es) fs = ap (λ l. s ∷ l) (workers-append es fs)
workers-append (connection_received ∷ es) fs = workers-append es fs
workers-append (print_errors ∷ es) fs = workers-append es fs
workers-append (no_certificate ∷ es) fs = workers-append es fs
workers-append (ssl_free s ∷ es) fs = workers-append es fs
workers-append (print_certificate s ∷ es) fs = workers-append es fs
workers-append (certificate_error ∷ es) fs = workers-append es fs
workers-append (certificate_valid ∷ es) fs = workers-append es fs
workers-append (shut_down ∷ es) fs = workers-append es fs

-- The handshake has succeeded, the peer has sent a certificate, and, if the server verifies, it is valid.
abbrev pub trusted : ℕ → Listener → Incoming → Bool
trusted valid l i =
    is_positive i.accepted
    && (i.has_certificate && (if l.verify_peer then i.verify_result == valid else true))

-- A session, with the client's name to verify if the server verifies.
abbrev pub session : Listener → Incoming → Ssl
session l i = record { fd = i.fd; host = if l.verify_peer then some l.client_name else none }

abbrev pub sessions : ℕ → Listener → List (Bool × Incoming) → List Ssl
sessions valid l [] = []
sessions valid l ((exit_flag, i) ∷ rounds) =
    let rest = sessions valid l rounds in
    if exit_flag then [] else (if trusted valid l i then session l i ∷ rest else rest)

round_workers :
    (valid : ℕ) (l : Listener) (i : Incoming)
    → workers (listen_round valid l i) ≡ (if trusted valid l i then session l i ∷ [] else [])
unfolding listen_round connect_ssl admit set_host_verification verify_certificate
round_workers valid l i = elim (Bool-cases (is_positive i.accepted)) [
  | inr failed ↦ simp failed refl
  | inl accepted ↦ elim (Bool-cases i.has_certificate) [
    | inr anonymous ↦ simp (accepted, anonymous) refl
    | inl known ↦ elim (Bool-cases l.verify_peer) [
      | inr lax ↦ simp (accepted, known, lax) refl
      | inl strict ↦ elim (Bool-cases (i.verify_result == valid)) [
        | inl good ↦ simp (accepted, known, strict, good) refl
        | inr wrong ↦ simp (accepted, known, strict, wrong) refl
      ]
    ]
  ]
]

-- Whatever connections arrive until the exit flag is set: a worker is started for exactly those whose
-- handshake succeeded and that sent a certificate, which is valid if the server verifies its peers, in
-- order and with the client's name as the host that the session verifies.
pub workers-listen_loop :
    (valid : ℕ) (l : Listener) (rounds : List (Bool × Incoming))
    → workers (listen_loop valid l rounds) ≡ sessions valid l rounds
unfolding listen_loop
workers-listen_loop valid l [] = refl
workers-listen_loop valid l ((true, i) ∷ rounds) = refl
workers-listen_loop valid l ((false, i) ∷ rounds) =
    workers-append (listen_round valid l i) (listen_loop valid l rounds)
    ∙ ap₂ (λ es fs. es ++ fs) (round_workers valid l i) (workers-listen_loop valid l rounds)
    ∙ one_more
  where
    one_more : (if trusted valid l i then session l i ∷ [] else []) ++ sessions valid l rounds ≡ (
        if trusted valid l i
        then session l i ∷ sessions valid l rounds
        else sessions valid l rounds)
    one_more = elim (Bool-cases (trusted valid l i)) [
      | inl held ↦ rw held refl
      | inr refused ↦ rw refused refl
    ]
