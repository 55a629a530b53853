-- ===== src/Tls/Dialer/Threads.antt =====
-- When the client starts its reader and its writer.
use cg2111a_final_project.Base.{
  ℕ, ◌≡◌, refl, inl, inr, List, [], ◌∷◌, ◌++◌, Option, none, some, Bool, true, false, not, ◌&&◌,
  ◌||◌, arith, ◌==◌, if◌then◌else◌, Bool-cases, Option-cases,
}
use cg2111a_final_project.Base.Int.{is_negative}
use cg2111a_final_project.Tls.Common.{
  Context, create_context, configure_context, Ssl, set_host_verification, verify_certificate,
}
use cg2111a_final_project.Tls.Dialer.{
  Dialer, Dial, Event, spawn_writer, spawn_reader, closing, is_one, connect_ssl, close_and_exit,
  check_server, start_threads, serve, client_context, dial, client_loop,
}

-- The sessions that the started threads use, in order.
abbrev pub started : List Event → List Ssl
started [] = []
started (spawn_writer s ∷ es) = s ∷ started es
started (spawn_reader s ∷ es) = s ∷ started es
started (e ∷ es) = started es

-- The session of the client. When it verifies its peer, it sets a host name on the session after the
-- handshake.
abbrev pub peer : Dialer → ℕ → Ssl
peer d fd = record { fd = fd; host = if d.verify_server then some d.server_name_on_cert else none }

abbrev is_some {ℓ} : {A : Type ℓ} → Option A → Bool
is_some none = false
is_some (some a) = true

-- The socket, the address, the context, the connection and the handshake were all had.
abbrev pub reaches : ℕ → Dialer → Dial → Bool
reaches valid d o =
    not (is_negative o.socket)
    && (o.host_found
        && (is_some (client_context d o)
            && (not (is_negative o.connected)
                && is_one (o.handshake d.verify_server (o.verify_result == valid)))))

-- What OpenSSL documents of SSL_VERIFY_PEER in a client: the handshake fails when the certificate of the
-- server is not valid.
abbrev pub Checks : Dial → Type 0
Checks o = is_one (o.handshake true false) ≡ false

-- One session for each thread that was given.
abbrev pub both : Dialer → Ssl → List Ssl
both d s = (if d.has_writer then s ∷ [] else []) ++ (if d.has_reader then s ∷ [] else [])

serve_starts :
    (valid : ℕ) (d : Dialer) (o : Dial) (fd : ℕ)
    → started (serve valid d o (record { fd = fd; host = none })) ≡ both d (peer d fd)
unfolding serve check_server start_threads set_host_verification verify_certificate
serve_starts valid d o fd = elim (Bool-cases d.verify_server) [
  | inr lax ↦ simp lax (given (record { fd = fd; host = none }))
  | inl strict ↦ elim (Bool-cases (o.verify_result == valid)) [
    | inl good ↦ simp (strict, good) (given (record { fd = fd; host = some d.server_name_on_cert }))
    | inr wrong ↦
        simp (strict, wrong) (given (record { fd = fd; host = some d.server_name_on_cert }))
  ]
]
  where
    given : (s : Ssl) → started (start_threads d s ++ (closing ∷ close_and_exit s)) ≡ both d s
    given s = elim (Bool-cases d.has_writer) [
      | inl w ↦ elim (Bool-cases d.has_reader) [
        | inl r ↦ simp (w, r) refl
        | inr r ↦ simp (w, r) refl
      ]
      | inr w ↦ elim (Bool-cases d.has_reader) [
        | inl r ↦ simp (w, r) refl
        | inr r ↦ simp (w, r) refl
      ]
    ]

client_context-verify :
    (d : Dialer) (o : Dial) (ctx : Context)
    → client_context d o ≡ some ctx
    → ctx.verify ≡ d.verify_server
unfolding client_context create_context configure_context
client_context-verify d o ctx e = ground arith

-- The certificate of the server is valid, or the client does not look at it.
abbrev pub trusts : ℕ → Dialer → Dial → Bool
trusts valid d o = not d.verify_server || (o.verify_result == valid)

reaches_trusted :
    (valid : ℕ) (d : Dialer) (o : Dial)
    → Checks o
    → is_one (o.handshake d.verify_server (o.verify_result == valid)) ≡ true
    → trusts valid d o ≡ true
reaches_trusted valid d o checks shaken = elim (Bool-cases d.verify_server) [
  | inr lax ↦ rw lax refl
  | inl strict ↦ elim (Bool-cases (o.verify_result == valid)) [
    | inl good ↦ rw (strict, good) refl
    | inr wrong ↦ absurd (cc (checks, rw (strict, wrong) at shaken))
  ]
]

-- With an OpenSSL that fails the handshake on a certificate that is not valid when the context verifies
-- the peer: the client starts the threads that were given, each on the session of that handshake,
-- exactly when it has got a socket, an address, a context, a connection and a handshake, and, if it is
-- to verify its server, the certificate is valid; otherwise it starts none.
pub started-client_loop :
    (valid : ℕ) (d : Dialer) (o : Dial) (fd : ℕ)
    → Checks o
    → started (client_loop valid d o fd)
      ≡ (if reaches valid d o && trusts valid d o then both d (peer d fd) else [])
unfolding client_loop dial connect_ssl verify_certificate
started-client_loop valid d o fd checks = elim (Bool-cases (is_negative o.socket)) [
  | inl failed ↦ simp failed refl
  | inr socket ↦ elim (Bool-cases o.host_found) [
    | inr unknown ↦ simp (socket, unknown) refl
    | inl found ↦ elim (Option-cases (client_context d o)) [
      | inl missing ↦ simp (socket, found, missing) refl
      | inr (ctx, made) ↦ elim (Bool-cases (is_negative o.connected)) [
        | inl apart ↦ simp (socket, found, made, apart) refl
        | inr connected ↦
            let same = client_context-verify d o ctx made in
            elim (Bool-cases (is_one (o.handshake d.verify_server (o.verify_result == valid)))) [
              | inl shaken ↦
                  let good = reaches_trusted valid d o checks shaken in
                  simp (socket, found, made, connected, same, shaken, good)
                    (serve_starts valid d o fd)
              | inr broken ↦ simp (socket, found, made, connected, same, broken) refl
            ]
      ]
    ]
  ]
]
