-- ===== src/Server/Start.antt =====
-- `main` of tls-alex-server.cpp: the settings of the server of the Pi, and whom it lets in.
use mathlib.Core.Bool.{Bool, true, false}
use cg2111a_final_project.Base.{
  ℕ, ◌≡◌, refl, sym, subst, ◌⊎◌, inl, inr, List, [], ◌∷◌, some, ◌==◌, ◌&&◌, Bool-cases, ==_iff,
}
use cg2111a_final_project.Base.Int.{is_positive}
use cg2111a_final_project.Tls.Names.{Name, strncpy}
use cg2111a_final_project.Tls.Common.{Ssl}
use cg2111a_final_project.Tls.Listener.{Listener, Incoming, create_server, listen_loop}
use cg2111a_final_project.Tls.Listener.Trust.{workers, sessions, trusted, workers-listen_loop}

abbrev pub key_fname : Name
key_fname = b'a' ∷ b'l' ∷ b'e' ∷ b'x' ∷ b'.' ∷ b'k' ∷ b'e' ∷ b'y' ∷ []

abbrev pub cert_fname : Name
cert_fname = b'a' ∷ b'l' ∷ b'e' ∷ b'x' ∷ b'.' ∷ b'c' ∷ b'r' ∷ b't' ∷ []

abbrev pub ca_cert_fname : Name
ca_cert_fname = b's' ∷ b'i' ∷ b'g' ∷ b'n' ∷ b'i' ∷ b'n' ∷ b'g' ∷ b'.' ∷ b'p' ∷ b'e' ∷ b'm' ∷ []

abbrev pub client_name : Name
client_name = b'a' ∷ b'n' ∷ b'd' ∷ b'y' ∷ []

abbrev pub server_port : ℕ
server_port = 5001

-- The call of `createServer`.
unfoldable pub create_alex : Listener → Listener
create_alex l = create_server l key_fname cert_fname server_port ca_cert_fname client_name true

-- A connection that arrived with this descriptor has passed the handshake and sent a certificate that
-- OpenSSL found valid.
abbrev pub Verified : ℕ → List (Bool × Incoming) → ℕ → Type 0
Verified valid [] fd = ⊥
Verified valid ((exit_flag, i) ∷ rounds) fd =
    ((i.fd ≡ fd)
      × (is_positive i.accepted ≡ true)
      × (i.has_certificate ≡ true)
      × (i.verify_result ≡ valid))
    ⊎ Verified valid rounds fd

-- Each session verifies the name `andy` of a verified connection.
abbrev pub AllVerified : ℕ → List (Bool × Incoming) → List Ssl → Type 0
AllVerified valid rounds [] = Unit
AllVerified valid rounds (s ∷ ss) =
    (s.host ≡ some (strncpy 128 client_name))
    × Verified valid rounds s.fd
    × AllVerified valid rounds ss

AllVerified-later :
    (valid : ℕ) (r : Bool × Incoming) (rounds : List (Bool × Incoming)) (ss : List Ssl)
    → AllVerified valid rounds ss
    → AllVerified valid (r ∷ rounds) ss
AllVerified-later valid r rounds [] h = tt
AllVerified-later valid r rounds (s ∷ ss) h =
    (h.0, inr h.1, AllVerified-later valid r rounds ss h.2)

all_three : (a b c : Bool) → (a && (b && c)) ≡ true → (a ≡ true) × (b ≡ true) × (c ≡ true)
all_three true true c e = (refl, refl, e)
all_three true false c e = cc
all_three false b c e = cc

sessions-AllVerified :
    (valid : ℕ) (l : Listener) (rounds : List (Bool × Incoming))
    → AllVerified valid rounds (sessions valid (create_alex l) rounds)
unfolding create_alex create_server
sessions-AllVerified valid l [] = tt
sessions-AllVerified valid l ((true, i) ∷ rounds) = tt
sessions-AllVerified valid l ((false, i) ∷ rounds) =
    let later =
      AllVerified-later valid (false, i) rounds (sessions valid (create_alex l) rounds)
        (sessions-AllVerified valid l rounds) in
    elim (Bool-cases (trusted valid (create_alex l) i)) [
      | inl held ↦
          let (shaken, known, good) =
            all_three (is_positive i.accepted) i.has_certificate (i.verify_result == valid) held in
          rw held (refl, inl (refl, shaken, known, (==_iff i.verify_result valid).0 good), later)
      | inr refused ↦ rw refused later
    ]

-- The server of the Pi, with the settings of its `main`, starts workers only on sessions that verify the
-- name `andy`, for connections whose handshake succeeded and that sent a certificate which OpenSSL found
-- valid, whatever connections arrive and whenever the exit flag is set.
pub create_alex-AllVerified :
    (valid : ℕ) (l : Listener) (rounds : List (Bool × Incoming))
    → AllVerified valid rounds (workers (listen_loop valid (create_alex l) rounds))
create_alex-AllVerified valid l rounds =
    subst (AllVerified valid rounds) (sym (workers-listen_loop valid (create_alex l) rounds))
      (sessions-AllVerified valid l rounds)
