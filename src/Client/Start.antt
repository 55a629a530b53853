-- ===== src/Client/Start.antt =====
-- `connectToServer` and the start of `main` of tls-alex-client.cpp.
use cg2111a_final_project.Base.{ℕ, [], ◌∷◌, true}
use cg2111a_final_project.Tls.Names.{Name}
use cg2111a_final_project.Tls.Dialer.{Dialer, create_client}
use cg2111a_final_project.Client.{Client}

abbrev pub ca_cert_fname : Name
ca_cert_fname = b's' ∷ b'i' ∷ b'g' ∷ b'n' ∷ b'i' ∷ b'n' ∷ b'g' ∷ b'.' ∷ b'p' ∷ b'e' ∷ b'm' ∷ []

abbrev pub client_cert_fname : Name
client_cert_fname = b'l' ∷ b'a' ∷ b'p' ∷ b't' ∷ b'o' ∷ b'p' ∷ b'.' ∷ b'c' ∷ b'r' ∷ b't' ∷ []

abbrev pub client_key_fname : Name
client_key_fname = b'l' ∷ b'a' ∷ b'p' ∷ b't' ∷ b'o' ∷ b'p' ∷ b'.' ∷ b'k' ∷ b'e' ∷ b'y' ∷ []

abbrev pub server_name_on_cert : Name
server_name_on_cert = b'a' ∷ b'l' ∷ b'e' ∷ b'x' ∷ []

-- `connectToServer(serverName, portNum)`, with both threads.
unfoldable pub connect_to_server : Dialer → Name → ℕ → Dialer
connect_to_server d server port =
    create_client d server port true ca_cert_fname server_name_on_cert true client_cert_fname
      client_key_fname true true

-- `main` sets `networkActive` before it connects.
unfoldable pub start : Client → Client
start s = record s { network_active = true }
