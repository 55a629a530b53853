-- ===== src/Tls/Tests.antt =====
-- The theorems on the TLS library at concrete answers of OpenSSL.
use cg2111a_final_project.Base.{◌≡◌, refl, [], ◌∷◌, Bool, true, false, ◌&&◌, if◌then◌else◌}
use cg2111a_final_project.Base.Int.{ℤ, pos, negsuc}
use cg2111a_final_project.Tls.Names.{Name, AllNonzero}
use cg2111a_final_project.Tls.Common.{
  create_context, configure_context, verify_certificate, set_host_verification,
}
use cg2111a_final_project.Tls.Listener.{Listener, Incoming, listen_loop}
use cg2111a_final_project.Tls.Listener.Trust.{workers, sessions, workers-listen_loop}
use cg2111a_final_project.Tls.Dialer.{
  Dialer, Dial, client_context, client_loop, is_one, dial, connect_ssl, serve, check_server,
  start_threads,
}
use cg2111a_final_project.Tls.Dialer.Threads.{
  Checks, started, reaches, trusts, both, peer, started-client_loop,
}

abbrev key_pem : Name
key_pem = b'a' ∷ b'.' ∷ b'k' ∷ []

key_pem-AllNonzero : AllNonzero key_pem
key_pem-AllNonzero = ((λ e. cc), ((λ e. cc), ((λ e. cc), tt)))

abbrev pub strict : Listener
strict = record {
  exit_flag = false;
  port_num = 5001;
  key_filename = key_pem;
  cert_filename = key_pem;
  verify_peer = true;
  ca_cert_filename = key_pem;
  client_name = key_pem;
}

abbrev pub good_peer : Incoming
good_peer = record { fd = 4; accepted = pos 1; has_certificate = true; verify_result = 0 }

abbrev pub bad_peer : Incoming
bad_peer = record good_peer { fd = 5; verify_result = 20 }

workers-listen_loop_example :
    workers (listen_loop 0 strict ((false, bad_peer) ∷ (false, good_peer) ∷ (true, good_peer) ∷ []))
    ≡ sessions 0 strict ((false, bad_peer) ∷ (false, good_peer) ∷ (true, good_peer) ∷ [])
workers-listen_loop_example =
    workers-listen_loop 0 strict ((false, bad_peer) ∷ (false, good_peer) ∷ (true, good_peer) ∷ [])

abbrev dialer : Dialer
dialer = record {
  exit_flag = false;
  server_name = key_pem;
  server_port = 5001;
  verify_server = true;
  ca_cert_fname = key_pem;
  send_cert = true;
  client_cert_fname = key_pem;
  client_key_fname = key_pem;
  server_name_on_cert = key_pem;
  has_reader = true;
  has_writer = true;
}

-- An OpenSSL that checks the certificate.
abbrev careful : Bool → Bool → ℤ
careful true false = negsuc 0
careful true true = pos 1
careful false good = pos 1

abbrev welcome : Dial
welcome = record {
  socket = pos 3;
  host_found = true;
  allocated = true;
  cert_read = pos 1;
  key_read = pos 1;
  connected = pos 0;
  verify_result = 0;
  handshake = careful;
}

careful-Checks : Checks welcome
unfolding is_one
careful-Checks = refl

-- A writer and a reader are started.
welcomed : started (client_loop 0 dialer welcome 3) ≡ peer dialer 3 ∷ peer dialer 3 ∷ []
unfolding client_loop dial connect_ssl serve check_server start_threads client_context
    create_context configure_context is_one verify_certificate set_host_verification
welcomed = refl

started-client_loop_example : started (client_loop 0 dialer welcome 3) ≡ (
    if reaches 0 dialer welcome && trusts 0 dialer welcome then both dialer (peer dialer 3) else [])
started-client_loop_example = started-client_loop 0 dialer welcome 3 careful-Checks
