-- ===== src/Tls/Dialer.antt =====
-- make_tls_client.cpp and tls_client_lib.cpp: the thread of the client that connects to the server.
pub mod Threads
use cg2111a_final_project.Base.{
  ℕ, ◌≡◌, List, [], ◌∷◌, ◌++◌, Option, none, some, ◌>>=◌, Bool, true, false, not, ◌==◌,
  if◌then◌else◌,
}
use cg2111a_final_project.Base.Int.{ℤ, pos, is_negative}
use cg2111a_final_project.Tls.Names.{Name, strncpy}
use cg2111a_final_project.Tls.Common.{
  Context, create_context, configure_context, Ssl, set_host_verification, verify_certificate,
}

abbrev pub max_fname_len : ℕ
max_fname_len = 128

abbrev pub max_host_name_len : ℕ
max_host_name_len = 256

-- The static variables; the names are arrays, and the two threads are given or NULL.
pub record Dialer : Type 0 where
  pub exit_flag : Bool
  pub server_name : List ℕ
  pub server_port : ℕ
  pub verify_server : Bool
  pub ca_cert_fname : List ℕ
  pub send_cert : Bool
  pub client_cert_fname : List ℕ
  pub client_key_fname : List ℕ
  pub server_name_on_cert : List ℕ
  pub has_reader : Bool
  pub has_writer : Bool

pub data Signal : Type 0 where
  interrupt terminate kill : Signal

-- The three handlers set the flag.
unfoldable pub on_signal : Dialer → Signal → Dialer
on_signal d interrupt = record d { exit_flag = true }
on_signal d terminate = record d { exit_flag = true }
on_signal d kill = record d { exit_flag = true }

unfoldable pub client_is_running : Dialer → Bool
client_is_running d = not d.exit_flag

unfoldable pub stop_client : Dialer → Dialer
stop_client d = record d { exit_flag = true }

-- `createClient`, up to the thread that it starts.
unfoldable pub create_client :
    Dialer → Name → ℕ → Bool → Name → Name → Bool → Name → Name → Bool → Bool → Dialer
create_client d server port verify ca on_cert send cert key reader writer =
    let named = record d {
      server_name = strncpy max_host_name_len server;
      server_port = port;
      verify_server = verify;
      send_cert = send;
      has_reader = reader;
      has_writer = writer;
    } in
    let checked =
      if verify
      then record named {
        ca_cert_fname = strncpy max_fname_len ca;
        server_name_on_cert = strncpy max_host_name_len on_cert;
      }
      else named in
    if send
    then record checked {
      client_cert_fname = strncpy max_fname_len cert;
      client_key_fname = strncpy max_fname_len key;
    }
    else checked

-- What the calls answer: `socket`, `gethostbyname`, OpenSSL for its context and the two files,
-- `connect`, the verification of the certificate, and `SSL_connect`, whose answer depends on whether the
-- context verifies the peer (SSL_VERIFY_PEER, with a callback that returns OpenSSL's own verdict) and
-- on whether the certificate is valid.
pub record Dial : Type 0 where
  pub socket : ℤ
  pub host_found : Bool
  pub allocated : Bool
  pub cert_read : ℤ
  pub key_read : ℤ
  pub connected : ℤ
  pub verify_result : ℕ
  pub handshake : Bool → Bool → ℤ

pub data Event : Type 0 where
  no_socket no_host no_connection no_session print_errors : Event
  close_socket free_context thread_cleanup cleanup_openssl : Event
  ssl_free : Ssl → Event
  free_unset free_unset_context : Event
  print_certificate : Ssl → Event
  certificate_error certificate_valid : Event
  spawn_writer spawn_reader : Ssl → Event
  closing exit : Event

unfoldable pub is_one : ℤ → Bool
is_one (pos n) = n == 1
is_one c = false

-- `connectSSL(ctx, fd, hostName)`, where OpenSSL's X509_V_OK is `valid`; `none` is NULL. The host name
-- is not used.
unfoldable pub connect_ssl : ℕ → Dial → Context → ℕ → Option Ssl × List Event
connect_ssl valid o ctx fd =
    let ssl : Ssl = record { fd = fd; host = none } in
    if is_one (o.handshake ctx.verify (verify_certificate valid o.verify_result))
    then (some ssl, [])
    else (none, print_errors ∷ ssl_free ssl ∷ [])

-- `_closeAndExit`: the macro closes and frees, and does not exit.
abbrev pub close_and_exit : Ssl → List Event
close_and_exit ssl =
    close_socket ∷ ssl_free ssl ∷ free_context ∷ thread_cleanup ∷ cleanup_openssl ∷ []

-- The verification of the server.
unfoldable pub check_server : ℕ → Dialer → Dial → Ssl → Ssl × List Event
check_server valid d o ssl =
    if d.verify_server
    then (let ssl' = set_host_verification ssl d.server_name_on_cert in
        (
          ssl',
          print_certificate ssl
              ∷ (if verify_certificate valid o.verify_result
                  then certificate_valid ∷ []
                  else certificate_error ∷ close_and_exit ssl'),
        ))
    else (ssl, [])

-- The two threads.
unfoldable pub start_threads : Dialer → Ssl → List Event
start_threads d ssl =
    (if d.has_writer then spawn_writer ssl ∷ [] else [])
    ++ (if d.has_reader then spawn_reader ssl ∷ [] else [])

-- From the session on, until the exit flag is set.
unfoldable pub serve : ℕ → Dialer → Dial → Ssl → List Event
serve valid d o ssl =
    let (ssl', events) = check_server valid d o ssl in
    events ++ (start_threads d ssl' ++ (closing ∷ close_and_exit ssl'))

-- The context with the files that the client sends; `none` is `exit(-1)`.
unfoldable pub client_context : Dialer → Dial → Option Context
client_context d o = create_context o.allocated d.ca_cert_fname d.verify_server false >>= λ ctx.
    if d.send_cert
    then configure_context o.cert_read o.key_read ctx d.client_cert_fname d.client_key_fname
    else some ctx

unfoldable pub dial : ℕ → Dialer → Dial → ℕ → Option Context → List Event
dial valid d o fd none = exit ∷ []
dial valid d o fd (some ctx) =
    if is_negative o.connected
    then no_connection ∷ exit ∷ []
    else (let (ssl, events) = connect_ssl valid o ctx fd in events ++ on_session ssl)
  where
    on_session : Option Ssl → List Event
    on_session none = no_session ∷ exit ∷ []
    on_session (some ssl) = serve valid d o ssl

-- `_client_loop`, where `fd` is the socket's number.
unfoldable pub client_loop : ℕ → Dialer → Dial → ℕ → List Event
client_loop valid d o fd =
    if is_negative o.socket
    then no_socket ∷ exit ∷ []
    else (if o.host_found
        then dial valid d o fd (client_context d o)
        else no_host ∷ close_socket ∷ free_unset ∷ free_unset_context ∷ thread_cleanup
          ∷ cleanup_openssl ∷ exit ∷ [])
