-- ===== src/Tls/Listener.antt =====
-- make_tls_server.cpp and tls_server_lib.cpp: the listener of the server.
pub mod Trust
use cg2111a_final_project.Base.{
  ℕ, ◌≡◌, List, [], ◌∷◌, ◌++◌, Option, none, some, ◌>>=◌, Bool, true, false, not, ◌==◌,
  if◌then◌else◌,
}
use cg2111a_final_project.Base.Int.{ℤ, is_positive, is_negative}
use cg2111a_final_project.Tls.Names.{Name, strncpy}
use cg2111a_final_project.Tls.Common.{
  Context, create_context, configure_context, Ssl, set_host_verification, verify_certificate,
}

abbrev pub max_filename_len : ℕ
max_filename_len = 128

abbrev pub max_domain_name_len : ℕ
max_domain_name_len = 128

-- The static variables; the names are arrays.
pub record Listener : Type 0 where
  pub exit_flag : Bool
  pub port_num : ℕ
  pub key_filename : List ℕ
  pub cert_filename : List ℕ
  pub verify_peer : Bool
  pub ca_cert_filename : List ℕ
  pub client_name : List ℕ

pub data Signal : Type 0 where
  interrupt terminate kill : Signal

-- The three handlers set the flag.
unfoldable pub on_signal : Listener → Signal → Listener
on_signal l interrupt = record l { exit_flag = true }
on_signal l terminate = record l { exit_flag = true }
on_signal l kill = record l { exit_flag = true }

unfoldable pub server_is_running : Listener → Bool
server_is_running l = not l.exit_flag

-- `createServer`, up to the thread that it starts.
unfoldable pub create_server : Listener → Name → Name → ℕ → Name → Name → Bool → Listener
create_server l key cert port ca client verify =
    let named = record l {
      port_num = port;
      key_filename = strncpy max_filename_len key;
      cert_filename = strncpy max_filename_len cert;
      verify_peer = verify;
    } in
    if verify
    then record named {
      ca_cert_filename = strncpy max_filename_len ca;
      client_name = strncpy max_domain_name_len client;
    }
    else named

-- What the calls before the loop answer: `socket`, `bind`, `listen`, and OpenSSL for its context and
-- the two files.
pub record Setup : Type 0 where
  pub socket : ℤ
  pub bound : ℤ
  pub listening : ℤ
  pub allocated : Bool
  pub cert_read : ℤ
  pub key_read : ℤ

-- `_tls_listener` up to its loop; `none` is `exit(-1)`.
unfoldable pub prepare : Listener → Setup → Option Context
prepare l o =
    if is_negative o.socket
    then none
    else (if is_negative o.bound
        then none
        else (if is_negative o.listening
            then none
            else (create_context o.allocated l.ca_cert_filename l.verify_peer true >>= λ ctx.
                configure_context o.cert_read o.key_read ctx l.cert_filename l.key_filename)))

-- A connection that `accept` returned: its descriptor, what `SSL_accept` answers, whether the peer has
-- sent a certificate, and the result of its verification.
pub record Incoming : Type 0 where
  pub fd : ℕ
  pub accepted : ℤ
  pub has_certificate : Bool
  pub verify_result : ℕ

pub data Event : Type 0 where
  connection_received print_errors no_certificate : Event
  ssl_free : Ssl → Event
  print_certificate : Ssl → Event
  certificate_error certificate_valid : Event
  spawn_worker : Ssl → Event
  shut_down : Event

-- `connectSSL(ctx, fd, common_name)`; `none` is NULL.
unfoldable pub connect_ssl : Incoming → Option Name → Option Ssl × List Event
connect_ssl i common_name =
    let ssl = host_of (record { fd = i.fd; host = none }) common_name in
    if is_positive i.accepted
    then (if i.has_certificate then (some ssl, []) else (none, no_certificate ∷ ssl_free ssl ∷ []))
    else (none, print_errors ∷ ssl_free ssl ∷ [])
  where
    host_of : Ssl → Option Name → Ssl
    host_of ssl none = ssl
    host_of ssl (some name) = set_host_verification ssl name

-- What the loop does with the session.
unfoldable pub admit : ℕ → Listener → Incoming → Option Ssl → List Event
admit valid l i none = []
admit valid l i (some ssl) =
    if l.verify_peer
    then (print_certificate ssl
        ∷ (if verify_certificate valid i.verify_result
            then certificate_valid ∷ spawn_worker ssl ∷ []
            else certificate_error ∷ []))
    else spawn_worker ssl ∷ []

-- One round of the loop.
unfoldable pub listen_round : ℕ → Listener → Incoming → List Event
listen_round valid l i =
    let (ssl, events) = connect_ssl i (if l.verify_peer then some l.client_name else none) in
    connection_received ∷ (events ++ admit valid l i ssl)

-- The loop: each round comes with the value of the flag when it is tested.
unfoldable pub listen_loop : ℕ → Listener → List (Bool × Incoming) → List Event
listen_loop valid l [] = []
listen_loop valid l ((exit_flag, i) ∷ rounds) =
    let rest = listen_loop valid l rounds in
    if exit_flag then shut_down ∷ [] else listen_round valid l i ++ rest
