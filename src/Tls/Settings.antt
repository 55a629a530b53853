-- ===== src/Tls/Settings.antt =====
-- What `createServer` and `createClient` keep of the names that they are given.
use cg2111a_final_project.Base.{ℕ, ◌≡◌, Option, some, none, Bool, true, ltb, length, if◌then◌else◌}
use cg2111a_final_project.Tls.Names.{Name, AllNonzero, string_of, string_of-strncpy}
use cg2111a_final_project.Tls.Listener as Listener
use cg2111a_final_project.Tls.Listener.{create_server}
use cg2111a_final_project.Tls.Dialer as Dialer
use cg2111a_final_project.Tls.Dialer.{create_client}

-- A name that leaves room for its terminator among `n` bytes, or a read past the end.
abbrev pub within : ℕ → Name → Option Name
within n name = if ltb (length name) n then some name else none

-- A server that verifies its peers: read as strings, the four stored names are those given if they have
-- less than 128 bytes, and one that is longer has no terminator.
pub create_server_lem :
    (l : Listener.Listener) (key cert ca client : Name) (port : ℕ)
    → AllNonzero key
    → AllNonzero cert
    → AllNonzero ca
    → AllNonzero client
    → (string_of (create_server l key cert port ca client true).key_filename ≡ within 128 key)
      × (string_of (create_server l key cert port ca client true).cert_filename ≡ within 128 cert)
      × (string_of (create_server l key cert port ca client true).ca_cert_filename ≡ within 128 ca)
      × (string_of (create_server l key cert port ca client true).client_name ≡ within 128 client)
unfolding create_server
create_server_lem l key cert ca client port k c a n = (
  string_of-strncpy 128 key k,
  string_of-strncpy 128 cert c,
  string_of-strncpy 128 ca a,
  string_of-strncpy 128 client n,
)

-- A client that verifies the server and sends its certificate: the host names have room for 255 bytes,
-- the file names for 127.
pub create_client_lem :
    (d : Dialer.Dialer) (server ca on_cert cert key : Name) (port : ℕ) (reader writer : Bool)
    → AllNonzero server
    → AllNonzero ca
    → AllNonzero on_cert
    → AllNonzero cert
    → AllNonzero key
    → (string_of
          (create_client d server port true ca on_cert true cert key reader writer).server_name
        ≡ within 256 server)
      × (string_of
            (create_client d server port true ca on_cert true cert key reader writer).ca_cert_fname
          ≡ within 128 ca)
      × (string_of
            (create_client d server port true ca on_cert true cert key reader
              writer).server_name_on_cert
          ≡ within 256 on_cert)
      × (string_of
            (create_client d server port true ca on_cert true cert key reader
              writer).client_cert_fname
          ≡ within 128 cert)
      × (string_of
            (create_client d server port true ca on_cert true cert key reader
              writer).client_key_fname
          ≡ within 128 key)
unfolding create_client
create_client_lem d server ca on_cert cert key port reader writer s a o c k = (
  string_of-strncpy 256 server s,
  string_of-strncpy 128 ca a,
  string_of-strncpy 256 on_cert o,
  string_of-strncpy 128 cert c,
  string_of-strncpy 128 key k,
)
