-- ===== src/Tls/Common.antt =====
-- tls_common_lib.cpp, the same in both programs.
use cg2111a_final_project.Base.{ℕ, Option, none, some, Bool, ◌==◌, if◌then◌else◌}
use cg2111a_final_project.Base.Int.{ℤ, is_positive}
use cg2111a_final_project.Tls.Names.{Name}

-- What is set on an `SSL_CTX`. SSLv2 and SSLv3 are switched off on every context.
pub record Context : Type 0 where
  pub for_server : Bool
  pub verify : Bool
  pub depth : Option ℕ
  pub ca : Option Name
  pub certificate : Option Name
  pub private_key : Option Name

-- `create_context(CACertName, verifyPeer, isServer)`; `none` is `exit(-1)`, when OpenSSL has no context.
unfoldable pub create_context : Bool → Name → Bool → Bool → Option Context
create_context allocated ca verify_peer is_server =
    if allocated
    then some (record {
      for_server = is_server;
      verify = verify_peer;
      depth = if verify_peer then some 4 else none;
      ca = if verify_peer then some ca else none;
      certificate = none;
      private_key = none;
    })
    else none

-- `configure_context(ctx, cert_name, pkey_name)`, with what OpenSSL answers for the two files.
unfoldable pub configure_context : ℤ → ℤ → Context → Name → Name → Option Context
configure_context cert_read key_read ctx cert key =
    if is_positive cert_read
    then (if is_positive key_read
        then some (record ctx { certificate = some cert; private_key = some key })
        else none)
    else none

-- A session: the descriptor of its socket, and the host name it verifies.
pub record Ssl : Type 0 where
  pub fd : ℕ
  pub host : Option Name

-- `setHostVerification(ssl, hostname)`
unfoldable pub set_host_verification : Ssl → Name → Ssl
set_host_verification ssl name = record ssl { host = some name }

-- `verifyCertificate(ssl)`, where OpenSSL's result is `result` and `valid` is its X509_V_OK.
unfoldable pub verify_certificate : ℕ → ℕ → Bool
verify_certificate valid result = result == valid
