-- ===== src/Tls.antt =====
-- The TLS library of both programs: tls_common_lib.cpp, make_tls_server.cpp, make_tls_client.cpp and
-- their helpers. What OpenSSL and the operating system answer is an argument of the definitions; what
-- the code does with them is a list of effects.
pub mod Names
pub mod Common
pub mod Listener
pub mod Dialer
pub mod Settings
pub mod Locks
pub mod Tests
