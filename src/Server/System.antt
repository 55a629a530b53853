-- ===== src/Server/System.antt =====
-- The server as a transition system: the thread of the serial port, and a worker for each connection
-- that the listener accepted. `sslRead` and `sslWrite` block, so the accesses of a thread to
-- `networkActive` and `tls_conn` are steps of their own: in `sendNetworkData` the test of the flag, the
-- write to the connection, and the assignment of the flag; in `worker` the test, the assignment
-- once `sslRead` has returned, what the handler does to `tls_conn`, and the reset at the end.
use mathlib.Core.Bool.{Bool, true, false}
use cg2111a_final_project.Base.{ℕ, ◌≡◌, List, [], ◌∷◌, ◌++◌, none, some, if◌then◌else◌}
use cg2111a_final_project.Server.{Server, Conn, Event, Line, Outcome, print, writing_to_client}
use cg2111a_final_project.Server.Commands.{Stack, send_hello}
use cg2111a_final_project.Server.Threads.{
  Receiver, SerialRead, SslRead, bytes, closed, errored, uart_receive, worker_round, worker_exit,
}

-- Where a worker stands: before the test of the loop, in `sslRead`, behind its assignment of the flag,
-- behind the loop, and at its end.
pub data Phase : Type 0 where
  testing reading : Phase
  assigned : SslRead → Phase
  leaving over : Phase

pub record Worker : Type 0 where
  pub conn : Conn
  pub buffer : List ℕ
  pub phase : Phase

-- Where the thread of the serial port stands: in `serialRead`; with a read that has returned, whose
-- handler has found the flag as it was then; and behind `sslWrite`, with what is assigned to the flag.
pub data Sending : Type 0 where
  waiting : Sending
  tested : Bool → SerialRead → Sending
  written : Bool → Sending

pub record System : Type 0 where
  pub server : Server
  pub receiver : Receiver
  pub sending : Sending
  pub workers : List Worker

-- `main` sets `networkActive` before it creates the server.
abbrev pub started : Receiver → System
started rx = record {
  server = record { network_active = true; tls_conn = none };
  receiver = rx;
  sending = waiting;
  workers = [];
}

abbrev pub announces : Line → Bool
announces writing_to_client = true
announces l = false

-- Whether a handler went past the test in `sendNetworkData`, which then prints this line.
abbrev pub sends : List Event → Bool
sends [] = false
sends (print l ∷ es) = if announces l then true else sends es
sends (e ∷ es) = sends es

abbrev pub after_handler : List Event → Server → Sending
after_handler es s = if sends es then written s.network_active else waiting

abbrev pub has_bytes : SslRead → Bool
has_bytes (bytes b bs) = true
has_bytes closed = false
has_bytes errored = false

pub data Step (y : System) : List Event → System → Type 0 where
  test :
      (r : SerialRead)
      → y.sending ≡ waiting
      → Step y [] (record y { sending = tested y.server.network_active r })
  handle :
      {s' : Server} {rx : Receiver} {es : List Event} (o : Outcome) (active : Bool) (r : SerialRead)
      → y.sending ≡ tested active r
      → uart_receive (record y.server { network_active = active }) o y.receiver r
        ≡ some (s', rx, es)
      → Step y es (record y { receiver = rx; sending = after_handler es s' })
  assign :
      (active : Bool)
      → y.sending ≡ written active
      → Step y []
          (record y { server = record y.server { network_active = active }; sending = waiting })
  accept :
      (conn : Conn) (buffer : List ℕ)
      → Step y [] (record y {
        workers = record { conn = conn; buffer = buffer; phase = testing } ∷ y.workers;
      })
  enter :
      (before after : List Worker) (w : Worker)
      → y.workers ≡ before ++ w ∷ after
      → w.phase ≡ testing
      → y.server.network_active ≡ true
      → Step y [] (record y { workers = before ++ record w { phase = reading } ∷ after })
  read :
      (before after : List Worker) (w : Worker) (r : SslRead)
      → y.workers ≡ before ++ w ∷ after
      → w.phase ≡ reading
      → Step y [] (record y {
        server = record y.server { network_active = has_bytes r };
        workers = before ++ record w { phase = assigned r } ∷ after;
      })
  serve :
      {s' : Server} {es : List Event} (before after : List Worker) (w : Worker) (st : Stack)
      (r : SslRead) (buffer : List ℕ)
      → y.workers ≡ before ++ w ∷ after
      → w.phase ≡ assigned r
      → worker_round y.server st w.conn w.buffer r ≡ some (s', buffer, es)
      → Step y es (record y {
        server = record y.server { tls_conn = s'.tls_conn };
        workers = before ++ record w { buffer = buffer; phase = testing } ∷ after;
      })
  leave :
      (before after : List Worker) (w : Worker)
      → y.workers ≡ before ++ w ∷ after
      → w.phase ≡ testing
      → y.server.network_active ≡ false
      → Step y [] (record y { workers = before ++ record w { phase = leaving } ∷ after })
  reset :
      (before after : List Worker) (w : Worker)
      → y.workers ≡ before ++ w ∷ after
      → w.phase ≡ leaving
      → Step y [] (record y {
        server = worker_exit y.server;
        workers = before ++ record w { phase = over } ∷ after;
      })
  hello : {es : List Event} (st : Stack) → send_hello st ≡ some es → Step y es y

pub data Reach (y : System) : List Event → System → Type 0 where
  here : Reach y [] y
  next : {z u : System} {es fs : List Event} → Reach y es z → Step z fs u → Reach y (es ++ fs) u
