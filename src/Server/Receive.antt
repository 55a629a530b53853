-- ===== src/Server/Receive.antt =====
-- `uartReceiveThread`, round after round. The other threads run between two rounds.
pub mod Received
use cg2111a_final_project.Base.{List, [], ◌∷◌, ◌++◌, Option, some, ◌>>=◌}
use cg2111a_final_project.Server.{Server, Event, Outcome}
use cg2111a_final_project.Server.Threads.{SerialRead, Receiver, uart_receive}

-- One round: the shared variables when it begins, what its writes return, and what `serialRead` returns.
pub record Reading : Type 0 where
  pub server : Server
  pub outcome : Outcome
  pub read : SerialRead

-- The local variables afterwards, and what each round leaves in the shared variables and does.
abbrev pub Received : Type 0
Received = Receiver × List (Server × List Event)

abbrev pub after : List (Server × List Event) → Received → Option Received
after outs (rx, outs') = some (rx, outs ++ outs')

unfoldable pub uart_receive_all : List Reading → Receiver → Option Received
unfolding uart_receive
uart_receive_all [] rx = some (rx, [])
uart_receive_all (t ∷ ts) rx = uart_receive t.server t.outcome rx t.read >>= λ (s, rx', es).
    uart_receive_all ts rx' >>= after ((s, es) ∷ [])
