-- ===== src/Uart/Tests.antt =====
-- The theorems on the serial port of the Arduino at concrete buffers.
use cg2111a_final_project.Base.{
  ℕ, ◌+◌, ◌-◌, ◌%◌, ◌≡◌, refl, inl, List, [], ◌∷◌, Option, some, Bool, true, false, replicate,
  arith, get_or,
}
use cg2111a_final_project.Uart.{Uart, buffer_size, tx_interrupt}
use cg2111a_final_project.Uart.Cbuffer.{
  Cbuffer, IsRing, contents, write, read, advance_head, store_item,
}
use cg2111a_final_project.Uart.Cbuffer.Queue.{push, pop, write-push, read-pop}
use cg2111a_final_project.Uart.Fifo.{IsUart}
use cg2111a_final_project.Uart.Traffic.{
  Op, put, transmit, receive, take, Traffic, run, Ordered, run_fifo,
}
use cg2111a_final_project.Uart.Race.{interrupted_write}

-- Two elements, around the end of the array.
abbrev wrapped : Cbuffer
wrapped = record { array = 5 ∷ 6 ∷ 7 ∷ 8 ∷ []; head = 0; tail = 2 }

wrapped-IsRing : IsRing 4 wrapped
wrapped-IsRing = record { array_fits = refl; head_in = omega arith; tail_in = omega arith }

write-push_example :
    (r : Bool × Cbuffer) × (write 4 wrapped 9 ≡ some r)
    × IsRing 4 r.1
    × ((r.0, contents 4 r.1) ≡ push (4 - 1) (contents 4 wrapped) 9)
write-push_example = write-push 4 wrapped 9 wrapped-IsRing

read-pop_example :
    (r : Option ℕ × Cbuffer) × (read 4 wrapped ≡ some r)
    × IsRing 4 r.1
    × ((r.0, contents 4 r.1) ≡ pop (contents 4 wrapped))
read-pop_example = read-pop 4 wrapped wrapped-IsRing

abbrev clear : Cbuffer
clear = record { array = replicate buffer_size 0; head = 0; tail = 0 }

pub clear-IsRing : IsRing buffer_size clear
clear-IsRing = record { array_fits = refl; head_in = omega arith; tail_in = omega arith }

abbrev pub port : Uart
port = record {
  ubrr0h = 0;
  ubrr0l = 103;
  rxen0 = true;
  txen0 = true;
  rxcie0 = true;
  udrie0 = false;
  rx_buffer = clear;
  tx_buffer = clear;
}

pub port-IsUart : IsUart port
port-IsUart = record { rx_ring = clear-IsRing; tx_ring = clear-IsRing; announced = inl refl }

abbrev exchange : List Op
exchange = put true 1 ∷ put false 2 ∷ receive 7 ∷ transmit ∷ take ∷ transmit ∷ []

run_fifo_example :
    (u' : Uart) × (t : Traffic) × (run port exchange ≡ some (u', t)) × IsUart u' × Ordered port u' t
run_fifo_example = run_fifo exchange port port-IsUart

interrupted_write_example :
    (stale : ℕ) × (u' : Uart) × (b : Cbuffer) × (tx_interrupt
        (record port { tx_buffer = advance_head buffer_size clear })
      ≡ some (u', stale ∷ []))
    × (stale ≡ get_or clear.array ((clear.head + 1) % 512) 0)
    × (store_item u'.tx_buffer 65 ≡ some b)
    × (contents buffer_size b ≡ [])
interrupted_write_example = interrupted_write port 65 port-IsUart refl
