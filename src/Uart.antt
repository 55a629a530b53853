-- ===== src/Uart.antt =====
-- Working/Alex-a/uart.h and uart.cpp: the serial port of the Arduino. The registers are the fields that
-- the code sets; what the hardware decides (the flag UDRE0, a received byte) is an argument, and the
-- bytes written to UDR0 are a result.
pub mod Cbuffer
pub mod Fifo
pub mod Drained
pub mod Traffic
pub mod Race
pub mod Interrupted
pub mod Arrays
pub mod Tests
use cg2111a_final_project.Base.{
  ℕ, zero, suc, ◌+◌, ◌-◌, ◌*◌, ◌/◌, ◌%◌, ◌^◌, ◌≡◌, ◌⊎◌, List, [], ◌∷◌, ◌++◌, Option, none, some,
  ◌>>=◌, Bool, true, false, not, ◌&&◌, ◌==◌, if◌then◌else◌, u8, u32,
}
use cg2111a_final_project.Uart.Cbuffer as Cbuffer

abbrev pub buffer_size : ℕ
buffer_size = 512

pub record Uart : Type 0 where
  pub ubrr0h : ℕ
  pub ubrr0l : ℕ
  pub rxen0 : Bool
  pub txen0 : Bool
  pub rxcie0 : Bool
  pub udrie0 : Bool
  pub rx_buffer : Cbuffer.Cbuffer
  pub tx_buffer : Cbuffer.Cbuffer

-- `begin(baud)`, in 32-bit unsigned arithmetic; `none` is a division by 0.
unfoldable pub begin : ℕ → Uart → ℕ → Option Uart
begin f_cpu u baud =
    let divisor = u32 (16 * baud) in
    if divisor == 0
    then none
    else (let ubrr = u32 (f_cpu / divisor + (2 ^ 32 - 1)) % 2 ^ 16 in
        some (record u {
          ubrr0h = ubrr / 2 ^ 8;
          ubrr0l = u8 ubrr;
          rxen0 = true;
          txen0 = true;
          rxcie0 = true;
          udrie0 = false;
        }))

-- `end()`
unfoldable pub shut : Uart → Uart
shut u = record u { rxen0 = false; txen0 = false; rxcie0 = false; udrie0 = false }

-- `write(ch)`: whether the byte was taken, the port, and what went to UDR0.
unfoldable pub write : Uart → Bool → ℕ → Option (Bool × Uart × List ℕ)
write u udre0 ch =
    if Cbuffer.is_full buffer_size u.tx_buffer
    then some (false, u, [])
    else (if udre0 && Cbuffer.is_empty u.tx_buffer
        then some (true, u, ch ∷ [])
        else (Cbuffer.write buffer_size u.tx_buffer ch >>= λ (taken, tx).
            some (true, record u { tx_buffer = tx; udrie0 = true }, [])))

abbrev pub or_255 : Option ℕ → ℕ
or_255 none = 255
or_255 (some x) = x

-- `read()`: 255 stands for -1.
unfoldable pub read : Uart → Option (ℕ × Uart)
read u = Cbuffer.read buffer_size u.rx_buffer >>= λ (item, rx).
    some (or_255 item, record u { rx_buffer = rx })

unfoldable pub available : Uart → Bool
available u = not (Cbuffer.is_empty u.rx_buffer)

-- A byte that does not fit is dropped.
unfoldable pub rx_interrupt : Uart → ℕ → Option Uart
rx_interrupt u udr0 =
    Cbuffer.write buffer_size u.rx_buffer udr0 >>= λ (taken, rx). some (record u { rx_buffer = rx })

abbrev pub to_list : Option ℕ → List ℕ
to_list none = []
to_list (some x) = x ∷ []

unfoldable pub tx_interrupt : Uart → Option (Uart × List ℕ)
tx_interrupt u =
    if Cbuffer.is_empty u.tx_buffer
    then some (record u { udrie0 = false }, [])
    else (Cbuffer.read buffer_size u.tx_buffer >>= λ (item, tx).
        some (record u { tx_buffer = tx }, to_list item))

-- The interrupt for an empty data register, which the flag UDRIE0 allows.
unfoldable pub interrupt : Uart → Option (Uart × List ℕ)
interrupt u = if u.udrie0 then tx_interrupt u else some (u, [])

unfoldable pub interrupts : ℕ → Uart → Option (Uart × List ℕ)
interrupts zero u = some (u, [])
interrupts (suc n) u =
    interrupt u >>= λ (u', out). interrupts n u' >>= λ (u'', outs). some (u'', out ++ outs)

-- `write(ch)` with an interrupt between the two assignments of `CBuffer::write`.
unfoldable pub write_interrupted : Uart → Bool → ℕ → Option (Bool × Uart × List ℕ)
write_interrupted u udre0 ch =
    if Cbuffer.is_full buffer_size u.tx_buffer
    then some (false, u, [])
    else (if udre0 && Cbuffer.is_empty u.tx_buffer
        then some (true, u, ch ∷ [])
        else (interrupt (record u { tx_buffer = Cbuffer.advance_head buffer_size u.tx_buffer })
            >>= λ (u', out). Cbuffer.store_item u'.tx_buffer ch >>= λ tx.
                some (true, record u' { tx_buffer = tx; udrie0 = true }, out)))

-- A byte that is written: how many interrupts come since the one before, the flag UDRE0, and
-- whether an interrupt comes between the two assignments of `CBuffer::write`.
pub record Slot : Type 0 where
  pub before : ℕ
  pub udre0 : Bool
  pub inside : Bool
  pub ch : ℕ

unfoldable pub write_slot : Uart → Slot → Option (Uart × List ℕ)
unfolding interrupts write write_interrupted
write_slot u s = interrupts s.before u >>= λ (u1, out).
    (if s.inside then write_interrupted u1 s.udre0 s.ch else write u1 s.udre0 s.ch)
    >>= λ (taken, u2, out'). some (u2, out ++ out')

-- `write(c, len)`: what `write` answers is not looked at.
unfoldable pub write_all : Uart → List Slot → Option (Uart × List ℕ)
write_all u [] = some (u, [])
write_all u (s ∷ ss) =
    write_slot u s >>= λ (u', out). write_all u' ss >>= λ (u'', outs). some (u'', out ++ outs)
