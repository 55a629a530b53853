-- ===== src/Uart/Traffic.antt =====
-- Sequences of calls and interrupts at the serial port of the Arduino.
use cg2111a_final_project.Base.{
  ℕ, ◌≡◌, refl, sym, ap, ◌∙◌, inl, inr, List, [], ◌∷◌, ◌++◌, append-nil, Option, some, ◌>>=◌, Bool,
  if◌then◌else◌, ltb, length, Bool-cases,
}
use cg2111a_final_project.Uart.{
  Uart, buffer_size, write, read, available, rx_interrupt, tx_interrupt,
}
use cg2111a_final_project.Uart.Cbuffer.{Cbuffer, IsRing, contents, is_full, is_empty}
use cg2111a_final_project.Uart.Cbuffer as Cbuffer
use cg2111a_final_project.Uart.Cbuffer.Queue.{write-push, read-pop, is_full-contents}
use cg2111a_final_project.Uart.Drained.{tx_interrupt-Drains, chain}
use cg2111a_final_project.Uart.Fifo.{IsUart, to_send, to_read, write_lem, pop_cases, waiting}

-- What happens at the port: a call of `write` with the flag UDRE0, the interrupt for an empty data
-- register, a byte that arrives, and a call of `read` when one is available.
pub data Op : Type 0 where
  put : Bool → ℕ → Op
  transmit : Op
  receive : ℕ → Op
  take : Op

-- The bytes that `write` took, that went out, that were received and kept, and that `read` returned.
pub record Traffic : Type 0 where
  pub written : List ℕ
  pub sent : List ℕ
  pub kept : List ℕ
  pub taken : List ℕ

abbrev silence : Traffic
silence = record { written = []; sent = []; kept = []; taken = [] }

abbrev step : Uart → Op → Option (Uart × Traffic)
step u (put udre0 ch) = write u udre0 ch >>= λ (took, u', out).
    some (u', record silence { written = if took then ch ∷ [] else []; sent = out })
step u transmit = tx_interrupt u >>= λ (u', out). some (u', record silence { sent = out })
step u (receive b) = rx_interrupt u b >>= λ u'.
    some
      (u', record silence { kept = if Cbuffer.is_full buffer_size u.rx_buffer then [] else b ∷ [] })
step u take =
    if available u
    then (read u >>= λ (b, u'). some (u', record silence { taken = b ∷ [] }))
    else some (u, silence)

abbrev pub together : Traffic → Traffic → Traffic
together t t' = record {
  written = t.written ++ t'.written;
  sent = t.sent ++ t'.sent;
  kept = t.kept ++ t'.kept;
  taken = t.taken ++ t'.taken;
}

abbrev pub run : Uart → List Op → Option (Uart × Traffic)
run u [] = some (u, silence)
run u (op ∷ ops) = step u op >>= λ (u', t). run u' ops >>= λ (u'', t'). some (u'', together t t')

-- Both directions are queues.
abbrev pub Ordered : Uart → Uart → Traffic → Type 0
Ordered u u' t =
    (to_send u ++ t.written ≡ t.sent ++ to_send u') × (to_read u ++ t.kept ≡ t.taken ++ to_read u')

abbrev Steps : Uart → Option (Uart × Traffic) → Type 0
Steps u result = (u' : Uart) × (t : Traffic) × (result ≡ some (u', t)) × IsUart u' × Ordered u u' t

put-Steps : (u : Uart) (udre0 : Bool) (ch : ℕ) → IsUart u → Steps u (step u (put udre0 ch))
put-Steps u udre0 ch v =
    let (took, u', out, e, v', rx, when, same) = write_lem u udre0 ch v in
    (
      u',
      record silence { written = if took then ch ∷ [] else []; sent = out },
      rw e refl,
      v',
      (same, append-nil (to_read u) ∙ sym (ap (contents buffer_size) rx)),
    )

receive-Steps : (u : Uart) (b : ℕ) → IsUart u → Steps u (step u (receive b))
unfolding rx_interrupt
receive-Steps u b v =
    let (r, e, ring, same) = write-push buffer_size u.rx_buffer b v.rx_ring in
    (
      record u { rx_buffer = r.1 },
      record silence { kept = if Cbuffer.is_full buffer_size u.rx_buffer then [] else b ∷ [] },
      rw e refl,
      record { rx_ring = ring; tx_ring = v.tx_ring; announced = v.announced },
      (
        append-nil (to_send u),
        elim (Bool-cases (ltb (length (to_read u)) 511)) [
          | inl room ↦
              rw (is_full-contents buffer_size u.rx_buffer v.rx_ring, room)
                (sym (ap (λ p. p.1) same ∙ rw room refl))
          | inr full ↦
              rw (is_full-contents buffer_size u.rx_buffer v.rx_ring, full)
                (append-nil (to_read u) ∙ sym (ap (λ p. p.1) same ∙ rw full refl))
        ],
      ),
    )

transmit-Steps : (u : Uart) → IsUart u → Steps u (step u transmit)
transmit-Steps u v =
    let (u', out, e, v', rx, q) = tx_interrupt-Drains u v in
    (
      u',
      record silence { sent = out },
      rw e refl,
      v',
      (append-nil (to_send u) ∙ q, append-nil (to_read u) ∙ sym (ap (contents buffer_size) rx)),
    )

take-Steps : (u : Uart) → IsUart u → Steps u (step u take)
unfolding available read
take-Steps u v = elim (Bool-cases (is_empty u.rx_buffer)) [
  | inl clear ↦ (u, silence, rw clear refl, v, (append-nil (to_send u), append-nil (to_read u)))
  | inr some_wait ↦
      let (r, e, ring, same) = read-pop buffer_size u.rx_buffer v.rx_ring in
      elim (pop_cases (to_read u) (contents buffer_size r.1) r.0 same) [
        | inl (nothing, f) ↦ absurd (waiting buffer_size u.rx_buffer v.rx_ring some_wait nothing)
        | inr (x, item, q) ↦ (
          record u { rx_buffer = r.1 },
          record silence { taken = x ∷ [] },
          rw (some_wait, e, item) refl,
          record { rx_ring = ring; tx_ring = v.tx_ring; announced = v.announced },
          (append-nil (to_send u), append-nil (to_read u) ∙ q),
        )
      ]
]

step-Steps : (u : Uart) (op : Op) → IsUart u → Steps u (step u op)
step-Steps u (put udre0 ch) v = put-Steps u udre0 ch v
step-Steps u transmit v = transmit-Steps u v
step-Steps u (receive b) v = receive-Steps u b v
step-Steps u take v = take-Steps u v

-- From a port in good order, whatever calls and interrupts follow one another: no access leaves its
-- array, and in each direction the bytes that waited before and those that were taken in are, in order,
-- the bytes that went out and those that wait now. Bytes that wait to be sent are announced by the
-- interrupt flag.
pub run_fifo :
    (ops : List Op) (u : Uart)
    → IsUart u
    → (u' : Uart) × (t : Traffic) × (run u ops ≡ some (u', t)) × IsUart u' × Ordered u u' t
run_fifo [] u v = (u, silence, refl, v, (append-nil (to_send u), append-nil (to_read u)))
run_fifo (op ∷ ops) u v =
    let (u', t, e, v', o) = step-Steps u op v in
    let (u'', t', e', v'', o') = run_fifo ops u' v' in
    (
      u'',
      together t t',
      rw (e, e') refl,
      v'',
      (
        chain (to_send u) (to_send u') (to_send u'') t.written t'.written t.sent t'.sent o.0 o'.0,
        chain (to_read u) (to_read u') (to_read u'') t.kept t'.kept t.taken t'.taken o.1 o'.1,
      ),
    )
