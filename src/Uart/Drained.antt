-- ===== src/Uart/Drained.antt =====
-- What interrupts for an empty data register do to the bytes that wait.
use cg2111a_final_project.Base.{
  ℕ, zero, suc, ◌≡◌, refl, sym, ap, ◌∙◌, inl, inr, List, [], ◌∷◌, ◌++◌, append_assoc, Option, some,
  false, if◌then◌else◌, Bool-cases,
}
use cg2111a_final_project.Uart.{Uart, buffer_size, tx_interrupt, interrupt, interrupts}
use cg2111a_final_project.Uart.Cbuffer.{contents, is_empty}
use cg2111a_final_project.Uart.Cbuffer.Queue.{read-pop, is_empty-contents}
use cg2111a_final_project.Uart.Fifo.{IsUart, to_send, nothing_of, pop_cases, waiting}

pub chain :
    (q q' q'' a a' s s' : List ℕ)
    → q ++ a ≡ s ++ q'
    → q' ++ a' ≡ s' ++ q''
    → q ++ (a ++ a') ≡ (s ++ s') ++ q''
chain q q' q'' a a' s s' e e' =
    sym (append_assoc q a a')
    ∙ ap (λ l. l ++ a') e
    ∙ append_assoc s q' a'
    ∙ ap (λ l. s ++ l) e'
    ∙ sym (append_assoc s s' q'')

-- What goes out and what waits are what waited.
abbrev pub Drains : Uart → Option (Uart × List ℕ) → Type 0
Drains u result =
    (u' : Uart) × (out : List ℕ) × (result ≡ some (u', out))
    × IsUart u'
    × (u'.rx_buffer ≡ u.rx_buffer)
    × (to_send u ≡ out ++ to_send u')

pub tx_interrupt-Drains : (u : Uart) → IsUart u → Drains u (tx_interrupt u)
unfolding tx_interrupt
tx_interrupt-Drains u v = elim (Bool-cases (is_empty u.tx_buffer)) [
  | inl clear ↦ (
    record u { udrie0 = false },
    [],
    rw clear refl,
    record {
      rx_ring = v.rx_ring;
      tx_ring = v.tx_ring;
      announced = inl (
          nothing_of (to_send u)
            (sym (is_empty-contents buffer_size u.tx_buffer v.tx_ring) ∙ clear));
    },
    refl,
    refl,
  )
  | inr some_wait ↦
      let (r, e, ring, same) = read-pop buffer_size u.tx_buffer v.tx_ring in
      elim (pop_cases (to_send u) (contents buffer_size r.1) r.0 same) [
        | inl (nothing, f) ↦ absurd (waiting buffer_size u.tx_buffer v.tx_ring some_wait nothing)
        | inr (x, item, q) ↦ (
          record u { tx_buffer = r.1 },
          x ∷ [],
          rw (some_wait, e, item) refl,
          record {
            rx_ring = v.rx_ring;
            tx_ring = ring;
            announced = elim v.announced [
              | inl none_left ↦
                  absurd (waiting buffer_size u.tx_buffer v.tx_ring some_wait none_left)
              | inr flag ↦ inr flag
            ];
          },
          refl,
          q,
        )
      ]
]

interrupt-Drains : (u : Uart) → IsUart u → Drains u (interrupt u)
unfolding interrupt
interrupt-Drains u v = elim (Bool-cases u.udrie0) [
  | inl on ↦
      let (u', out, e, v', rx, q) = tx_interrupt-Drains u v in
      (u', out, ap (λ b. if b then tx_interrupt u else some (u, [])) on ∙ e, v', rx, q)
  | inr off ↦ (u, [], rw off refl, v, refl, refl)
]

pub interrupts-Drains : (n : ℕ) (u : Uart) → IsUart u → Drains u (interrupts n u)
unfolding interrupts
interrupts-Drains zero u v = (u, [], refl, v, refl, refl)
interrupts-Drains (suc n) u v =
    let (u1, out, e, v1, rx, q) = interrupt-Drains u v in
    let (u2, outs, e', v2, rx', q') = interrupts-Drains n u1 v1 in
    (
      u2,
      out ++ outs,
      rw (e, e') refl,
      v2,
      rx' ∙ rx,
      q ∙ ap (λ l. out ++ l) q' ∙ sym (append_assoc out outs (to_send u2)),
    )
