-- ===== src/Uart/Arrays.antt =====
-- Whole arrays written to the serial port of the Arduino, with the interrupts that come meanwhile.
use cg2111a_final_project.Base.{
  not-true, and_true, ℕ, ◌+◌, ◌≤◌, ◌≡◌, refl, ap, sym, ◌∙◌, inl, inr, List, [], ◌∷◌, ◌++◌,
  append-nil, append_assoc, Option, none, some, not, Bool, true, false, ◌&&◌, if◌then◌else◌, ltb,
  length, arith, lt→ltb, length-append, Bool-cases,
}
use cg2111a_final_project.Uart.{
  Uart, Slot, interrupts, write, write_interrupted, write_slot, write_all,
}
use cg2111a_final_project.Uart.Fifo.{IsUart, Writes, to_send, write_lem}
use cg2111a_final_project.Uart.Drained.{interrupts-Drains, chain}
use cg2111a_final_project.Uart.Interrupted.{harmful, write_interrupted_lem}

abbrev pub bytes_of : List Slot → List ℕ
bytes_of [] = []
bytes_of (s ∷ ss) = s.ch ∷ bytes_of ss

abbrev on_some {ℓ} : {A : Type ℓ} → (A → Bool) → Option A → Bool
on_some p none = true
on_some p (some x) = p x

-- No interrupt comes between the two assignments of `CBuffer::write` while the buffer is empty.
unfoldable pub undisturbed : Uart → List Slot → Bool
undisturbed u [] = true
undisturbed u (s ∷ ss) =
    on_some (λ (r : Uart × List ℕ). not (s.inside && harmful r.0 s.udre0)) (interrupts s.before u)
    && on_some (λ (r : Uart × List ℕ). undisturbed r.0 ss) (write_slot u s)

of_on_some {ℓ} :
    {A : Type ℓ} (p : A → Bool) (o : Option A) (x : A)
    → on_some p o ≡ true
    → o ≡ some x
    → p x ≡ true
of_on_some p o x h e = sym (ap (on_some p) e) ∙ h

-- One byte for which there is room.
write_slot_fits :
    (s : Slot) (u : Uart)
    → IsUart u
    → length (to_send u) + 1 ≤ 511
    → on_some (λ (r : Uart × List ℕ). not (s.inside && harmful r.0 s.udre0)) (interrupts s.before u)
      ≡ true
    → (u' : Uart) × (out : List ℕ) × (write_slot u s ≡ some (u', out))
      × IsUart u'
      × (to_send u ++ s.ch ∷ [] ≡ out ++ to_send u')
unfolding write_slot
write_slot_fits s u v h safe =
    let (u1, out, e, v1, rx1, q) = interrupts-Drains s.before u v in
    let (taken, u2, out', e', v2, rx2, when, same) = written u1 v1 (
      not-true (s.inside && harmful u1 s.udre0) (
        of_on_some (λ (r : Uart × List ℕ). not (s.inside && harmful r.0 s.udre0))
          (interrupts s.before u) (u1, out) safe e)) in
    let room : ltb (length (to_send u1)) 511 ≡ true =
      lt→ltb _ _ (omega (arith, h, ap length q, length-append out (to_send u1))) in
    let kept : to_send u1 ++ s.ch ∷ [] ≡ out' ++ to_send u2 = rw (when, room) at same in
    (
      u2,
      out ++ out',
      rw (e, e') refl,
      v2,
      ap (λ l. l ++ s.ch ∷ []) q
          ∙ append_assoc out (to_send u1) (s.ch ∷ [])
          ∙ ap (λ l. out ++ l) kept
          ∙ sym (append_assoc out out' (to_send u2)),
    )
  where
    written :
        (u1 : Uart)
        → IsUart u1
        → (s.inside && harmful u1 s.udre0) ≡ false
        → Writes u1 s.ch
            (if s.inside then write_interrupted u1 s.udre0 s.ch else write u1 s.udre0 s.ch)
    written u1 v1 calm = elim (Bool-cases s.inside) [
      | inl cut ↦ rw cut (write_interrupted_lem u1 s.udre0 s.ch v1 (rw cut at calm))
      | inr whole ↦ rw whole (write_lem u1 s.udre0 s.ch v1)
    ]

write_all-then :
    (s : Slot) (ss : List Slot) (u u' u'' : Uart) (out outs : List ℕ)
    → write_slot u s ≡ some (u', out)
    → write_all u' ss ≡ some (u'', outs)
    → write_all u (s ∷ ss) ≡ some (u'', out ++ outs)
unfolding write_all
write_all-then s ss u u' u'' out outs e e' = rw (e, e') refl

-- An array that fits into what is free of the buffer's 511 bytes is sent completely, with any number of
-- interrupts before each byte and at most one inside its write, but none inside a write to an empty
-- buffer: each byte, in order, has gone out or waits behind those that waited before.
pub write_all_fits :
    (ss : List Slot) (u : Uart)
    → IsUart u
    → length (to_send u) + length ss ≤ 511
    → undisturbed u ss ≡ true
    → (u' : Uart) × (out : List ℕ) × (write_all u ss ≡ some (u', out))
      × IsUart u'
      × (to_send u ++ bytes_of ss ≡ out ++ to_send u')
unfolding write_all undisturbed
write_all_fits [] u v h calm = (u, [], refl, v, append-nil (to_send u))
write_all_fits (s ∷ ss) u v h calm =
    let (now, later) =
      and_true
        (on_some (λ (r : Uart × List ℕ). not (s.inside && harmful r.0 s.udre0))
          (interrupts s.before u))
        (on_some (λ (r : Uart × List ℕ). undisturbed r.0 ss) (write_slot u s)) calm in
    let (u', out, e, v', kept) = write_slot_fits s u v (omega (arith, h)) now in
    let (u'', outs, e', v'', same') =
      write_all_fits ss u' v'
        (omega (
          arith,
          h,
          ap length kept,
          length-append (to_send u) (s.ch ∷ []),
          length-append out (to_send u'),
        ))
        (of_on_some (λ (r : Uart × List ℕ). undisturbed r.0 ss) (write_slot u s) (u', out) later
          e) in
    (
      u'',
      out ++ outs,
      write_all-then s ss u u' u'' out outs e e',
      v'',
      chain (to_send u) (to_send u') (to_send u'') (s.ch ∷ []) (bytes_of ss) out outs kept same',
    )
