-- ===== src/Uart/Interrupted.antt =====
-- An interrupt inside a call of `write`.
use cg2111a_final_project.Base.{
  ℕ, ◌+◌, ◌%◌, ◌≡◌, refl, sym, ap, subst, ◌∙◌, inl, inr, List, [], ◌∷◌, ◌++◌, append-nil, Option,
  none, some, some_injective, Bool, true, false, not, ◌&&◌, ltb, length, arith, ltb→lt, lt→ltb,
  Bool-cases, Option-cases, get_elem?,
}
use cg2111a_final_project.Uart.{Uart, buffer_size, tx_interrupt, interrupt, write_interrupted}
use cg2111a_final_project.Uart.Cbuffer as Cbuffer
use cg2111a_final_project.Uart.Cbuffer.{
  Cbuffer, IsRing, contents, is_full, is_empty, advance_head, store_item,
}
use cg2111a_final_project.Uart.Cbuffer.Queue.{
  write-push, read-pop, is_full-contents, is_empty-contents,
}
use cg2111a_final_project.Uart.Fifo.{IsUart, Writes, to_send, nothing_of, pop_cases, waiting}
use cg2111a_final_project.Uart.Race.{write-store_item}

-- The two assignments of `CBuffer::write`, when there is room.
stored :
    (b : Cbuffer) (ch : ℕ)
    → IsRing buffer_size b
    → ltb (length (contents buffer_size b)) 511 ≡ true
    → (tx : Cbuffer) × (store_item (advance_head buffer_size b) ch ≡ some tx)
      × IsRing buffer_size tx
      × (contents buffer_size tx ≡ contents buffer_size b ++ ch ∷ [])
stored b ch v room =
    let (r, run, ring, same) = write-push buffer_size b ch v in
    let full : is_full buffer_size b ≡ false = is_full-contents buffer_size b v ∙ rw room refl in
    let parts = write-store_item buffer_size b ch full in
    elim (Option-cases (store_item (advance_head buffer_size b) ch)) [
      | inl missing ↦
          let e : Cbuffer.write buffer_size b ch ≡ none = parts ∙ rw missing refl in cc (run, e)
      | inr (tx, there) ↦
          let e : Cbuffer.write buffer_size b ch ≡ some (true, tx) = parts ∙ rw there refl in
          let is : tx ≡ r.1 = ap (λ p. p.1) (some_injective (sym e ∙ run)) in
          (
            tx,
            there,
            subst (IsRing buffer_size) (sym is) ring,
            ap (contents buffer_size) is ∙ ap (λ p. p.1) same ∙ rw room refl,
          )
    ]

-- A read between them takes what it would take before them.
read-advance_head :
    (b : Cbuffer) (r : Option ℕ × Cbuffer)
    → is_empty b ≡ false
    → is_full buffer_size b ≡ false
    → Cbuffer.read buffer_size b ≡ some r
    → Cbuffer.read buffer_size (advance_head buffer_size b)
      ≡ some (r.0, advance_head buffer_size r.1)
unfolding Cbuffer.read advance_head is_empty is_full
read-advance_head b r clear full e = elim (Option-cases (get_elem? b.array ((b.tail + 1) % 512))) [
  | inl missing ↦
      let none_read : Cbuffer.read buffer_size b ≡ none = rw (clear, missing) refl in
      cc (e, none_read)
  | inr (x, there) ↦
      let found : Cbuffer.read buffer_size b
          ≡ some (some x, record b { tail = (b.tail + 1) % 512 }) =
        rw (clear, there) refl in
      let is = some_injective (sym found ∙ e) in
      rw (full, there) (ap (λ q. some (q.0, advance_head buffer_size q.1)) is)
]

is_empty-advance_head :
    (b : Cbuffer) → is_empty (advance_head buffer_size b) ≡ is_full buffer_size b
unfolding is_empty advance_head is_full
is_empty-advance_head b = refl

-- An interrupt inside the write of a byte that goes into the buffer, where bytes wait.
cut_short :
    (u : Uart) (ch : ℕ)
    → IsUart u
    → ltb (length (to_send u)) 511 ≡ true
    → is_empty u.tx_buffer ≡ false
    → u.udrie0 ≡ true
    → (u' : Uart) × (tx : Cbuffer) × (out : List ℕ) × (interrupt
          (record u { tx_buffer = advance_head buffer_size u.tx_buffer })
        ≡ some (u', out))
      × (store_item u'.tx_buffer ch ≡ some tx)
      × IsUart (record u' { tx_buffer = tx; udrie0 = true })
      × (u'.rx_buffer ≡ u.rx_buffer)
      × (to_send u ++ ch ∷ [] ≡ out ++ contents buffer_size tx)
unfolding interrupt tx_interrupt
cut_short u ch v room some_wait on =
    let (r, e, ring, same) = read-pop buffer_size u.tx_buffer v.tx_ring in
    let full : is_full buffer_size u.tx_buffer ≡ false =
      is_full-contents buffer_size u.tx_buffer v.tx_ring ∙ rw room refl in
    let moved_on : is_empty (advance_head buffer_size u.tx_buffer) ≡ false =
      is_empty-advance_head u.tx_buffer ∙ full in
    let e' = read-advance_head u.tx_buffer r some_wait full e in
    elim (pop_cases (to_send u) (contents buffer_size r.1) r.0 same) [
      | inl (nothing, f) ↦ absurd (waiting buffer_size u.tx_buffer v.tx_ring some_wait nothing)
      | inr (x, item, q) ↦
          let fewer : ltb (length (contents buffer_size r.1)) 511 ≡ true =
            lt→ltb _ _ (omega (arith, ltb→lt _ _ room, ap length q)) in
          let (tx, there, ring', kept) = stored r.1 ch ring fewer in
          (
            record u { tx_buffer = advance_head buffer_size r.1 },
            tx,
            x ∷ [],
            rw (on, moved_on, e', item) refl,
            there,
            record { rx_ring = v.rx_ring; tx_ring = ring'; announced = inr refl },
            refl,
            ap (λ l. l ++ ch ∷ []) q ∙ ap (λ l. x ∷ l) (sym kept),
          )
    ]

-- The one interrupt inside a write that does harm: the byte goes into an empty buffer.
abbrev pub harmful : Uart → Bool → Bool
harmful u udre0 = not udre0 && (u.udrie0 && is_empty u.tx_buffer)

write_interrupted-buffered :
    (u : Uart) (udre0 : Bool) (ch : ℕ)
    → IsUart u
    → ltb (length (to_send u)) 511 ≡ true
    → (udre0 && is_empty u.tx_buffer) ≡ false
    → harmful u udre0 ≡ false
    → Writes u ch (write_interrupted u udre0 ch)
unfolding write_interrupted interrupt
write_interrupted-buffered u udre0 ch v room held safe =
    let full : is_full buffer_size u.tx_buffer ≡ false =
      is_full-contents buffer_size u.tx_buffer v.tx_ring ∙ rw room refl in
    elim (Bool-cases u.udrie0) [
      | inr off ↦
          let (tx, there, ring, kept) = stored u.tx_buffer ch v.tx_ring room in
          (
            true,
            record u { tx_buffer = tx; udrie0 = true },
            [],
            rw (full, held, off, there) refl,
            record { rx_ring = v.rx_ring; tx_ring = ring; announced = inr refl },
            refl,
            sym room,
            sym kept,
          )
      | inl on ↦
          let some_wait : is_empty u.tx_buffer ≡ false = ground arith in
          let (u', tx, out, e, there, v', rx, kept) = cut_short u ch v room some_wait on in
          (
            true,
            record u' { tx_buffer = tx; udrie0 = true },
            out,
            rw (full, held, e, there) refl,
            v',
            rx,
            sym room,
            kept,
          )
    ]

pub write_interrupted_lem :
    (u : Uart) (udre0 : Bool) (ch : ℕ)
    → IsUart u
    → harmful u udre0 ≡ false
    → Writes u ch (write_interrupted u udre0 ch)
unfolding write_interrupted
write_interrupted_lem u udre0 ch v safe = elim (Bool-cases (ltb (length (to_send u)) 511)) [
  | inr full ↦ (
    false,
    u,
    [],
    rw (is_full-contents buffer_size u.tx_buffer v.tx_ring, full) refl,
    v,
    refl,
    sym full,
    append-nil (to_send u),
  )
  | inl room ↦ elim (Bool-cases (udre0 && is_empty u.tx_buffer)) [
    | inr held ↦ write_interrupted-buffered u udre0 ch v room held safe
    | inl straight ↦
        let clear : is_empty u.tx_buffer ≡ true = ground arith in
        let nothing : to_send u ≡ [] =
          nothing_of (to_send u)
            (sym (is_empty-contents buffer_size u.tx_buffer v.tx_ring) ∙ clear) in
        (
          true,
          u,
          ch ∷ [],
          rw (is_full-contents buffer_size u.tx_buffer v.tx_ring, room, straight) refl,
          v,
          refl,
          sym room,
          rw nothing refl,
        )
  ]
]
