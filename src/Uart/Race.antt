-- ===== src/Uart/Race.antt =====
-- An interrupt inside `CBuffer::write`.
use cg2111a_final_project.Base.{
  ℕ, ◌+◌, ◌%◌, ◌<◌, ◌≡◌, ◌≢◌, refl, sym, ap, ◌∙◌, List, [], ◌∷◌, some, ◌>>=◌, true, false, length,
  arith, get_or, ne→==, ==_iff, ◌==◌, le→leb, Option-cases, inl, inr, store,
}
use cg2111a_final_project.Uart.{Uart, buffer_size, tx_interrupt}
use cg2111a_final_project.Uart.Cbuffer.{
  Cbuffer, contents, is_empty, read, write, is_full, advance_head, store_item, count, collect,
}
use cg2111a_final_project.Uart.Cbuffer.Index.{store_total, get_elem?-get_or}
use cg2111a_final_project.Uart.Cbuffer.Queue.{is_empty-contents}
use cg2111a_final_project.Uart.Fifo.{IsUart, to_send}

-- `write` is its two assignments, when there is room.
pub write-store_item :
    (size : ℕ) (b : Cbuffer) (item : ℕ)
    → is_full size b ≡ false
    → write size b item ≡ (store_item (advance_head size b) item >>= λ b'. some (true, b'))
unfolding write store_item advance_head
write-store_item size b item e = elim (Option-cases (store b.array ((b.head + 1) % size) item)) [
  | inl out ↦ rw (e, out) refl
  | inr (ys, in_range) ↦ rw (e, in_range) refl
]

-- Head and tail at the same index.
contents_met :
    (ys : List ℕ) (i : ℕ) → contents buffer_size (record { array = ys; head = i; tail = i }) ≡ []
contents_met ys i = ap (collect buffer_size ys i) none_there
  where
    none_there : count buffer_size (record { array = ys; head = i; tail = i }) ≡ 0
    none_there = rw (le→leb i i (omega arith)) (omega arith)

-- The interrupt for an empty data register comes between the two assignments of `write` on an empty
-- buffer: an old byte of the array is sent instead, and the new byte is stored where it is no longer
-- waiting.
pub interrupted_write :
    (u : Uart) (ch : ℕ)
    → IsUart u
    → to_send u ≡ []
    → (stale : ℕ) × (u' : Uart) × (b : Cbuffer) × (tx_interrupt
          (record u { tx_buffer = advance_head buffer_size u.tx_buffer })
        ≡ some (u', stale ∷ []))
      × (stale ≡ get_or u.tx_buffer.array ((u.tx_buffer.head + 1) % 512) 0)
      × (store_item u'.tx_buffer ch ≡ some b)
      × (contents buffer_size b ≡ [])
unfolding tx_interrupt advance_head store_item read is_empty
interrupted_write u ch v nothing =
    let b : Cbuffer = u.tx_buffer in
    let met : b.head ≡ b.tail =
      (==_iff b.head b.tail).0
        (is_empty-contents buffer_size b v.tx_ring ∙ ap (λ q. length q == 0) nothing) in
    let apart : (b.head + 1) % 512 ≢ b.tail = λ e. omega (arith, e, met, v.tx_ring.head_in) in
    let inside : (b.tail + 1) % 512 < length b.array = omega (arith, v.tx_ring.array_fits) in
    let (ys, stored, l, here, there) =
      store_total b.array ((b.head + 1) % 512) ch (omega (arith, v.tx_ring.array_fits)) in
    (
      get_or b.array ((b.tail + 1) % 512) 0,
      record u { tx_buffer = record b { head = (b.head + 1) % 512; tail = (b.tail + 1) % 512 } },
      record b { array = ys; head = (b.head + 1) % 512; tail = (b.tail + 1) % 512 },
      rw
          (
            ne→== ((b.head + 1) % 512) b.tail apart,
            get_elem?-get_or b.array ((b.tail + 1) % 512) inside,
          )
          refl,
      ap (λ i. get_or b.array ((i + 1) % 512) 0) (sym met),
      rw stored refl,
      ap
            (λ i.
              contents buffer_size
                (record { array = ys; head = (b.head + 1) % 512; tail = (i + 1) % 512 }))
            (sym met)
          ∙ contents_met ys ((b.head + 1) % 512),
    )
