-- ===== src/Uart/Cbuffer/Count.antt =====
-- The number of elements that wait in a circular buffer, and where they stand.

use cg2111a_final_project.Base.{
  ℕ, ◌+◌, ◌-◌, ◌%◌, ◌≤◌, ◌<◌, ◌≡◌, ◌≢◌, ap, ◌⊎◌, inl, inr, not, arith, ltb, leb, ◌==◌, ltb→lt,
  ltb→le, leb→le, leb→lt, ==_iff, ne→==, Bool-cases,
}
use cg2111a_final_project.Uart.Cbuffer.{Cbuffer, IsRing, is_full, is_empty, count, at}
use cg2111a_final_project.Uart.Cbuffer.Index.{wrap_cases}

-- The count, by where the head stands.
pub count_cases :
    (size : ℕ) (b : Cbuffer)
    → IsRing size b
    → (count size b < size)
      × (((b.tail ≤ b.head) × (b.tail + count size b ≡ b.head))
          ⊎ ((b.head < b.tail) × (b.tail + count size b ≡ b.head + size)))
count_cases size b v = elim (Bool-cases (leb b.tail b.head)) [
  | inl ahead ↦
      let le = leb→le b.tail b.head ahead in
      let n : count size b ≡ b.head - b.tail = rw ahead in
      (omega (arith, n, le, v.head_in), inl (le, omega (arith, n, le)))
  | inr behind ↦
      let lt = leb→lt b.tail b.head behind in
      let n : count size b ≡ b.head + size - b.tail = rw behind in
      (omega (arith, n, lt, v.tail_in), inr (lt, omega (arith, n, lt, v.tail_in)))
]

-- Two buffers with the same distance from tail to head.
pub count_of :
    (size : ℕ) (b : Cbuffer) (n : ℕ)
    → IsRing size b
    → n < size
    → (b.tail + n ≡ b.head) ⊎ (b.tail + n ≡ b.head + size)
    → count size b ≡ n
count_of size b n v h e =
    let (lt, side) = count_cases size b v in
    elim side [
      | inl (le, same) ↦ elim e [
        | inl k ↦ omega (arith, same, k)
        | inr k ↦ absurd (omega (arith, same, k, le, h, v.head_in, v.tail_in))
      ]
      | inr (le, same) ↦ elim e [
        | inl k ↦ absurd (omega (arith, same, k, le, lt, v.head_in, v.tail_in))
        | inr k ↦ omega (arith, same, k)
      ]
    ]

-- The head moves one step on.
abbrev pub next : ℕ → ℕ → ℕ
next size i = (i + 1) % size

abbrev pub NextCases : ℕ → ℕ → Type 0
NextCases size i = ((next size i ≡ i + 1) × (i + 1 < size)) ⊎ ((next size i ≡ 0) × (i + 1 ≡ size))

pub next_cases : (size i : ℕ) → i < size → NextCases size i
next_cases size i h = elim (wrap_cases size (i + 1) (omega (arith, h))) [
  | inl small ↦ inl small
  | inr (e, lt) ↦ inr (omega (arith, e, lt, h), omega (arith, e, lt, h))
]

pub next_in : (size i : ℕ) → i < size → next size i < size
next_in size i h = elim (next_cases size i h) [
  | inl (f, g) ↦ omega (arith, f, g)
  | inr (f, g) ↦ omega (arith, f, g, h)
]

-- The element behind the last one stands where the head goes.
pub at-count :
    (size : ℕ) (b : Cbuffer) → IsRing size b → at size b.tail (count size b) ≡ next size b.head
at-count size b v =
    let (lt, side) = count_cases size b v in
    elim (wrap_cases size (b.tail + 1 + count size b) (omega (arith, lt, v.tail_in))) [
      | inl (e, small) ↦ elim side [
        | inl (le, same) ↦ ap (λ i. i % size) (omega (arith, same))
        | inr (le, same) ↦ absurd (omega (arith, small, same))
      ]
      | inr (e, small) ↦ elim side [
        | inl (le, same) ↦ ap (λ i. i % size) (omega (arith, same))
        | inr (le, same) ↦ elim (next_cases size b.head v.head_in) [
          | inl (f, g) ↦ omega (arith, e, same, f)
          | inr (f, g) ↦ absurd (omega (arith, le, g, v.tail_in))
        ]
      ]
    ]

-- No element that waits stands there, unless the buffer is full.
pub at-next_differ :
    (size : ℕ) (b : Cbuffer) (k : ℕ)
    → IsRing size b
    → k < count size b
    → count size b + 1 < size
    → at size b.tail k ≢ next size b.head
at-next_differ size b k v h room same =
    let (lt, side) = count_cases size b v in
    let target = at-count size b v in
    elim (wrap_cases size (b.tail + 1 + count size b) (omega (arith, lt, v.tail_in))) [
      | inl (e, small) ↦ elim (wrap_cases size (b.tail + 1 + k) (omega (arith, lt, h, v.tail_in))) [
        | inl (f, g) ↦ omega (arith, e, f, same, target, h)
        | inr (f, g) ↦ omega (arith, e, f, same, target, h, small)
      ]
      | inr (e, small) ↦ elim (wrap_cases size (b.tail + 1 + k) (omega (arith, lt, h, v.tail_in))) [
        | inl (f, g) ↦ omega (arith, e, f, same, target, h, room, g)
        | inr (f, g) ↦ omega (arith, e, f, same, target, h)
      ]
    ]

-- The test for a full buffer is a test of the number of elements.
pub is_full-count :
    (size : ℕ) (b : Cbuffer) → IsRing size b → is_full size b ≡ not (ltb (count size b + 1) size)
unfolding is_full
is_full-count size b v =
    let (lt, side) = count_cases size b v in
    elim (Bool-cases (ltb (count size b + 1) size)) [
      | inl room ↦ rw (
        room,
        ne→== (next size b.head) b.tail (λ e. elim (next_cases size b.head v.head_in) [
          | inl (f, g) ↦ elim side [
            | inl (le, same) ↦ omega (arith, e, f, le)
            | inr (le, same) ↦ omega (arith, e, f, same, ltb→lt _ _ room)
          ]
          | inr (f, g) ↦ elim side [
            | inl (le, same) ↦ omega (arith, e, f, g, same, ltb→lt _ _ room)
            | inr (le, same) ↦ omega (arith, g, le, v.tail_in)
          ]
        ]),
      )
      | inr full ↦ rw (
        full,
        (==_iff (next size b.head) b.tail).1 (elim (next_cases size b.head v.head_in) [
          | inl (f, g) ↦ elim side [
            | inl (le, same) ↦ absurd (omega (arith, g, same, ltb→le _ _ full, lt))
            | inr (le, same) ↦ omega (arith, f, same, ltb→le _ _ full, lt)
          ]
          | inr (f, g) ↦ elim side [
            | inl (le, same) ↦ omega (arith, f, g, same, ltb→le _ _ full, lt)
            | inr (le, same) ↦ absurd (omega (arith, g, le, v.tail_in))
          ]
        ]),
      )
    ]

-- The test for an empty buffer, too.
pub is_empty-count : (size : ℕ) (b : Cbuffer) → IsRing size b → is_empty b ≡ (count size b == 0)
unfolding is_empty
is_empty-count size b v =
    let (lt, side) = count_cases size b v in
    elim (Bool-cases (count size b == 0)) [
      | inl none_there ↦
          let z = (==_iff (count size b) 0).0 none_there in
          rw (
            none_there,
            (==_iff b.head b.tail).1 (elim side [
              | inl (le, same) ↦ omega (arith, same, z)
              | inr (le, same) ↦ absurd (omega (arith, same, z, le, v.tail_in))
            ]),
          )
      | inr some_there ↦ rw (
        some_there,
        ne→== b.head b.tail (λ e. cc (
          some_there,
          (==_iff (count size b) 0).1 (elim side [
            | inl (le, same) ↦ omega (arith, same, e)
            | inr (le, same) ↦ absurd (omega (arith, e, le))
          ]),
        )),
      )
    ]
