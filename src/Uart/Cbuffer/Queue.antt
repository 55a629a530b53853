-- ===== src/Uart/Cbuffer/Queue.antt =====
-- The circular buffer is a queue that holds one element less than its array.
use native.Mathlib.Nat.{mod-add-mod}
use cg2111a_final_project.Base.{
  ℕ, zero, suc, ◌+◌, ◌-◌, ◌%◌, ◌<◌, ◌≡◌, ◌≢◌, refl, ap, ap₂, sym, ◌∙◌, inl, inr, List, [], ◌∷◌,
  ◌++◌, Option, none, some, Bool, true, false, not, arith, length, get_or, ltb, ◌==◌, ltb→lt,
  ltb→le, ne→==, Bool-cases, if◌then◌else◌,
}
use cg2111a_final_project.Uart.Cbuffer.{
  Cbuffer, IsRing, is_full, is_empty, write, read, count, at, collect, contents,
}
use cg2111a_final_project.Uart.Cbuffer.Index.{
  store_total, get_elem?-get_or, length-collect, collect_same, collect-first,
}
use cg2111a_final_project.Uart.Cbuffer.Count.{
  count_cases, count_of, next, next_cases, next_in, at-count, at-next_differ, is_full-count,
  is_empty-count,
}

-- A queue with room for `room` elements.
abbrev pub push : ℕ → List ℕ → ℕ → Bool × List ℕ
push room q x = if ltb (length q) room then (true, q ++ x ∷ []) else (false, q)

abbrev pub pop : List ℕ → Option ℕ × List ℕ
pop [] = (none, [])
pop (x ∷ q) = (some x, q)

-- The buffer after an element was stored at the head.
module _ (size : ℕ) (b : Cbuffer) (ys : List ℕ) (v : IsRing size b) where
  abbrev after_write : Cbuffer
  after_write = record b { array = ys; head = next size b.head }

  after_write-IsRing : length ys ≡ length b.array → IsRing size after_write
  after_write-IsRing l = record {
    array_fits = l ∙ v.array_fits;
    head_in = next_in size b.head v.head_in;
    tail_in = v.tail_in;
  }

  count-after_write :
      length ys ≡ length b.array
      → count size b + 1 < size
      → count size after_write ≡ count size b + 1
  count-after_write l room =
      let (lt, side) = count_cases size b v in
      count_of size after_write (count size b + 1) (after_write-IsRing l) room (elim side [
        | inl (le, same) ↦ elim (next_cases size b.head v.head_in) [
          | inl (f, g) ↦ inl (omega (arith, same, f))
          | inr (f, g) ↦ inr (omega (arith, same, f, g))
        ]
        | inr (le, same) ↦ elim (next_cases size b.head v.head_in) [
          | inl (f, g) ↦ inr (omega (arith, same, f))
          | inr (f, g) ↦ absurd (omega (arith, le, g, v.tail_in))
        ]
      ])

  contents-after_write :
      (item : ℕ)
      → length ys ≡ length b.array
      → count size b + 1 < size
      → get_or ys (next size b.head) 0 ≡ item
      → ((k : ℕ) → k ≢ next size b.head → get_or ys k 0 ≡ get_or b.array k 0)
      → contents size after_write ≡ contents size b ++ item ∷ []
  contents-after_write item l room here there =
      ap (collect size ys b.tail) (count-after_write l room ∙ one_more)
      ∙ ap₂ (λ q x. q ++ x ∷ [])
          (collect_same size b.array ys b.tail (count size b)
            (λ k lt. there (at size b.tail k) (at-next_differ size b k v lt room)))
          (ap (λ i. get_or ys i 0) (at-count size b v) ∙ here)
    where
      one_more : count size b + 1 ≡ suc (count size b)
      one_more = omega arith

-- The buffer after an element was taken from the tail.
module _ (size : ℕ) (b : Cbuffer) (n : ℕ) (v : IsRing size b) (e : count size b ≡ suc n) where
  abbrev after_read : Cbuffer
  after_read = record b { tail = next size b.tail }

  after_read-IsRing : IsRing size after_read
  after_read-IsRing = record {
    array_fits = v.array_fits;
    head_in = v.head_in;
    tail_in = next_in size b.tail v.tail_in;
  }

  count-after_read : count size after_read ≡ n
  count-after_read =
      let (lt, side) = count_cases size b v in
      count_of size after_read n after_read-IsRing (omega (arith, lt, e)) (elim side [
        | inl (le, same) ↦ elim (next_cases size b.tail v.tail_in) [
          | inl (f, g) ↦ inl (omega (arith, same, e, f))
          | inr (f, g) ↦ absurd (omega (arith, same, e, g, v.head_in))
        ]
        | inr (le, same) ↦ elim (next_cases size b.tail v.tail_in) [
          | inl (f, g) ↦ inr (omega (arith, same, e, f))
          | inr (f, g) ↦ inl (omega (arith, same, e, f, g))
        ]
      ])

  contents-after_read :
      contents size b ≡ get_or b.array (next size b.tail) 0 ∷ contents size after_read
  contents-after_read =
      ap (collect size b.array b.tail) e
      ∙ collect-first size b.array b.tail (next size b.tail) n steps
      ∙ ap₂ (λ i m. get_or b.array i 0 ∷ collect size b.array (next size b.tail) m)
          (ap (λ i. i % size) first) (sym count-after_read)
    where
      first : b.tail + 1 + 0 ≡ b.tail + 1
      first = omega arith

      steps : (k : ℕ) → k < n → at size b.tail (suc k) ≡ at size (next size b.tail) k
      steps k lt =
          ap (λ i. i % size) regroup
          ∙ sym (ap (λ i. i % size) regroup' ∙ mod-add-mod (b.tail + 1) size (1 + k))
        where
          regroup : b.tail + 1 + suc k ≡ b.tail + 1 + (1 + k)
          regroup = omega arith

          regroup' : next size b.tail + 1 + k ≡ next size b.tail + (1 + k)
          regroup' = omega arith

-- On a buffer whose indices lie in its array, `write` stays inside the array, keeps the indices there,
-- and is the push of a queue that has room for one element less than the array: it answers false and
-- changes nothing when the queue is full.
pub write-push :
    (size : ℕ) (b : Cbuffer) (item : ℕ)
    → IsRing size b
    → (r : Bool × Cbuffer) × (write size b item ≡ some r)
      × IsRing size r.1
      × ((r.0, contents size r.1) ≡ push (size - 1) (contents size b) item)
unfolding write
write-push size b item v = elim (Bool-cases (ltb (count size b + 1) size)) [
  | inr full ↦ (
    (false, b),
    rw (is_full-count size b v, full) refl,
    v,
    rw (length-collect size b.array b.tail (count size b), shut full) refl,
  )
  | inl room ↦
      let lt : count size b + 1 < size = ltb→lt _ _ room in
      let inside : next size b.head < size = next_in size b.head v.head_in in
      let (ys, e, l, here, there) =
        store_total b.array (next size b.head) item (omega (arith, inside, v.array_fits)) in
      (
        (true, after_write size b ys v),
        rw (is_full-count size b v, room, e) refl,
        after_write-IsRing size b ys v l,
        rw
            (
              contents-after_write size b ys v item l lt here there,
              length-collect size b.array b.tail (count size b),
              open_for lt,
            )
            refl,
      )
]
  where
    shut : ltb (count size b + 1) size ≡ false → ltb (count size b) (size - 1) ≡ false
    shut full = ground (arith, ltb→le _ _ full)

    open_for : count size b + 1 < size → ltb (count size b) (size - 1) ≡ true
    open_for room = ground (arith, room)

-- On a buffer whose indices lie in its array, `read` stays inside the array, keeps the indices there,
-- and is the pop of the queue: the oldest element, or false and no change when there is none.
pub read-pop :
    (size : ℕ) (b : Cbuffer)
    → IsRing size b
    → (r : Option ℕ × Cbuffer) × (read size b ≡ some r)
      × IsRing size r.1
      × ((r.0, contents size r.1) ≡ pop (contents size b))
unfolding read
read-pop size b v = by_count (count size b) refl
  where
    by_count :
        (n : ℕ)
        → count size b ≡ n
        → (r : Option ℕ × Cbuffer) × (read size b ≡ some r)
          × IsRing size r.1
          × ((r.0, contents size r.1) ≡ pop (contents size b))
    by_count zero e = (
      (none, b),
      rw (is_empty-count size b v, e) refl,
      v,
      ap (λ n. (none, collect size b.array b.tail n)) e
          ∙ sym (ap (λ n. pop (collect size b.array b.tail n)) e),
    )
    by_count (suc n) e =
        let inside = next_in size b.tail v.tail_in in
        (
          (some (get_or b.array (next size b.tail) 0), after_read size b n v e),
          rw
              (
                is_empty-count size b v,
                e,
                ne→== (suc n) 0 (λ h. cc),
                get_elem?-get_or b.array (next size b.tail) (omega (arith, inside, v.array_fits)),
              )
              refl,
          after_read-IsRing size b n v e,
          sym (ap pop (contents-after_read size b n v e)),
        )

pub is_full-contents :
    (size : ℕ) (b : Cbuffer)
    → IsRing size b
    → is_full size b ≡ not (ltb (length (contents size b)) (size - 1))
is_full-contents size b v =
    is_full-count size b v
    ∙ ap not (same (count size b))
    ∙ ap (λ n. not (ltb n (size - 1))) (sym (length-collect size b.array b.tail (count size b)))
  where
    same : (n : ℕ) → ltb (n + 1) size ≡ ltb n (size - 1)
    same n = ground arith

pub is_empty-contents :
    (size : ℕ) (b : Cbuffer) → IsRing size b → is_empty b ≡ (length (contents size b) == 0)
is_empty-contents size b v =
    is_empty-count size b v
    ∙ ap (λ n. n == 0) (sym (length-collect size b.array b.tail (count size b)))
