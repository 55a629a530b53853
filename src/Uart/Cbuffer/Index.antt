-- ===== src/Uart/Cbuffer/Index.antt =====
-- Indices that wrap around, and what a write to an array changes.
use native.Mathlib.Nat.{mod-eq_of_lt, mod-eq-sub-mod}
use cg2111a_final_project.Base.{
  ℕ, zero, suc, ◌+◌, ◌-◌, ◌%◌, ◌<◌, ◌≡◌, ◌≢◌, refl, ap, ap₂, ◌∙◌, ◌⊎◌, inl, inr, List, [], ◌∷◌,
  ◌++◌, some, arith, length, get_elem?, get_or, store, ltb, ltb→lt, ltb→le, Bool-cases,
  length-append,
}
use cg2111a_final_project.Uart.Cbuffer.{at, collect}

-- An index below twice the size wraps around at most once.
pub wrap_cases :
    (size i : ℕ)
    → i < size + size
    → ((i % size ≡ i) × (i < size)) ⊎ ((i % size + size ≡ i) × (i % size < size))
wrap_cases size i h = elim (Bool-cases (ltb i size)) [
  | inl small ↦ inl (mod-eq_of_lt (ltb→lt i size small), ltb→lt i size small)
  | inr big ↦
      let le = ltb→le i size big in
      let wrapped : i % size ≡ i - size = mod-eq-sub-mod le ∙ mod-eq_of_lt (omega (arith, le, h)) in
      inr (omega (arith, wrapped, le), omega (arith, wrapped, le, h))
]

pub store_total :
    (xs : List ℕ) (j v : ℕ)
    → j < length xs
    → (ys : List ℕ) × (store xs j v ≡ some ys)
      × (length ys ≡ length xs)
      × (get_or ys j 0 ≡ v)
      × ((k : ℕ) → k ≢ j → get_or ys k 0 ≡ get_or xs k 0)
store_total [] j v h = absurd (omega arith)
store_total (x ∷ xs) zero v h = (v ∷ xs, refl, refl, refl, others)
  where
    others : (k : ℕ) → k ≢ 0 → get_or (v ∷ xs) k 0 ≡ get_or (x ∷ xs) k 0
    others zero ne = absurd (ne refl)
    others (suc k) ne = refl
store_total (x ∷ xs) (suc j) v h =
    let (ys, e, l, here, there) = store_total xs j v (omega arith) in
    (x ∷ ys, rw e refl, ap suc l, here, others ys there)
  where
    others :
        (ys : List ℕ)
        → ((k : ℕ) → k ≢ j → get_or ys k 0 ≡ get_or xs k 0)
        → (k : ℕ) → k ≢ suc j
        → get_or (x ∷ ys) k 0 ≡ get_or (x ∷ xs) k 0
    others ys there zero ne = refl
    others ys there (suc k) ne = there k (λ e. ne (ap suc e))

pub get_elem?-get_or : (xs : List ℕ) (i : ℕ) → i < length xs → get_elem? xs i ≡ some (get_or xs i 0)
get_elem?-get_or [] i h = absurd (omega arith)
get_elem?-get_or (x ∷ xs) zero h = refl
get_elem?-get_or (x ∷ xs) (suc i) h = get_elem?-get_or xs i (omega arith)

pub length-collect : (size : ℕ) (xs : List ℕ) (i n : ℕ) → length (collect size xs i n) ≡ n
length-collect size xs i zero = refl
length-collect size xs i (suc n) = omega (
  arith,
  length-append (collect size xs i n) (get_or xs (at size i n) 0 ∷ []),
  length-collect size xs i n,
)

-- Arrays that agree on the indices visited.
pub collect_same :
    (size : ℕ) (xs ys : List ℕ) (i n : ℕ)
    → ((k : ℕ) → k < n → get_or ys (at size i k) 0 ≡ get_or xs (at size i k) 0)
    → collect size ys i n ≡ collect size xs i n
collect_same size xs ys i zero h = refl
collect_same size xs ys i (suc n) h =
    ap₂ (λ l x. l ++ x ∷ []) (collect_same size xs ys i n (λ k lt. h k (omega arith)))
      (h n (omega arith))

-- The first element visited in front of the others.
pub collect-first :
    (size : ℕ) (xs : List ℕ) (i j n : ℕ)
    → ((k : ℕ) → k < n → at size i (suc k) ≡ at size j k)
    → collect size xs i (suc n) ≡ get_or xs (at size i 0) 0 ∷ collect size xs j n
collect-first size xs i j zero h = refl
collect-first size xs i j (suc n) h =
    ap₂ (λ l k. l ++ get_or xs k 0 ∷ []) (collect-first size xs i j n (λ k lt. h k (omega arith)))
      (h n (omega arith))
