-- ===== src/Tls/Locks/Life.antt =====
-- The arrays of the locks, from `CRYPTO_thread_setup` to `thread_cleanup`.
use cg2111a_final_project.Base.{
  ℕ, zero, suc, ◌+◌, ◌<◌, ◌≡◌, refl, sym, ap, subst, ◌∙◌, ◌⊎◌, inl, inr, List, [], ◌∷◌, ◌++◌,
  append_assoc, Option, none, some, false, length, arith, get_elem?, get_elem?-append,
  length-append, store, bit, Bool-cases, Option-cases,
}
use cg2111a_final_project.Tls.Locks.Entry.{Mutexes, counted}
use cg2111a_final_project.Tls.Locks.{
  Call, freed, live, each, crypto_lock, Table, Called, waits, done, thread_setup, destroy_all,
  thread_cleanup, locking_callback, calls,
}

get_elem?_total {ℓ} :
    {A : Type ℓ} (xs : List A) (i : ℕ) → i < length xs → (x : A) × (get_elem? xs i ≡ some x)
get_elem?_total [] i h = absurd (omega arith)
get_elem?_total (x ∷ xs) zero h = (x, refl)
get_elem?_total (x ∷ xs) (suc i) h = get_elem?_total xs i (omega arith)

store_total {ℓ} :
    {A : Type ℓ} (xs : List A) (i : ℕ) (v : A)
    → i < length xs
    → (ys : List A) × (store xs i v ≡ some ys) × (length ys ≡ length xs)
store_total [] i v h = absurd (omega arith)
store_total (x ∷ xs) zero v h = (v ∷ xs, refl, refl)
store_total (x ∷ xs) (suc i) v h =
    let (ys, e, l) = store_total xs i v (omega arith) in (x ∷ ys, rw e refl, ap suc l)

length-each {ℓ} : {A : Type ℓ} (x : A) (ys : List A) → length (each x ys) ≡ length ys
length-each x [] = refl
length-each x (y ∷ ys) = ap suc (length-each x ys)

abbrev pub AllBelow : ℕ → List Call → Type 0
AllBelow n [] = Unit
AllBelow n (c ∷ cs) = (c.type < n) × AllBelow n cs

module _ (m : Mutexes) where
  open m use {Mutex, init, lock, unlock}

  -- Both arrays are there, with an element for each lock.
  Ready : ℕ → Table m → Type 0
  Ready n t =
      (cs : List Mutex) × (counts : List ℕ) × (t.lock_cs ≡ live cs)
      × (t.lock_count ≡ live counts)
      × (length cs ≡ n)
      × (length counts ≡ n)

  AfterCall : ℕ → Option (Called m) → Type 0
  AfterCall n out = (out ≡ some waits) ⊎ ((t' : Table m) × (out ≡ some (done t')) × Ready n t')

  locking_callback-Ready :
      (n : ℕ) (t : Table m) (c : Call)
      → Ready n t
      → c.type < n
      → AfterCall n (locking_callback m c.thread c.mode c.type t)
  unfolding locking_callback Ready AfterCall
  locking_callback-Ready n t c (cs, counts, e, e', l, l') h =
      let (x, got) = get_elem?_total cs c.type (omega (arith, l)) in
      let (k, got') = get_elem?_total counts c.type (omega (arith, l')) in
      elim (Bool-cases (bit crypto_lock c.mode)) [
        | inl locking ↦ elim (Option-cases (lock c.thread x)) [
          | inl held ↦ inl (rw (e, got, locking, e', held) refl)
          | inr (y, taken) ↦
              let (cs', stored, s) = store_total cs c.type y (omega (arith, l)) in
              let (counts', stored', s') =
                store_total counts c.type (counted k) (omega (arith, l')) in
              inr (
                record t { lock_cs = live cs'; lock_count = live counts' },
                rw (e, got, locking, e', taken, stored, got', stored') refl,
                (cs', counts', refl, refl, s ∙ l, s' ∙ l'),
              )
        ]
        | inr unlocking ↦
            let (cs', stored, s) = store_total cs c.type (unlock x) (omega (arith, l)) in
            inr (
              record t { lock_cs = live cs' },
              rw (e, got, unlocking, stored) refl,
              (cs', counts, refl, e', s ∙ l, l'),
            )
      ]

  calls-Ready :
      (n : ℕ) (ks : List Call) (t : Table m)
      → Ready n t
      → AllBelow n ks
      → (t' : Table m) × (calls m ks t ≡ some t') × Ready n t'
  unfolding calls AfterCall
  calls-Ready n [] t v h = (t, refl, v)
  calls-Ready n (k ∷ ks) t v h = elim (locking_callback-Ready n t k v h.0) [
    | inl w ↦ let (t', e, v') = calls-Ready n ks t v h.1 in (t', rw (w, e) refl, v')
    | inr (t1, d, v1) ↦ let (t', e, v') = calls-Ready n ks t1 v1 h.1 in (t', rw (d, e) refl, v')
  ]

  -- From index `i` on, the mutexes behind the first `i`.
  destroy_all_total :
      (cs front back : List Mutex)
      → cs ≡ front ++ back
      → destroy_all m (live cs) (length back) (length front) ≡ some back
  unfolding destroy_all
  destroy_all_total cs front [] e = refl
  destroy_all_total cs front (x ∷ back) e =
      let found : get_elem? cs (length front) ≡ some x =
        ap (λ l. get_elem? l (length front)) e ∙ get_elem?-append front back x in
      let stepped : length front + 1 ≡ length (front ++ x ∷ []) =
        omega (arith, length-append front (x ∷ [])) in
      let rest =
        destroy_all_total cs (front ++ x ∷ []) back (e ∙ sym (append_assoc front (x ∷ []) back)) in
      rw (found, stepped, rest) refl

  Ready-cleanup :
      (n : ℕ) (t : Table m)
      → Ready n t
      → (cs : List Mutex) × (t.lock_cs ≡ live cs)
        × (length cs ≡ n)
        × (thread_cleanup m n t
            ≡ some (cs, record { lock_cs = freed; lock_count = freed; callback = false }))
  unfolding thread_cleanup Ready
  Ready-cleanup n t (cs, counts, e, e', s, s') =
      let all : destroy_all m (live cs) n 0 ≡ some cs =
        subst (λ k. destroy_all m (live cs) k 0 ≡ some cs) s (destroy_all_total cs [] cs refl) in
      (cs, e, s, rw (e, e', all) refl)

-- OpenSSL has at least one lock. When both allocations of `CRYPTO_thread_setup` succeed, any calls of the
-- callback for its locks, by any threads and waiting or not, stay inside the arrays, and `thread_cleanup`
-- after them hands every mutex of the array, each once and in order, to `pthread_mutex_destroy`, frees
-- both arrays and takes the callback back. When an allocation fails, `thread_cleanup` uses a pointer
-- that is null or was freed.
pub thread_setup-thread_cleanup :
    (m : Mutexes) (k : ℕ) (cs : List m.Mutex) (counts : List ℕ) (t : Table m) (ks : List Call)
    → length cs ≡ suc k
    → length counts ≡ suc k
    → AllBelow (suc k) ks
    → ((t' : Table m) × (held : List m.Mutex) × (calls m ks
            (thread_setup m (some cs) (some counts) t)
          ≡ some t')
        × (t'.lock_cs ≡ live held)
        × (length held ≡ suc k)
        × (thread_cleanup m (suc k) t'
            ≡ some (held, record { lock_cs = freed; lock_count = freed; callback = false })))
      × (thread_cleanup m (suc k) (thread_setup m (some cs) none t) ≡ none)
      × (thread_cleanup m (suc k) (thread_setup m none (some counts) t) ≡ none)
      × (thread_cleanup m (suc k) (thread_setup m none none t) ≡ none)
unfolding thread_setup thread_cleanup destroy_all Ready
thread_setup-thread_cleanup m k cs counts t ks l l' h =
    let (t', run, ready) =
      calls-Ready m (suc k) ks (thread_setup m (some cs) (some counts) t)
        (
          each m.init cs,
          each 0 counts,
          refl,
          refl,
          length-each m.init cs ∙ l,
          length-each 0 counts ∙ l',
        )
        h in
    let (held, there, sized, cleaned) = Ready-cleanup m (suc k) t' ready in
    ((t', held, run, there, sized, cleaned), refl, refl, refl)
