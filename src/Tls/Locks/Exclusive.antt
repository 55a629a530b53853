-- ===== src/Tls/Locks/Exclusive.antt =====
-- The count of a lock: its increment is behind the lock, so no thread loses one.
use cg2111a_final_project.Base.{
  ℕ, ◌+◌, ◌%◌, ◌^◌, ◌≡◌, ◌≢◌, refl, sym, ap, subst, ◌∙◌, ◌⊎◌, inl, inr, none, some, ◌==◌, arith,
  Bool-cases, ==_iff, ==_refl, ne→==,
}
use cg2111a_final_project.Tls.Locks.Entry.{
  Mutexes, IsMutexes, Phase, outside, entered, loaded, inside, moved, counted, Entry, Step, lock,
  load, store, unlock, Reach, here, next,
}

moved_here : (at : ℕ → Phase) (t : ℕ) (p : Phase) → moved at t p t ≡ p
moved_here at t p = rw (==_refl t) refl

moved_there : (at : ℕ → Phase) (t : ℕ) (p : Phase) (u : ℕ) → u ≢ t → moved at t p u ≡ at u
moved_there at t p u h = rw (ne→== u t h) refl

-- The count of a lock that was taken `n` times, while its holder is in a phase.
Fits : Phase → ℕ → ℕ → Type 0
Fits outside count n = count ≡ n % 2 ^ 64
Fits entered count n = counted count ≡ n % 2 ^ 64
Fits (loaded c) count n = counted c ≡ n % 2 ^ 64
Fits inside count n = count ≡ n % 2 ^ 64

-- Thread `t` alone is not outside.
record Held (m : Mutexes) (n : ℕ) (e : Entry m) (t : ℕ) (p : Phase) : Type 0 where
  holds : m.holder e.mutex ≡ some t
  others : (u : ℕ) → u ≢ t → e.at u ≡ outside
  fits : Fits p e.count n

data Standing (m : Mutexes) (n : ℕ) (e : Entry m) : Type 0 where
  free :
      m.holder e.mutex ≡ none → ((u : ℕ) → e.at u ≡ outside) → e.count ≡ n % 2 ^ 64 → Standing m n e
  held : (t : ℕ) (p : Phase) → e.at t ≡ p → Held m n e t p → Standing m n e

Standing-Held :
    (m : Mutexes) (n : ℕ) (e : Entry m) (t : ℕ) (p : Phase)
    → Standing m n e
    → e.at t ≡ p
    → p ≢ outside
    → Held m n e t p
Standing-Held m n e t p (free none_holds all counts) here_p active =
    absurd (active (sym here_p ∙ all t))
Standing-Held m n e t p (held t0 p0 at_p0 h) here_p active = elim (Bool-cases (t == t0)) [
  | inl same ↦
      let t_is : t0 ≡ t = sym ((==_iff t t0).0 same) in
      let p_is : p0 ≡ p = sym at_p0 ∙ ap e.at t_is ∙ here_p in
      subst (λ q. Held m n e t q) p_is (subst (λ u. Held m n e u p0) t_is h)
  | inr other ↦ absurd (active (sym here_p ∙ h.others t (λ s. cc (other, (==_iff t t0).1 s))))
]

step-Standing :
    (m : Mutexes) (n k : ℕ) (e e' : Entry m)
    → IsMutexes m
    → Standing m n e
    → Step m e k e'
    → Standing m (n + k) e'
unfolding Fits
step-Standing m n k e e' v (free none_holds all counts) (lock t y out got) =
    held t entered (moved_here e.at t entered) (record {
      holds = (v.holder-lock t e.mutex y got).1;
      others = λ u h. moved_there e.at t entered u h ∙ all u;
      fits = omega (arith, counts);
    })
step-Standing m n k e e' v (held t0 p0 at_p0 h) (lock t y out got) =
    absurd (cc (h.holds, (v.holder-lock t e.mutex y got).0))
step-Standing m n k e e' v s (load t at_t) =
    let h = Standing-Held m n e t entered s at_t (λ q. cc) in
    held t (loaded e.count) (moved_here e.at t (loaded e.count)) (record {
      holds = h.holds;
      others = λ u g. moved_there e.at t (loaded e.count) u g ∙ h.others u g;
      fits = omega (arith, h.fits);
    })
step-Standing m n k e e' v s (store t c at_t) =
    let h = Standing-Held m n e t (loaded c) s at_t (λ q. cc) in
    held t inside (moved_here e.at t inside) (record {
      holds = h.holds;
      others = λ u g. moved_there e.at t inside u g ∙ h.others u g;
      fits = omega (arith, h.fits);
    })
step-Standing m n k e e' v s (unlock t at_t) =
    let h = Standing-Held m n e t inside s at_t (λ q. cc) in
    free (v.holder-unlock t e.mutex h.holds)
      (λ u. elim (Bool-cases (u == t)) [
        | inl same ↦ rw same refl
        | inr other ↦
            moved_there e.at t outside u (λ q. cc (other, (==_iff u t).1 q))
            ∙ h.others u (λ q. cc (other, (==_iff u t).1 q))
      ])
      (omega (arith, h.fits))

Reach-Standing : (m : Mutexes) (n : ℕ) (e : Entry m) → IsMutexes m → Reach m n e → Standing m n e
Reach-Standing m n e v here = free v.holder-init (λ u. refl) refl
Reach-Standing m n e v (next {n = n0} {k = k} {e = e0} before step) =
    step-Standing m n0 k e0 e v (Reach-Standing m n0 e0 v before) step

-- Two threads past `pthread_mutex_lock` are one, and it holds the mutex.
pub Reach-exclusive :
    (m : Mutexes) (n : ℕ) (e : Entry m) (t u : ℕ)
    → IsMutexes m
    → Reach m n e
    → e.at t ≢ outside
    → e.at u ≢ outside
    → (t ≡ u) × (m.holder e.mutex ≡ some t)
Reach-exclusive m n e t u v r active active' =
    let s = Reach-Standing m n e v r in
    let h = Standing-Held m n e t (e.at t) s refl active in
    elim (Bool-cases (u == t)) [
      | inl same ↦ (sym ((==_iff u t).0 same), h.holds)
      | inr other ↦ absurd (active' (h.others u (λ q. cc (other, (==_iff u t).1 q))))
    ]

-- However the threads that call `pthreads_locking_callback` for one lock interleave, with mutexes that do
-- what POSIX says and OpenSSL giving back only what a thread has taken: whenever no thread is between
-- taking the lock and the end of its increment, the count is the number of times the lock was taken,
-- as a `long` of 64 bits, so no increment was lost.
pub Reach-count :
    (m : Mutexes) (n : ℕ) (e : Entry m)
    → IsMutexes m
    → Reach m n e
    → ((t : ℕ) → (e.at t ≡ outside) ⊎ (e.at t ≡ inside))
    → e.count ≡ n % 2 ^ 64
unfolding Fits
Reach-count m n e v r settled = counts (Reach-Standing m n e v r)
  where
    counts : Standing m n e → e.count ≡ n % 2 ^ 64
    counts (free none_holds all counted_up) = counted_up
    counts (held t p at_p h) = elim (settled t) [
      | inl out ↦ subst (λ q. Fits q e.count n) (sym at_p ∙ out) h.fits
      | inr ins ↦ subst (λ q. Fits q e.count n) (sym at_p ∙ ins) h.fits
    ]
