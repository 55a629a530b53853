-- ===== src/Tls/Locks/Tests.antt =====
-- The theorems on the locks, with mutexes that keep who holds them.
use cg2111a_final_project.Base.{
  ℕ, ◌%◌, ◌^◌, ◌≡◌, refl, ◌⊎◌, inl, inr, ◌==◌, Bool-cases, List, [], ◌∷◌, Option, none, some, false,
  arith, length,
}
use cg2111a_final_project.Tls.Locks.Entry.{
  Mutexes, IsMutexes, Entry, outside, entered, loaded, inside, moved, counted, lock, load, store,
  Reach, here, next,
}
use cg2111a_final_project.Tls.Locks.Exclusive.{Reach-count}
use cg2111a_final_project.Tls.Locks.{
  Call, Table, null, freed, live, thread_setup, thread_cleanup, calls,
}
use cg2111a_final_project.Tls.Locks.Life.{thread_setup-thread_cleanup}

taken_by : ℕ → Option ℕ → Option (Option ℕ)
taken_by t none = some (some t)
taken_by t (some u) = none

abbrev owned : Mutexes
owned = record {
  Mutex = Option ℕ;
  init = none;
  lock = taken_by;
  unlock = λ x. none;
  holder = λ x. x;
}

owned-IsMutexes : IsMutexes owned
unfolding taken_by
owned-IsMutexes = record {
  holder-init = refl;
  holder-lock = only_free;
  lock-free = always_free;
  holder-unlock = λ t x h. refl;
}
  where
    only_free : (t : ℕ) (x y : Option ℕ) → taken_by t x ≡ some y → (x ≡ none) × (y ≡ some t)
    only_free t none y e = (refl, cc)
    only_free t (some u) y e = cc

    always_free : (t : ℕ) (x : Option ℕ) → x ≡ none → (y : Option ℕ) × (taken_by t x ≡ some y)
    always_free t none e = (some t, refl)
    always_free t (some u) e = cc

-- Thread 7 has taken the lock and counted.
abbrev once : Entry owned
once = record {
  mutex = some 7;
  count = counted 0;
  at = moved (moved (moved (λ t. outside) 7 entered) 7 (loaded 0)) 7 inside;
}

once-Reach : Reach owned 1 once
unfolding taken_by
once-Reach = next (next (next here (lock 7 (some 7) refl refl)) (load 7 refl)) (store 7 0 refl)

once-settled : (t : ℕ) → (once.at t ≡ outside) ⊎ (once.at t ≡ inside)
once-settled t = elim (Bool-cases (t == 7)) [
  | inl same ↦ inr (rw same refl)
  | inr other ↦ inl (rw other refl)
]

Reach-count_example : once.count ≡ 1 % 2 ^ 64
Reach-count_example = Reach-count owned 1 once owned-IsMutexes once-Reach once-settled

abbrev empty : Table owned
empty = record { lock_cs = null; lock_count = null; callback = false }

abbrev two_calls : List Call
two_calls =
    record { thread = 7; mode = 1; type = 1 } ∷ record { thread = 8; mode = 1; type = 1 } ∷ []

thread_setup-thread_cleanup_example :
    ((t' : Table owned) × (held : List (Option ℕ)) × (calls owned two_calls
          (thread_setup owned (some (none ∷ some 3 ∷ [])) (some (5 ∷ 6 ∷ [])) empty)
        ≡ some t')
      × (t'.lock_cs ≡ live held)
      × (length held ≡ 2)
      × (thread_cleanup owned 2 t'
          ≡ some (held, record { lock_cs = freed; lock_count = freed; callback = false })))
    × (thread_cleanup owned 2 (thread_setup owned (some (none ∷ some 3 ∷ [])) none empty) ≡ none)
    × (thread_cleanup owned 2 (thread_setup owned none (some (5 ∷ 6 ∷ [])) empty) ≡ none)
    × (thread_cleanup owned 2 (thread_setup owned none none empty) ≡ none)
thread_setup-thread_cleanup_example =
    thread_setup-thread_cleanup owned 1 (none ∷ some 3 ∷ []) (5 ∷ 6 ∷ []) empty two_calls refl refl
      (omega arith, (omega arith, tt))
