-- ===== src/Tls/Locks.antt =====
-- tls_pthread.cpp, the same in both programs: the locks that OpenSSL takes and gives back through a
-- callback. The mutexes of the operating system are a parameter.
pub mod Entry
pub mod Exclusive
pub mod Life
pub mod Tests
use cg2111a_final_project.Base.{
  ℕ, zero, suc, ◌+◌, ◌%◌, ◌^◌, List, [], ◌∷◌, Option, none, some, ◌>>=◌, Bool, true, false,
  if◌then◌else◌, bit, get_elem?, store,
}
use cg2111a_final_project.Tls.Locks.Entry.{Mutexes, counted}

-- A call of the callback.
pub record Call : Type 0 where
  pub thread : ℕ
  pub mode : ℕ
  pub type : ℕ

-- What a pointer from `OPENSSL_malloc` points at: nothing, memory that was freed, or an array.
pub data Block {ℓ} (A : Type ℓ) : Type ℓ where
  null freed : Block A
  live : List A → Block A

abbrev pub array {ℓ} : {A : Type ℓ} → Block A → Option (List A)
array null = none
array freed = none
array (live xs) = some xs

-- `OPENSSL_free`; `none` is a second free.
abbrev pub free {ℓ} : {A : Type ℓ} → Block A → Option (Block A)
free null = some null
free freed = none
free (live xs) = some freed

-- A loop that assigns the same value to each element.
abbrev pub each {ℓ} : {A : Type ℓ} → A → List A → List A
each x [] = []
each x (y ∷ ys) = x ∷ each x ys

-- CRYPTO_LOCK is bit 0 of the mode.
abbrev pub crypto_lock : ℕ
crypto_lock = 0

module _ (m : Mutexes) where
  open m use {Mutex, init, lock, unlock}

  -- `lock_cs`, `lock_count`, and whether OpenSSL has the callback.
  pub record Table : Type 0 where
    pub lock_cs : Block Mutex
    pub lock_count : Block ℕ
    pub callback : Bool

  -- `CRYPTO_thread_setup()`, with what the two allocations return: arrays of CRYPTO_num_locks() elements.
  unfoldable pub thread_setup : Option (List Mutex) → Option (List ℕ) → Table → Table
  thread_setup (some cs) (some counts) t = record {
    lock_cs = live (each init cs);
    lock_count = live (each 0 counts);
    callback = true;
  }
  thread_setup (some cs) none t = record t { lock_cs = freed; lock_count = null }
  thread_setup none (some counts) t = record t { lock_cs = null; lock_count = freed }
  thread_setup none none t = record t { lock_cs = null; lock_count = null }

  -- The loop of `thread_cleanup` from index `i` on: the mutexes that are handed to
  -- `pthread_mutex_destroy`, in order; `none` is a mutex outside an array.
  unfoldable pub destroy_all : Block Mutex → ℕ → ℕ → Option (List Mutex)
  destroy_all b zero i = some []
  destroy_all b (suc n) i =
      array b >>= λ cs. get_elem? cs i >>= λ x. destroy_all b n (i + 1) >>= λ xs. some (x ∷ xs)

  -- `thread_cleanup()`, for `n` locks: the mutexes that are destroyed, and the table.
  unfoldable pub thread_cleanup : ℕ → Table → Option (List Mutex × Table)
  unfolding destroy_all
  thread_cleanup n t = destroy_all t.lock_cs n 0 >>= λ destroyed. free t.lock_cs >>= λ cs.
      free t.lock_count >>= λ counts.
      some (destroyed, record { lock_cs = cs; lock_count = counts; callback = false })

  -- A call that has to wait for a mutex, or the table afterwards.
  pub data Called : Type 0 where
    waits : Called
    done : Table → Called

  abbrev locked : Table → List Mutex → List ℕ → ℕ → Option Mutex → Option Called
  locked t cs counts type none = some waits
  locked t cs counts type (some x) = store cs type x >>= λ cs'. get_elem? counts type >>= λ c.
      store counts type (counted c) >>= λ counts'.
      some (done (record t { lock_cs = live cs'; lock_count = live counts' }))

  -- `pthreads_locking_callback(mode, type, file, line)` in a thread that no other interrupts; `none` is
  -- an access outside an array.
  unfoldable pub locking_callback : ℕ → ℕ → ℕ → Table → Option Called
  locking_callback thread mode type t = array t.lock_cs >>= λ cs. get_elem? cs type >>= λ x.
      if bit crypto_lock mode
      then (array t.lock_count >>= λ counts. locked t cs counts type (lock thread x))
      else (store cs type (unlock x) >>= λ cs'. some (done (record t { lock_cs = live cs' })))

  abbrev after : Table → Called → Table
  after t waits = t
  after t (done t') = t'

  -- Calls one after the other; one that waits changes nothing.
  unfoldable pub calls : List Call → Table → Option Table
  unfolding locking_callback
  calls [] t = some t
  calls (c ∷ cs) t = locking_callback c.thread c.mode c.type t >>= λ out. calls cs (after t out)
