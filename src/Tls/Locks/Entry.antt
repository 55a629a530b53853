-- ===== src/Tls/Locks/Entry.antt =====
-- One lock of tls_pthread.cpp among threads that call `pthreads_locking_callback`.
use cg2111a_final_project.Base.{ℕ, ◌+◌, ◌%◌, ◌^◌, ◌≡◌, Option, none, some, ◌==◌, if◌then◌else◌}

-- The mutexes of pthread.h: `lock` is `none` when the call has to wait.
pub record Mutexes : Type 1 where
  pub Mutex : Type 0
  pub init : Mutex
  pub lock : ℕ → Mutex → Option Mutex
  pub unlock : Mutex → Mutex
  pub holder : Mutex → Option ℕ

-- What POSIX says of them: a new one is free, a free one can be taken, one that is held makes the caller
-- wait, and one that its holder gives back is free.
pub record IsMutexes (m : Mutexes) : Type 0 where
  pub holder-init : m.holder m.init ≡ none
  pub holder-lock :
      (t : ℕ) (x y : m.Mutex) → m.lock t x ≡ some y → (m.holder x ≡ none) × (m.holder y ≡ some t)
  pub lock-free : (t : ℕ) (x : m.Mutex) → m.holder x ≡ none → (y : m.Mutex) × (m.lock t x ≡ some y)
  pub holder-unlock : (t : ℕ) (x : m.Mutex) → m.holder x ≡ some t → m.holder (m.unlock x) ≡ none

-- `lock_count[type]++` for a `long` of 64 bits
abbrev pub counted : ℕ → ℕ
counted c = (c + 1) % 2 ^ 64

-- Where a thread stands: outside; behind `pthread_mutex_lock`; with the count loaded for the increment;
-- and behind the callback, with the lock.
pub data Phase : Type 0 where
  outside entered : Phase
  loaded : ℕ → Phase
  inside : Phase

abbrev pub moved : (ℕ → Phase) → ℕ → Phase → ℕ → Phase
moved at t p u = if u == t then p else at u

-- `lock_cs[type]`, `lock_count[type]`, and the threads.
pub record Entry (m : Mutexes) : Type 0 where
  pub mutex : m.Mutex
  pub count : ℕ
  pub at : ℕ → Phase

abbrev pub created : (m : Mutexes) → Entry m
created m = record { mutex = m.init; count = 0; at = λ t. outside }

-- A step of thread `t`, and how often it takes the lock. OpenSSL gives back only locks that the thread
-- has taken.
pub data Step (m : Mutexes) (e : Entry m) : ℕ → Entry m → Type 0 where
  lock :
      (t : ℕ) (y : m.Mutex)
      → e.at t ≡ outside
      → m.lock t e.mutex ≡ some y
      → Step m e 1 (record e { mutex = y; at = moved e.at t entered })
  load : (t : ℕ) → e.at t ≡ entered → Step m e 0 (record e { at = moved e.at t (loaded e.count) })
  store :
      (t c : ℕ)
      → e.at t ≡ loaded c
      → Step m e 0 (record e { count = counted c; at = moved e.at t inside })
  unlock :
      (t : ℕ)
      → e.at t ≡ inside
      → Step m e 0 (record e { mutex = m.unlock e.mutex; at = moved e.at t outside })

-- What can be reached when the lock was taken so many times.
pub data Reach (m : Mutexes) : ℕ → Entry m → Type 0 where
  here : Reach m 0 (created m)
  next : {n k : ℕ} {e e' : Entry m} → Reach m n e → Step m e k e' → Reach m (n + k) e'
