-- ===== src/Mutex.antt =====
-- psi/src/psi/shared/os_mutex.h and os_mutex.cpp, as built on Linux: a named semaphore that the
-- processes lock and unlock.
pub mod Family
pub mod Exclusion
mod Tests
use psi_shared.Base.{ℕ, List, Option, none, some, Bool, true, false}

-- The calls of the system on the state `W` of its semaphores. A call that fails answers `none`;
-- `sem_wait` has no outcome while it blocks.
pub record Semaphores (W : Type 0) : Type 0 where
  -- `sem_open` with the flags 0
  pub sem_open : List ℕ → W → W × Option ℕ
  -- `sem_open` with `O_CREAT`, and the value 1 for a new semaphore
  pub sem_create : List ℕ → W → W × Option ℕ
  pub sem_close : ℕ → W → W
  pub sem_wait : ℕ → W → Option W
  pub sem_post : ℕ → W → W

-- A handle that is null is `none`.
pub record Mutex : Type 0 where
  pub handle : Option ℕ
  pub name : List ℕ

module _ {W : Type 0} (os : Semaphores W) where
  unfoldable pub new_mutex : List ℕ → W → W × Mutex
  new_mutex name w =
      let (w1, opened) = os.sem_open name w in
      elim opened [
        | some h ↦ (w1, record { handle = some h; name = name })
        | none ↦
            let (w2, created) = os.sem_create name w1 in
            (w2, record { handle = created; name = name })
      ]

  unfoldable pub destroy_mutex : Mutex → W → W
  destroy_mutex m w = elim m.handle [ some h ↦ os.sem_close h w | none ↦ w ]

  unfoldable pub lock : Mutex → W → Option W
  lock m w = elim m.handle [ some h ↦ os.sem_wait h w | none ↦ some w ]

  unfoldable pub unlock : Mutex → W → W
  unlock m w = elim m.handle [ some h ↦ os.sem_post h w | none ↦ w ]

-- Threads that lock a mutex, do their work, and unlock it, in any order: which of them are at work,
-- each with a `Mutex` of its own.
pub record System (W : Type 0) : Type 0 where
  pub world : W
  pub at_work : ℕ → Bool
