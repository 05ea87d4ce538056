-- ===== src/Mutex/Tests.antt =====
-- os_mutex.cpp: a semaphore that is a counter, runs, and the theorems at concrete threads.
use psi_shared.Base.{
  ℕ, zero, suc, ◌<◌, ◌≡◌, refl, arith, List, [], ◌∷◌, Option, none, some, true, false,
}
use psi_shared.Mutex.{Semaphores, Mutex, System, lock, unlock}
use psi_shared.Mutex.Family.{update}
use psi_shared.Mutex.Exclusion.{
  IsSemaphore, enter, leave, Reach, here, next, mutual_exclusion, lock_progress, IsOpen,
}

abbrev pub taken : ℕ → Option ℕ
taken zero = none
taken (suc v) = some v

-- One semaphore, whose value is the state of the system.
abbrev pub counter : Semaphores ℕ
counter = record {
  sem_open = λ name w. (w, some 7);
  sem_create = λ name w. (w, some 7);
  sem_close = λ h w. w;
  sem_wait = λ h w. taken w;
  sem_post = λ h w. suc w;
}

abbrev named : List ℕ
named = 109 ∷ []

counter-semaphore : IsSemaphore counter named
counter-semaphore = record {
  value = λ w. w;
  is_open = λ h. h ≡ 7;
  wait_zero = λ o e. rw e refl;
  wait_suc = λ {h} {v} o e. (v, rw e refl, refl);
  post_lem = λ o. refl;
  open_lem = λ e. ground arith;
  create_lem = λ e. ground arith;
}

abbrev pub threads : ℕ → Mutex
threads i = record { handle = some 7; name = named }

threads-IsOpen : (i : ℕ) → IsOpen counter-semaphore (threads i)
unfolding counter-semaphore
threads-IsOpen i = (7, refl, refl)

-- Thread 0 has come and gone, thread 1 is at work.
abbrev second : System ℕ
second = record { world = 0; at_work = update (update (update (λ i. false) 0 true) 0 false) 1 true }

second_reached : Reach counter 2 threads 1 second
unfolding lock unlock
second_reached =
    next (next (next here (enter 0 {w = 0} (omega arith) refl refl)) (leave 0 (omega arith) refl))
      (enter 1 {w = 0} (omega arith) refl refl)

starts_with_one : counter-semaphore.value 1 ≡ 1
unfolding counter-semaphore
starts_with_one = refl

mutual_exclusion_example : ◌≡◌ {A = ℕ} 1 1
mutual_exclusion_example =
    mutual_exclusion counter-semaphore 2 threads 1 threads-IsOpen starts_with_one second_reached 1 1
      (omega arith) (omega arith) refl refl

lock_progress_example :
    (((j : ℕ) → j < 2 → second.at_work j ≡ false)
      → (w1 : ℕ) × (lock counter (threads 0) second.world ≡ some w1))
    × ((j : ℕ) → j < 2 → second.at_work j ≡ true → lock counter (threads 0) second.world ≡ none)
lock_progress_example =
    lock_progress counter-semaphore 2 threads 1 threads-IsOpen starts_with_one second_reached 0
