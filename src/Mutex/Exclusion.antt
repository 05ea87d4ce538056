-- ===== src/Mutex/Exclusion.antt =====
-- os_mutex.cpp: threads and processes over one named mutex, interleaved in any order.
use psi_shared.Base.{
  ℕ, zero, suc, ◌+◌, ◌<◌, ◌≡◌, ◌≢◌, ◌⊎◌, inl, inr, refl, sym, arith, List, none, some, true, false,
  Option-cases, ne→==, ==_refl,
}
use psi_shared.Mutex.{Semaphores, Mutex, new_mutex, lock, unlock, System}
use psi_shared.Mutex.Family.{update, count, count-update, count-pos, count_quiet, count-one}

-- What the code relies on the system for: `value` is the value of the semaphore of the name, and
-- `is_open` says which handles are open on it.
pub record IsSemaphore {W : Type 0} (os : Semaphores W) (name : List ℕ) : Type 1 where
  pub value : W → ℕ
  pub is_open : ℕ → Type 0
  pub wait_zero : {h : ℕ} {w : W} → is_open h → value w ≡ 0 → os.sem_wait h w ≡ none
  pub wait_suc :
      {h v : ℕ} {w : W}
      → is_open h
      → value w ≡ suc v
      → (w1 : W) × (os.sem_wait h w ≡ some w1) × (value w1 ≡ v)
  pub post_lem : {h : ℕ} {w : W} → is_open h → value (os.sem_post h w) ≡ suc (value w)
  -- An open of an existing semaphore that succeeds, and one that creates it, open it.
  pub open_lem : {h : ℕ} {w : W} → (os.sem_open name w).1 ≡ some h → is_open h
  pub create_lem : {h : ℕ} {w : W} → (os.sem_create name w).1 ≡ some h → is_open h

-- `n` threads, each with its own `Mutex`, and the state of the system they start in.
module _ {W : Type 0} (os : Semaphores W) (n : ℕ) (mutex : ℕ → Mutex) (w0 : W) where
  abbrev pub start : System W
  start = record { world = w0; at_work = λ i. false }

  pub data Step (s : System W) : System W → Type 0 where
    enter :
        (i : ℕ) {w : W}
        → i < n
        → s.at_work i ≡ false
        → lock os (mutex i) s.world ≡ some w
        → Step s (record { world = w; at_work = update s.at_work i true })
    leave :
        (i : ℕ)
        → i < n
        → s.at_work i ≡ true
        → Step s
            (record { world = unlock os (mutex i) s.world; at_work = update s.at_work i false })

  pub data Reach : System W → Type 0 where
    here : Reach start
    next : {s t : System W} → Reach s → Step s t → Reach t

module _ {W : Type 0} {os : Semaphores W} {name : List ℕ} (sem : IsSemaphore os name) where
  open sem use {value, is_open}

  abbrev pub IsOpen : Mutex → Type 0
  IsOpen m = (h : ℕ) × (m.handle ≡ some h) × is_open h

  -- A mutex is open on its semaphore, unless neither attempt of its constructor opened one.
  pub new_mutex_lem :
      (w : W) → IsOpen (new_mutex os name w).1 ⊎ ((new_mutex os name w).1.handle ≡ none)
  unfolding new_mutex
  new_mutex_lem w = elim (Option-cases (os.sem_open name w).1) [
    | inr (h, e) ↦ inl (h, rw (new_mutex, e) refl, sem.open_lem e)
    | inl e ↦ elim (Option-cases (os.sem_create name (os.sem_open name w).0).1) [
      | inr (h, e1) ↦ inl (h, rw (new_mutex, e) e1, sem.create_lem e1)
      | inl e1 ↦ inr (rw (new_mutex, e) e1)
    ]
  ]

  lock_zero : (m : Mutex) {w : W} → IsOpen m → value w ≡ 0 → lock os m w ≡ none
  unfolding lock
  lock_zero m (h, e, o) v = rw (lock, e) (sem.wait_zero o v)

  lock-suc :
      (m : Mutex) {w : W} {v : ℕ}
      → IsOpen m
      → value w ≡ suc v
      → (w1 : W) × (lock os m w ≡ some w1) × (value w1 ≡ v)
  unfolding lock
  lock-suc m (h, e, o) v =
      let (w1, taken, less) = sem.wait_suc o v in (w1, rw (lock, e) taken, less)

  -- A lock that comes through has taken one from the semaphore.
  lock-some : (m : Mutex) {w w1 : W} → IsOpen m → lock os m w ≡ some w1 → suc (value w1) ≡ value w
  lock-some m {w} {w1} o e = go (value w) refl
    where
      go : (v : ℕ) → value w ≡ v → suc (value w1) ≡ value w
      go zero h = absurd (ground (arith, lock_zero m o h))
      go (suc v) h = let (w2, e2, less) = lock-suc m o h in ground (arith)

  unlock_lem : (m : Mutex) {w : W} → IsOpen m → value (unlock os m w) ≡ suc (value w)
  unfolding unlock
  unlock_lem m (h, e, o) = rw (unlock, e) (sem.post_lem o)

  module _ (n : ℕ) (mutex : ℕ → Mutex) (w0 : W) (opened : (i : ℕ) → IsOpen (mutex i)) where
    -- Either the semaphore has its one unit, or one thread has it.
    abbrev Balance : System W → Type 0
    Balance s = value s.world + count n s.at_work ≡ 1

    Step-Balance : {s t : System W} → Step os n mutex w0 s t → Balance s → Balance t
    Step-Balance {s} (enter i hi out e) b =
        ground (arith, lock-some (mutex i) (opened i) e, count-update n i s.at_work true hi)
    Step-Balance {s} (leave i hi inside) b =
        ground (
          arith,
          unlock_lem (mutex i) {w = s.world} (opened i),
          count-update n i s.at_work false hi,
        )

    Reach-Balance : {s : System W} → value w0 ≡ 1 → Reach os n mutex w0 s → Balance s
    Reach-Balance one here = omega (arith, one, count_quiet n (λ i. false) (λ i p. refl))
    Reach-Balance one (next r st) = Step-Balance st (Reach-Balance one r)

    -- Two threads are never at work together between `lock` and `unlock` of one mutex, in whatever
    -- order the threads have run, where its semaphore was opened in all of them and has begun with 1.
    pub mutual_exclusion :
        {s : System W}
        → value w0 ≡ 1
        → Reach os n mutex w0 s
        → (i j : ℕ) → i < n
        → j < n
        → s.at_work i ≡ true
        → s.at_work j ≡ true
        → i ≡ j
    mutual_exclusion {s} one r i j hi hj ei ej =
        count-one n i j s.at_work (omega (arith, Reach-Balance one r)) hi hj ei ej

    -- In every state that the threads of one mutex can reach, where its semaphore was opened in all of
    -- them and has begun with 1: while none is at work, whoever locks the mutex comes through, and
    -- while one is at work, whoever locks it blocks.
    pub lock_progress :
        {s : System W}
        → value w0 ≡ 1
        → Reach os n mutex w0 s
        → (i : ℕ)
        → (((j : ℕ) → j < n → s.at_work j ≡ false)
            → (w1 : W) × (lock os (mutex i) s.world ≡ some w1))
          × ((j : ℕ) → j < n → s.at_work j ≡ true → lock os (mutex i) s.world ≡ none)
    lock_progress {s} one r i = (
      λ quiet.
          let idle : value s.world ≡ suc 0 =
            omega (arith, Reach-Balance one r, count_quiet n s.at_work quiet) in
          let (w1, e, _) = lock-suc (mutex i) (opened i) idle in (w1, e),
      λ j hj e.
          lock_zero (mutex i) (opened i)
            (omega (arith, Reach-Balance one r, count-pos n j s.at_work hj e)),
    )

-- Where no semaphore could be opened, the mutex is silent: two threads that lock it are both at work.
pub unprotected :
    {W : Type 0} (os : Semaphores W) (n : ℕ) (mutex : ℕ → Mutex) (w0 : W) (i j : ℕ)
    → ((k : ℕ) → (mutex k).handle ≡ none)
    → i ≢ j
    → i < n
    → j < n
    → (s : System W) × Reach os n mutex w0 s × (s.at_work i ≡ true) × (s.at_work j ≡ true)
unfolding lock
unprotected os n mutex w0 i j closed ne hi hj = (
  _,
  next (next here (enter i {w = w0} hi refl (rw (lock, closed i) refl)))
      (enter j {w = w0} hj (rw (ne→== j i (λ e. ne (sym e))) refl) (rw (lock, closed j) refl)),
  rw (ne→== i j ne, ==_refl i) refl,
  rw (==_refl j) refl,
)
