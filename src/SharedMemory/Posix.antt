-- ===== src/SharedMemory/Posix.antt =====
-- What the code of the shared memory relies on the system for: POSIX shared memory within the limits
-- of the process, where no object is unlinked.
use psi_shared.Base.{ℕ, List, Option, none, some, true, ◌≡◌, ◌≢◌}
use psi_shared.SharedMemory.{Os}

-- An object in shared memory: not there, created with no memory yet, or with its contents.
pub data Object (C : Type 0) : Type 0 where
  missing : Object C
  blank : Object C
  holding : C → Object C

-- `ftruncate` gives a new object its size, filled with zeros, and leaves one of that size as it is.
abbrev pub sized : {C : Type 0} → C → Object C → Object C
sized zeros Object.missing = Object.missing
sized zeros Object.blank = Object.holding zeros
sized zeros (Object.holding c) = Object.holding c

-- `object` is what stands under a name, `file` the object of an open descriptor, `target` that of a
-- mapped address.
pub record IsPosix {W C : Type 0} (os : Os W C) (zeros : C) : Type 0 where
  pub object : List ℕ → W → Object C
  pub file : ℕ → W → Option (List ℕ)
  pub target : ℕ → W → Option (List ℕ)
  -- A name that is not there is not opened.
  pub open_missing :
      {n : List ℕ} {w : W}
      → object n w ≡ Object.missing
      → ((os.shm_open n w).1 ≡ none) × (object n (os.shm_open n w).0 ≡ Object.missing)
  pub open_present :
      {n : List ℕ} {w : W}
      → object n w ≢ Object.missing
      → (d : ℕ) × ((os.shm_open n w).1 ≡ some d)
        × (file d (os.shm_open n w).0 ≡ some n)
        × (object n (os.shm_open n w).0 ≡ object n w)
  pub create_missing :
      {n : List ℕ} {w : W}
      → object n w ≡ Object.missing
      → (d : ℕ) × ((os.shm_create n w).1 ≡ some d)
        × (file d (os.shm_create n w).0 ≡ some n)
        × (object n (os.shm_create n w).0 ≡ Object.blank)
  pub ftruncate_lem :
      {n : List ℕ} {d : ℕ} {w : W}
      → file d w ≡ some n
      → ((os.ftruncate d w).1 ≡ true)
        × (file d (os.ftruncate d w).0 ≡ some n)
        × (object n (os.ftruncate d w).0 ≡ sized zeros (object n w))
  -- A new mapping stands at an address where none stood.
  pub mmap_lem :
      {n : List ℕ} {d : ℕ} {w : W}
      → file d w ≡ some n
      → (a : ℕ) × ((os.mmap d w).1 ≡ some a)
        × (target a w ≡ none)
        × (target a (os.mmap d w).0 ≡ some n)
        × (object n (os.mmap d w).0 ≡ object n w)
  -- All mappings of one object are the same memory.
  pub load_lem :
      {n : List ℕ} {a : ℕ} {w : W} {c : C}
      → target a w ≡ some n
      → object n w ≡ Object.holding c
      → os.load a w ≡ c
  pub store_lem :
      {n : List ℕ} {a : ℕ} {w : W} {old : C} (c : C)
      → target a w ≡ some n
      → object n w ≡ Object.holding old
      → object n (os.store a c w) ≡ Object.holding c
  -- An object outlives its mappings and descriptors.
  pub object_munmap : (n : List ℕ) (a : ℕ) (w : W) → object n (os.munmap a w) ≡ object n w
  pub object_close : (n : List ℕ) (d : Option ℕ) (w : W) → object n (os.close d w) ≡ object n w
  -- No call but `munmap` ends a mapping, and that only its own; a closed descriptor ends none.
  pub target_open :
      (n : List ℕ) {b : ℕ} {w : W} {m : List ℕ}
      → target b w ≡ some m
      → target b (os.shm_open n w).0 ≡ some m
  pub target_create :
      (n : List ℕ) {b : ℕ} {w : W} {m : List ℕ}
      → target b w ≡ some m
      → target b (os.shm_create n w).0 ≡ some m
  pub target_ftruncate :
      (d : ℕ) {b : ℕ} {w : W} {m : List ℕ}
      → target b w ≡ some m
      → target b (os.ftruncate d w).0 ≡ some m
  pub target_mmap :
      (d : ℕ) {b : ℕ} {w : W} {m : List ℕ} → target b w ≡ some m → target b (os.mmap d w).0 ≡ some m
  pub target_munmap :
      (a : ℕ) {b : ℕ} {w : W} {m : List ℕ}
      → a ≢ b
      → target b w ≡ some m
      → target b (os.munmap a w) ≡ some m
  pub target_close :
      (d : Option ℕ) {b : ℕ} {w : W} {m : List ℕ}
      → target b w ≡ some m
      → target b (os.close d w) ≡ some m
  pub target_store :
      (a : ℕ) (c : C) {b : ℕ} {w : W} {m : List ℕ}
      → target b w ≡ some m
      → target b (os.store a c w) ≡ some m
