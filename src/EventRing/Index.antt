-- ===== src/EventRing/Index.antt =====
-- EventRingBuffer.h: arithmetic of the indices `m_read` and `m_write`, which go round the ring.
use native.Mathlib.Nat.{mod-eq_of_lt, mod-eq-sub-mod, mod-lt, mod_self}
use native.Mathlib.Decide.{dec_lt}
use psi_shared.Base.{ℕ, suc, ◌+◌, ◌-◌, ◌%◌, ◌≤◌, ◌<◌, ◌≡◌, ◌≢◌, ◌⊎◌, inl, inr, ◌↔◌, ◌∙◌, ap, arith}

-- Fewer than `size` steps round the ring do not come back to the start.
pub round_ne : {size i k : ℕ} → i < size → suc k < size → (i + suc k) % size ≢ i
round_ne {size} {i} {k} hi hk = elim (dec_lt (i + suc k) size) [
  | yes p ↦ omega (arith, mod-eq_of_lt p)
  | no p ↦ omega (
    arith,
    mod-eq-sub-mod {n = i + suc k} {m = size} (omega arith),
    mod-eq_of_lt {n = i + suc k - size} {m = size} (omega arith),
  )
]

-- Remainders of numbers that are once round the ring at most.
mod_cases :
    (size n : ℕ)
    → n < size + size
    → ((n < size) × (n % size ≡ n)) ⊎ ((size ≤ n) × (n % size ≡ n - size))
mod_cases size n h = elim (dec_lt n size) [
  | yes p ↦ inl (p, mod-eq_of_lt p)
  | no p ↦
      inr
        (omega arith, mod-eq-sub-mod {n = n} {m = size} (omega arith) ∙ mod-eq_of_lt (omega arith))
]

module _ {size : ℕ} where
  -- Going on from `read` by the number of messages leads to `write`.
  pub write_lem :
      {read write : ℕ}
      → read < size
      → write < size
      → write ≡ (read + (write + size - read) % size) % size
  write_lem {read} {write} hr hw = omega (
    arith,
    mod_cases size (write + size - read) (omega arith),
    mod_cases size (read + (write + size - read) % size)
        (omega (arith, mod-lt (write + size - read) {m = size} (omega arith))),
  )

  pub count_next_write :
      {read write : ℕ}
      → read < size
      → write < size
      → (write + 1) % size ≢ read
      → ((write + 1) % size + size - read) % size ≡ suc ((write + size - read) % size)
  count_next_write {read} {write} hr hw ne = omega (
    arith,
    mod_cases size (write + 1) (omega arith),
    mod_cases size (write + size - read) (omega arith),
    mod_cases size ((write + 1) % size + size - read)
        (omega (arith, mod_cases size (write + 1) (omega arith))),
  )

  pub count_next_read :
      {read write : ℕ}
      → read < size
      → write < size
      → read ≢ write
      → (write + size - (read + 1) % size) % size ≡ (write + size - read) % size - 1
  count_next_read {read} {write} hr hw ne = omega (
    arith,
    mod_cases size (read + 1) (omega arith),
    mod_cases size (write + size - read) (omega arith),
    mod_cases size (write + size - (read + 1) % size) (omega (arith, write_pos)),
  )
    where
      write_pos : write + size - (read + 1) % size < size + size
      write_pos = omega (arith, mod_cases size (read + 1) (omega arith))

  -- The ring is full when one more step of `write` would meet `read`.
  pub full_iff :
      {read write : ℕ}
      → read < size
      → write < size
      → ((write + 1) % size ≡ read) ↔ ((write + size - read) % size ≡ size - 1)
  full_iff {read} {write} hr hw = omega (
    arith,
    mod_cases size (write + 1) (omega arith),
    mod_cases size (write + size - read) (omega arith),
  )

  pub empty_iff :
      {read write : ℕ}
      → read < size
      → write < size
      → (read ≡ write) ↔ ((write + size - read) % size ≡ 0)
  empty_iff {read} {write} hr hw = omega (arith, mod_cases size (write + size - read) (omega arith))

pub count_reset : (size : ℕ) → (0 + size - 0) % size ≡ 0
count_reset size = ap (λ k. k % size) {x = 0 + size - 0} {y = size} (omega arith) ∙ mod_self size
