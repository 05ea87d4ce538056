-- ===== src/Base/Memory.antt =====
-- Flat memory: what `std::memcpy` does to an array of bytes and what it reads from one.
use Prim.Native.Nat.{ℕ, zero, suc, ◌+◌, ◌≤◌}
use Prim.Native.Nat.add
use mathlib.Core.Path.{◌≡◌, refl, ap, ◌∙◌}
use mathlib.Core.List.{List, [], ◌∷◌, ◌++◌}
use native.Mathlib.Omega.{arith}
use psi_shared.Base.Lists.{length, take, drop, take-append, drop-append, drop-drop}

module _ {ℓ} {A : Type ℓ} where
  -- `memcpy(buffer + at, bytes, n)`: what would fall past the end of the array is dropped.
  unfoldable pub write_at : List A → ℕ → List A → List A
  write_at [] at bytes = []
  write_at (x ∷ xs) (suc at) bytes = x ∷ write_at xs at bytes
  write_at (x ∷ xs) zero [] = x ∷ xs
  write_at (x ∷ xs) zero (b ∷ bytes) = b ∷ write_at xs zero bytes

  -- `memcpy(out, buffer + at, n)`: a read past the end of the array gives fewer bytes.
  abbrev pub read_at : List A → ℕ → ℕ → List A
  read_at xs at n = take n (drop at xs)

  pub length-write_at :
      (xs : List A) (at : ℕ) (bytes : List A) → length (write_at xs at bytes) ≡ length xs
  unfolding write_at
  length-write_at [] at bytes = refl
  length-write_at (x ∷ xs) (suc at) bytes = ap suc (length-write_at xs at bytes)
  length-write_at (x ∷ xs) zero [] = refl
  length-write_at (x ∷ xs) zero (b ∷ bytes) = ap suc (length-write_at xs zero bytes)

  pub write_at-nil : (xs : List A) (at : ℕ) → write_at xs at [] ≡ xs
  unfolding write_at
  write_at-nil [] at = refl
  write_at-nil (x ∷ xs) (suc at) = ap (λ ys. x ∷ ys) (write_at-nil xs at)
  write_at-nil (x ∷ xs) zero = refl

  -- Two writes next to each other are one write.
  pub write_at-write_at :
      (xs : List A) (at : ℕ) (front back : List A)
      → write_at (write_at xs at front) (at + length front) back ≡ write_at xs at (front ++ back)
  unfolding write_at
  write_at-write_at [] at front back = refl
  write_at-write_at (x ∷ xs) (suc at) front back =
      rw add.suc (ap (λ ys. x ∷ ys) (write_at-write_at xs at front back))
  write_at-write_at (x ∷ xs) zero [] back = refl
  write_at-write_at (x ∷ xs) zero (b ∷ front) back =
      rw (add.zero) (ap (λ ys. b ∷ ys) (rw add.zero at (write_at-write_at xs zero front back)))

  -- What a write leaves behind its end is what was there.
  pub drop-write_at :
      (xs : List A) (at : ℕ) (bytes : List A)
      → at + length bytes ≤ length xs
      → drop at (write_at xs at bytes) ≡ bytes ++ drop (at + length bytes) xs
  unfolding write_at
  drop-write_at [] zero [] h = refl
  drop-write_at [] zero (b ∷ bytes) h = absurd (omega arith)
  drop-write_at [] (suc at) bytes h = absurd (omega arith)
  drop-write_at (x ∷ xs) (suc at) bytes h = rw add.suc (drop-write_at xs at bytes (omega arith))
  drop-write_at (x ∷ xs) zero [] h = refl
  drop-write_at (x ∷ xs) zero (b ∷ bytes) h =
      rw add.zero (ap (λ ys. b ∷ ys) (rw add.zero at (drop-write_at xs zero bytes (omega arith))))

  -- Before its start a write changes nothing.
  pub read_at-write_at_before :
      (xs : List A) (start n at : ℕ) (bytes : List A)
      → start + n ≤ at
      → read_at (write_at xs at bytes) start n ≡ read_at xs start n
  unfolding write_at
  read_at-write_at_before [] start n at bytes h = refl
  read_at-write_at_before (x ∷ xs) zero zero at bytes h = refl
  read_at-write_at_before (x ∷ xs) zero (suc n) zero bytes h = absurd (omega arith)
  read_at-write_at_before (x ∷ xs) zero (suc n) (suc at) bytes h =
      ap (λ ys. x ∷ ys) (read_at-write_at_before xs zero n at bytes (omega arith))
  read_at-write_at_before (x ∷ xs) (suc start) n zero bytes h = absurd (omega arith)
  read_at-write_at_before (x ∷ xs) (suc start) n (suc at) bytes h =
      read_at-write_at_before xs start n at bytes (omega arith)

  -- A write that fits is read back.
  pub read_at-write_at :
      (xs : List A) (at : ℕ) (bytes : List A)
      → at + length bytes ≤ length xs
      → read_at (write_at xs at bytes) at (length bytes) ≡ bytes
  read_at-write_at xs at bytes h =
      ap (take (length bytes)) (drop-write_at xs at bytes h) ∙ take-append bytes _

  -- Where the memory from `at` on begins with `front`, that is what a read of its size gives, and
  -- the rest follows behind it.
  pub read_at_front :
      (xs : List A) (at n : ℕ) (front rest : List A)
      → length front ≡ n
      → drop at xs ≡ front ++ rest
      → read_at xs at n ≡ front
  read_at_front xs at n front rest e h =
      rw (← e) (ap (take (length front)) h ∙ take-append front rest)

  pub drop_front :
      (xs : List A) (at next : ℕ) (front rest : List A)
      → at + length front ≡ next
      → drop at xs ≡ front ++ rest
      → drop next xs ≡ rest
  drop_front xs at next front rest e h =
      rw (← e) (rw (← drop-drop at) (rw h (drop-append front rest)))

  -- A write behind the first `at` bytes appends to them.
  pub take-write_at :
      (xs : List A) (at : ℕ) (bytes : List A)
      → at + length bytes ≤ length xs
      → take (at + length bytes) (write_at xs at bytes) ≡ take at xs ++ bytes
  unfolding write_at
  take-write_at [] zero [] h = refl
  take-write_at [] zero (b ∷ bytes) h = absurd (omega arith)
  take-write_at [] (suc at) bytes h = absurd (omega arith)
  take-write_at (x ∷ xs) (suc at) bytes h =
      rw add.suc (ap (λ ys. x ∷ ys) (take-write_at xs at bytes (omega arith)))
  take-write_at (x ∷ xs) zero [] h = refl
  take-write_at (x ∷ xs) zero (b ∷ bytes) h =
      rw add.zero (ap (λ ys. b ∷ ys) (rw add.zero at (take-write_at xs zero bytes (omega arith))))

  -- The same when the second of two neighbours is written first.
  pub write_at_before :
      (xs : List A) (at : ℕ) (front back : List A)
      → write_at (write_at xs (at + length front) back) at front ≡ write_at xs at (front ++ back)
  unfolding write_at
  write_at_before [] at front back = refl
  write_at_before (x ∷ xs) (suc at) front back =
      rw add.suc (ap (λ ys. x ∷ ys) (write_at_before xs at front back))
  write_at_before (x ∷ xs) zero [] back = write_at-nil (write_at (x ∷ xs) 0 back) 0
  write_at_before (x ∷ xs) zero (b ∷ front) back =
      rw add.zero (ap (λ ys. b ∷ ys) (rw add.zero at (write_at_before xs zero front back)))
