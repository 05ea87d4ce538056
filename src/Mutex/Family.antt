-- ===== src/Mutex/Family.antt =====
-- os_mutex.cpp: how many of the first threads are at work.
use psi_shared.Base.{
  ℕ, zero, suc, ◌+◌, ◌≤◌, ◌<◌, ◌≡◌, refl, arith, Bool, true, false, ◌==◌, if◌then◌else◌, inl, inr,
  ne→==, Bool-cases,
}

abbrev pub update : (ℕ → Bool) → ℕ → Bool → ℕ → Bool
update f i b k = if k == i then b else f k

abbrev pub as_number : Bool → ℕ
as_number true = 1
as_number false = 0

pub count : ℕ → (ℕ → Bool) → ℕ
count zero f = 0
count (suc n) f = count n f + as_number (f n)

count-update_past : (n i : ℕ) (f : ℕ → Bool) (b : Bool) → n ≤ i → count n (update f i b) ≡ count n f
unfolding count
count-update_past zero i f b h = refl
count-update_past (suc n) i f b h =
    rw (ne→== n i (omega arith), count-update_past n i f b (omega arith)) refl

pub count-update :
    (n i : ℕ) (f : ℕ → Bool) (b : Bool)
    → i < n
    → count n (update f i b) + as_number (f i) ≡ count n f + as_number b
unfolding count
count-update zero i f b h = absurd (omega arith)
count-update (suc n) i f b h = elim (Bool-cases (n == i)) [
  | inl e ↦ ground (arith, count-update_past n i f b)
  | inr e ↦ ground (arith, count-update n i f b)
]

pub count-pos : (n i : ℕ) (f : ℕ → Bool) → i < n → f i ≡ true → 1 ≤ count n f
count-pos n i f h e = omega (arith, count-update n i f false h, ap_number)
  where
    ap_number : as_number (f i) ≡ 1
    ap_number = rw e refl

pub count_quiet : (n : ℕ) (f : ℕ → Bool) → ((i : ℕ) → i < n → f i ≡ false) → count n f ≡ 0
unfolding count
count_quiet zero f h = refl
count_quiet (suc n) f h = rw (h n (omega arith), count_quiet n f (λ i p. h i (omega arith))) refl

-- Where one is at work, there is no other.
pub count-one :
    (n i j : ℕ) (f : ℕ → Bool) → count n f ≤ 1 → i < n → j < n → f i ≡ true → f j ≡ true → i ≡ j
count-one n i j f few hi hj ei ej = elim (Bool-cases (j == i)) [
  | inl e ↦ ground arith
  | inr e ↦
      absurd (ground (arith, count-update n i f false hi, count-pos n j (update f i false) hj))
]
