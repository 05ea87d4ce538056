-- ===== src/InFlight/Progress.antt =====
-- CallbackSpace.h, IClientIPC.hpp and ClientIPC.cpp: no two calls wait at one slot, and none is lost.
use psi_shared.Base.{
  ℕ, zero, suc, ◌+◌, ◌≤◌, ◌<◌, ◌≡◌, ◌≢◌, refl, ap, inl, inr, arith, List, [], ◌∷◌, ◌++◌, some,
  length, get_or, ltb, ◌==◌, ==_refl,
}
use psi_shared.Protocol.{Sizes}
use psi_shared.CallbackSpace.{push_callback}
use psi_shared.CallbackSpace.Slots.{Slot, free, waiting, answered}
use psi_shared.CallbackSpace.Refine.{Layout, slots_of}
use psi_shared.CallbackSpace.Reserve.{IsFreeAt, push_callback_lem}
use psi_shared.Client.{Config, Texts}
use psi_shared.InFlight.{Entry, slot_index, System, Reach}
use psi_shared.InFlight.Count.{busy, one_if, holders, holders-append}
use psi_shared.InFlight.Owners.{Reach-IsBalanced}

abbrev total : ℕ → (ℕ → ℕ) → ℕ
total zero f = 0
total (suc n) f = total n f + f n

total-add : (n : ℕ) (f g : ℕ → ℕ) → total n (λ i. f i + g i) ≡ total n f + total n g
total-add zero f g = omega arith
total-add (suc n) f g = omega (arith, total-add n f g)

total-one_if : (n x : ℕ) → total n (λ i. one_if (x == i)) ≡ one_if (ltb x n)
total-one_if zero x = ground arith
total-one_if (suc n) x = ground (arith, total-one_if n x)

total_zero : (n : ℕ) → total n (λ i. 0) ≡ 0
total_zero zero = refl
total_zero (suc n) = omega (arith, total_zero n)

total-le : (n : ℕ) (f : ℕ → ℕ) → ((i : ℕ) → i < n → 1 ≤ f i) → n ≤ total n f
total-le zero f h = omega arith
total-le (suc n) f h = omega (arith, total-le n f (λ i p. h i (omega arith)), h n (omega arith))

one_if_le : (x n : ℕ) → one_if (ltb x n) ≤ 1
one_if_le x n = ground arith

-- An entry has one slot.
total-holders : {F : Type 0} (n : ℕ) (es : List (Entry F)) → total n (λ i. holders i es) ≤ length es
total-holders n [] = omega (arith, total_zero n)
total-holders n (e ∷ es) = omega (
  arith,
  total-add n (λ i. one_if (slot_index e == i)) (λ i. holders i es),
  total-one_if n (slot_index e),
  one_if_le (slot_index e) n,
  total-holders n es,
)

pub busy-pos : (slot : Slot) → slot ≢ free → 1 ≤ busy slot
busy-pos free h = absurd (h refl)
busy-pos waiting h = omega arith
busy-pos (answered b) h = omega arith

pub busy_le : (slot : Slot) → (busy slot ≤ 1) × (slot ≡ free → busy slot ≡ 0)
busy_le free = (omega arith, λ e. refl)
busy_le waiting = (omega arith, λ e. absurd (cc))
busy_le (answered b) = (omega arith, λ e. absurd (cc))

module _ (k : Config) (z : Sizes) (texts : Texts) {F : Type 0} where
  -- In every state that clients and server can reach from a new space, in whatever order they act:
  -- the slot of a call in flight is not free, and no other call has it. The calls are those in
  -- flight, and those that were when their clients ended.
  pub slot_of_call :
      {s : System F}
      → Layout k.callback_queue k.callback_sz
      → Reach k z texts s
      → (front back : List (Entry F)) (e : Entry F) → s.entries ≡ front ++ e ∷ back
      → ¬ IsFreeAt (slot_index e) s.space × (holders (slot_index e) (front ++ back) ≡ 0)
  slot_of_call {s} l r front back e at =
      let b = Reach-IsBalanced k z texts l r in
      let i = slot_index e in
      let (least, none_free) = busy_le (get_or (slots_of s.space) i free) in
      let split = holders-append i front (e ∷ back) in
      let rest = holders-append i front back in
      let here = ap one_if (==_refl i) in
      (
        λ p. omega (arith, b.owned i, ap (holders i) at, split, here, none_free p),
        omega (arith, b.owned i, ap (holders i) at, split, rest, here, least),
      )

  -- In every state that clients and server can reach from a new space, in whatever order they act,
  -- timeouts, late answers, disconnects and ends of clients among it: as long as the calls in flight,
  -- and those that were in flight when their clients ended, are fewer than the slots, `pushCallback`
  -- finds one.
  pub push_callback-Reach :
      {s : System F}
      → Layout k.callback_queue k.callback_sz
      → Reach k z texts s
      → length s.entries < k.callback_queue
      → (i : ℕ) × ((push_callback k.callback_queue s.space).1 ≡ some i)
  push_callback-Reach {s} l r few =
      let b = Reach-IsBalanced k z texts l r in
      elim (push_callback_lem b.valid) [
        | inr (n, out, lo, hn, is_free, first, slots) ↦ (n, out)
        | inl (out, same, full) ↦ absurd (
            omega (
              arith,
              total-le k.callback_queue (λ i. holders i s.entries)
                  (λ i p. omega (
                    arith,
                    b.owned i,
                    busy-pos (get_or (slots_of s.space) i free) (full i (omega arith) p),
                  )),
              total-holders k.callback_queue s.entries,
            ))
      ]
