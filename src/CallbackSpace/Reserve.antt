-- ===== src/CallbackSpace/Reserve.antt =====
-- CallbackSpace.h: the search of `pushCallback` for a free slot.
use native.Mathlib.Decide.{ℕ_discrete}
use native.Mathlib.Nat.{le_refl}
use psi_shared.Base.{
  ℕ, zero, suc, ◌+◌, ◌≤◌, ◌<◌, ◌≡◌, ◌⊎◌, inl, inr, refl, subst, ◌↔◌, ◌∙◌, List, [], Option, none,
  some, arith, get_or, set, get_or-map, Bool-cases, ◌==◌, ==_iff, false, sym,
}
use psi_shared.CallbackSpace.{
  CallbackSpace, no_data, pending, status, status_index, push_from, push_callback,
}
use psi_shared.CallbackSpace.Slots.{free, waiting, slot_of, IsSlot, status-set}
use psi_shared.CallbackSpace.Refine.{IsValid, slots_of, at_slot, at_slot_of, get_or-IsSlot}

abbrev pub IsFreeAt : ℕ → CallbackSpace → Type 0
IsFreeAt i s = get_or (slots_of s) i free ≡ free

-- The outcome of a search from index `i` up to `max_queue`: no slot in the range is free and nothing
-- changes, or the first free slot is returned and waits for an answer from now on.
abbrev pub Outcome : ℕ → ℕ → CallbackSpace → CallbackSpace × Option ℕ → Type 0
Outcome max_queue i s (s', out) =
    ((out ≡ none) × (s' ≡ s) × ((j : ℕ) → i ≤ j → j < max_queue → ¬ IsFreeAt j s))
    ⊎ ((k : ℕ) × (out ≡ some k)
        × (i ≤ k)
        × (k < max_queue)
        × IsFreeAt k s
        × ((j : ℕ) → i ≤ j → j < k → ¬ IsFreeAt j s)
        × (slots_of s' ≡ at_slot k (λ slot. waiting) (slots_of s)))

free_iff :
    {max_data : ℕ} (slot : List ℕ)
    → IsSlot max_data slot
    → (status slot ≡ no_data) ↔ (slot_of slot ≡ free)
free_iff slot v = ground (arith, v.has_status)

-- One more slot that is not free, below the range of a search.
not_free_from :
    (i top : ℕ) (s : CallbackSpace)
    → ¬ IsFreeAt i s
    → ((j : ℕ) → i + 1 ≤ j → j < top → ¬ IsFreeAt j s)
    → (j : ℕ) → i ≤ j
    → j < top
    → ¬ IsFreeAt j s
not_free_from i top s here above j hi hj = elim (ℕ_discrete i j) [
  | yes e ↦ subst (λ k. ¬ IsFreeAt k s) e here
  | no ne ↦ above j (omega arith) hj
]

extend :
    (max_queue i : ℕ) (s : CallbackSpace) (r : CallbackSpace × Option ℕ)
    → ¬ IsFreeAt i s
    → Outcome max_queue (i + 1) s r
    → Outcome max_queue i s r
extend max_queue i s r here (inl (a, b, c)) = inl (a, b, not_free_from i max_queue s here c)
extend max_queue i s r here (inr (k, a, b, c, d, e, f)) =
    inr (k, a, omega arith, c, d, not_free_from i k s here e, f)

module _ {max_queue max_data : ℕ} where
  push_from_lem :
      (rounds i : ℕ) {s : CallbackSpace}
      → IsValid max_queue max_data s
      → i + rounds ≡ max_queue
      → Outcome max_queue i s (push_from rounds i s)
  unfolding push_from
  push_from_lem zero i v h = inl (refl, refl, λ j hi hj. absurd (omega arith))
  push_from_lem (suc rounds) i {s} v h =
      elim (Bool-cases (status (get_or s.slots i []) == no_data)) [
        | inl e ↦
            rw (e, push_from)
              (inr (
                i,
                refl,
                le_refl i,
                omega arith,
                get_or-map slot_of s.slots i []
                    ∙ (free_iff slot (here (omega arith))).0 ((==_iff _ _).0 e),
                (λ j hi hj. absurd (omega arith)),
                at_slot_of s.slots i (set slot status_index pending) (λ slot. waiting) reserved,
              ))
        | inr e ↦
            rw (e, push_from)
              (extend max_queue i s (push_from rounds (i + 1) s) (occupied e)
                (push_from_lem rounds (i + 1) v (omega arith)))
      ]
    where
      slot : List ℕ
      slot = get_or s.slots i []

      here : i < max_queue → IsSlot max_data slot
      here p = get_or-IsSlot max_data s.slots i v.slots_valid (omega (arith, v.queue))

      reserved : slot_of (set slot status_index pending) ≡ waiting
      reserved = ground (arith, status-set slot pending (omega (arith, (here (omega arith)).sized)))

      occupied : (status slot == no_data) ≡ false → ¬ IsFreeAt i s
      occupied e f = cc (
        e,
        (==_iff _ _).1
            ((free_iff slot (here (omega arith))).1 (sym (get_or-map slot_of s.slots i []) ∙ f)),
      )

  -- `pushCallback` reserves the first free slot and returns its index, or, when no slot is free,
  -- returns nothing and changes nothing.
  pub push_callback_lem :
      {s : CallbackSpace}
      → IsValid max_queue max_data s
      → Outcome max_queue 0 s (push_callback max_queue s)
  unfolding push_callback
  push_callback_lem v = push_from_lem max_queue 0 v (omega arith)
