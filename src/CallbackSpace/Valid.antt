-- ===== src/CallbackSpace/Valid.antt =====
-- CallbackSpace.h: the invariant on the sizes and states of the slots.
use native.Mathlib.Nat.{mod-eq_of_lt}
use psi_shared.Base.{
  ℕ, zero, suc, ◌+◌, ◌<◌, ◌≡◌, ◌⊎◌, refl, ◌∙◌, List, [], inl, inr, arith, length, set, get_or,
  replicate, length-set, length-replicate,
}
use psi_shared.CallbackSpace.{
  CallbackSpace, no_data, pending, ready, status_index, empty_space, push_from, push_callback,
  update_callback, pop_callback, clear_callback, fill_slot,
}
use psi_shared.CallbackSpace.Slots.{
  IsSlot, status-set, status-replicate, length-fill_slot, status-fill_slot,
}
use psi_shared.CallbackSpace.Refine.{Layout, AllSlots, IsValid, get_or-IsSlot, set-AllSlots}

replicate-AllSlots : (max_data n : ℕ) → AllSlots max_data (replicate n (replicate (3 + max_data) 0))
replicate-AllSlots max_data zero = tt
replicate-AllSlots max_data (suc n) = (
  record {
    sized = length-replicate (3 + max_data) 0;
    has_status = inl (status-replicate (3 + max_data));
  },
  replicate-AllSlots max_data n,
)

set_status-IsSlot :
    {max_data : ℕ} (slot : List ℕ) (v : ℕ)
    → IsSlot max_data slot
    → (v ≡ no_data) ⊎ ((v ≡ pending) ⊎ (v ≡ ready))
    → IsSlot max_data (set slot status_index v)
set_status-IsSlot slot v i h =
    ground
      (arith, i.sized, length-set slot status_index v, status-set slot v (omega (arith, i.sized)))

module _ {max_queue max_data : ℕ} where
  set-IsValid :
      (i : ℕ) (slot : List ℕ) {s : CallbackSpace}
      → IsValid max_queue max_data s
      → (i < max_queue → IsSlot max_data slot)
      → IsValid max_queue max_data (record s { slots = set s.slots i slot })
  set-IsValid i slot {s} v h = record {
    queue = length-set s.slots i slot ∙ v.queue;
    slots_valid =
        set-AllSlots max_data s.slots i slot v.slots_valid (λ p. h (omega (arith, v.queue)));
  }

  pub empty_space-IsValid :
      Layout max_queue max_data → IsValid max_queue max_data (empty_space max_queue max_data)
  unfolding empty_space
  empty_space-IsValid l = record {
    queue = length-replicate max_queue _;
    slots_valid = rw (mod-eq_of_lt l.data_fits) (replicate-AllSlots max_data max_queue);
  }

  chosen-IsSlot :
      (i : ℕ) {s : CallbackSpace}
      → IsValid max_queue max_data s
      → i < max_queue
      → IsSlot max_data (get_or s.slots i [])
  chosen-IsSlot i {s} v h = get_or-IsSlot max_data s.slots i v.slots_valid (omega (arith, v.queue))

  pub push_from-IsValid :
      (rounds i : ℕ) {s : CallbackSpace}
      → IsValid max_queue max_data s
      → IsValid max_queue max_data (push_from rounds i s).0
  unfolding push_from
  push_from-IsValid zero i v = v
  push_from-IsValid (suc rounds) i {s} v = ground (
    arith,
    push_from-IsValid rounds (i + 1) v,
    set-IsValid i (set (get_or s.slots i []) status_index pending) v (λ h.
        set_status-IsSlot (get_or s.slots i []) pending (chosen-IsSlot i v h) (inr (inl refl))),
  )

  pub push_callback-IsValid :
      {s : CallbackSpace}
      → IsValid max_queue max_data s
      → IsValid max_queue max_data (push_callback max_queue s).0
  unfolding push_callback
  push_callback-IsValid v = push_from-IsValid max_queue 0 v

  pub update_callback-IsValid :
      (cb_index : ℕ) (b : List ℕ) (sz : ℕ) {s : CallbackSpace}
      → IsValid max_queue max_data s
      → IsValid max_queue max_data (update_callback max_queue max_data cb_index b sz s)
  unfolding update_callback
  update_callback-IsValid cb_index b sz {s} v =
      ground (arith, set-IsValid cb_index (fill_slot b sz (get_or s.slots cb_index [])) v filled)
    where
      filled : cb_index < max_queue → IsSlot max_data (fill_slot b sz (get_or s.slots cb_index []))
      filled h = record {
        sized = length-fill_slot b sz _ ∙ (chosen-IsSlot cb_index v h).sized;
        has_status =
            inr (inr (status-fill_slot b sz _ (omega (arith, (chosen-IsSlot cb_index v h).sized))));
      }

  pub pop_callback-IsValid :
      (cb_index : ℕ) {s : CallbackSpace}
      → IsValid max_queue max_data s
      → IsValid max_queue max_data (pop_callback max_queue cb_index s).0
  unfolding pop_callback
  pop_callback-IsValid cb_index {s} v = ground (
    arith,
    set-IsValid cb_index (set (get_or s.slots cb_index []) status_index no_data) v (λ h.
        set_status-IsSlot (get_or s.slots cb_index []) no_data (chosen-IsSlot cb_index v h)
          (inl refl)),
  )

  pub clear_callback-IsValid :
      (cb_index : ℕ) {s : CallbackSpace}
      → IsValid max_queue max_data s
      → IsValid max_queue max_data (clear_callback max_queue cb_index s)
  unfolding clear_callback
  clear_callback-IsValid cb_index {s} v =
      ground
        (arith, set-IsValid cb_index (replicate (length (get_or s.slots cb_index [])) 0) v cleared)
    where
      cleared :
          cb_index < max_queue → IsSlot max_data (replicate (length (get_or s.slots cb_index [])) 0)
      cleared h = record {
        sized = length-replicate _ 0 ∙ (chosen-IsSlot cb_index v h).sized;
        has_status = inl (status-replicate _);
      }
