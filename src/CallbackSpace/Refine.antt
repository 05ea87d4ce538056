-- ===== src/CallbackSpace/Refine.antt =====
-- CallbackSpace.h: the space is an array of slots, each free, waiting for an answer, or answered.
use mathlib.Core.Option
use psi_shared.Base.{
  ℕ, zero, suc, ◌+◌, ◌≤◌, ◌<◌, ◌^◌, ◌≡◌, ◌≢◌, ap, sym, ◌∙◌, List, [], ◌∷◌, map, Option, none, some,
  arith, length, set, get_or, replicate, read_at, ltb, if◌then◌else◌, map-set, get_or-map,
  get_or_past, set_self, get_or-set_self,
}
use psi_shared.CallbackSpace.{
  CallbackSpace, no_data, pending, status, status_index, update_callback, pop_callback,
  clear_callback, view_data, fill_slot,
}
use psi_shared.CallbackSpace.Slots.{
  Slot, free, waiting, answered, slot_of, IsSlot, payload-set_status, status-set, status-replicate,
  status-fill_slot, payload-fill_slot,
}

pub record Layout (max_queue max_data : ℕ) : Type 0 where
  pub queue_fits : max_queue < 2 ^ 16
  pub data_fits : 1 + 2 + max_data < 2 ^ 16

abbrev pub AllSlots : ℕ → List (List ℕ) → Type 0
AllSlots max_data [] = Unit {0}
AllSlots max_data (slot ∷ slots) = IsSlot max_data slot × AllSlots max_data slots

pub get_or-IsSlot :
    (max_data : ℕ) (slots : List (List ℕ)) (i : ℕ)
    → AllSlots max_data slots
    → i < length slots
    → IsSlot max_data (get_or slots i [])
get_or-IsSlot max_data [] i a h = absurd (omega arith)
get_or-IsSlot max_data (slot ∷ slots) zero a h = a.0
get_or-IsSlot max_data (slot ∷ slots) (suc i) a h = get_or-IsSlot max_data slots i a.1 (omega arith)

pub set-AllSlots :
    (max_data : ℕ) (slots : List (List ℕ)) (i : ℕ) (slot : List ℕ)
    → AllSlots max_data slots
    → (i < length slots → IsSlot max_data slot)
    → AllSlots max_data (set slots i slot)
set-AllSlots max_data [] i slot a h = tt
set-AllSlots max_data (x ∷ slots) zero slot a h = (h (omega arith), a.1)
set-AllSlots max_data (x ∷ slots) (suc i) slot a h =
    (a.0, set-AllSlots max_data slots i slot a.1 (λ p. h (omega arith)))

pub record IsValid (max_queue max_data : ℕ) (s : CallbackSpace) : Type 0 where
  pub queue : length s.slots ≡ max_queue
  pub slots_valid : AllSlots max_data s.slots

abbrev pub slots_of : CallbackSpace → List Slot
slots_of s = map slot_of s.slots

-- What the operations on one slot promise.
abbrev pub reply_slot : List ℕ → Slot → Slot
reply_slot answer free = free
reply_slot answer waiting = answered answer
reply_slot answer (answered old) = answered old

abbrev pub answer_of : Slot → Option (List ℕ)
answer_of free = none
answer_of waiting = none
answer_of (answered answer) = some answer

abbrev pub taken : Slot → Slot
taken free = free
taken waiting = waiting
taken (answered answer) = free

abbrev pub at_slot : ℕ → (Slot → Slot) → List Slot → List Slot
at_slot i f slots = set slots i (f (get_or slots i free))

-- A change of one slot that is what `f` does to it, and one that is none.
pub at_slot_of :
    (slots : List (List ℕ)) (i : ℕ) (slot : List ℕ) (f : Slot → Slot)
    → slot_of slot ≡ f (slot_of (get_or slots i []))
    → map slot_of (set slots i slot) ≡ at_slot i f (map slot_of slots)
at_slot_of slots i slot f e =
    map-set slot_of slots i slot
    ∙ ap (set (map slot_of slots) i) (e ∙ ap f (sym (get_or-map slot_of slots i [])))

at_slot_self :
    (slots : List (List ℕ)) (i : ℕ) (f : Slot → Slot)
    → f (slot_of (get_or slots i [])) ≡ slot_of (get_or slots i [])
    → map slot_of slots ≡ at_slot i f (map slot_of slots)
at_slot_self slots i f e =
    sym (set_self (map slot_of slots) i free)
    ∙ ap (set (map slot_of slots) i)
        (get_or-map slot_of slots i [] ∙ sym e ∙ ap f (sym (get_or-map slot_of slots i [])))

reply_slot_keeps :
    (answer slot : List ℕ) → status slot ≢ pending → reply_slot answer (slot_of slot) ≡ slot_of slot
reply_slot_keeps answer slot h = ground arith

fill_slot_replies :
    {max_data : ℕ} (b : List ℕ) (sz : ℕ) (slot : List ℕ)
    → IsSlot max_data slot
    → sz < 2 ^ 16
    → sz ≤ length b
    → sz ≤ max_data
    → status slot ≡ pending
    → slot_of (fill_slot b sz slot) ≡ reply_slot (read_at b 0 sz) (slot_of slot)
fill_slot_replies b sz slot v hsz hb hd hp = ground (
  arith,
  v.sized,
  status-fill_slot b sz slot (omega (arith, v.sized)),
  payload-fill_slot b sz slot hsz hb (omega (arith, v.sized)),
)

status_past :
    (slots : List (List ℕ)) (i : ℕ) → length slots ≤ i → status (get_or slots i []) ≡ no_data
status_past slots i h = ap status (get_or_past slots i [] h)

module _ {max_queue max_data : ℕ} where
  -- `updateCallback` writes an answer that is not too long into a slot that waits for one, and
  -- leaves every other slot, and a slot in any other state, as it was.
  pub update_callback_refines :
      (cb_index : ℕ) (b : List ℕ) (sz : ℕ) {s : CallbackSpace}
      → IsValid max_queue max_data s
      → sz < 2 ^ 16
      → sz ≤ length b
      → slots_of (update_callback max_queue max_data cb_index b sz s) ≡ (
          if ltb max_data sz
          then slots_of s
          else at_slot cb_index (reply_slot (read_at b 0 sz)) (slots_of s))
  unfolding update_callback
  update_callback_refines cb_index b sz {s} v hsz hb =
      ground (arith, v.queue, status_past s.slots cb_index, kept, wrote)
    where
      slot : List ℕ
      slot = get_or s.slots cb_index []

      kept :
          status slot ≢ pending
          → slots_of s ≡ at_slot cb_index (reply_slot (read_at b 0 sz)) (slots_of s)
      kept ne =
          at_slot_self s.slots cb_index (reply_slot (read_at b 0 sz))
            (reply_slot_keeps (read_at b 0 sz) slot ne)

      wrote :
          cb_index < max_queue
          → sz ≤ max_data
          → status slot ≡ pending
          → map slot_of (set s.slots cb_index (fill_slot b sz slot))
            ≡ at_slot cb_index (reply_slot (read_at b 0 sz)) (slots_of s)
      wrote hi hd hp =
          at_slot_of s.slots cb_index (fill_slot b sz slot) (reply_slot (read_at b 0 sz)) (
            fill_slot_replies b sz slot
              (get_or-IsSlot max_data s.slots cb_index v.slots_valid (omega (arith, v.queue))) hsz
              hb hd hp)

  -- `popCallback` hands out the answer of a slot that has one and frees the slot; every other slot,
  -- and a slot in any other state, stays as it was.
  pub pop_callback_refines :
      (cb_index : ℕ) {s : CallbackSpace}
      → IsValid max_queue max_data s
      → let (s', view) = pop_callback max_queue cb_index s in
        (slots_of s' ≡ at_slot cb_index taken (slots_of s))
        × (Option.map (λ v. view_data v s') view ≡ answer_of (get_or (slots_of s) cb_index free))
  unfolding pop_callback view_data
  pop_callback_refines cb_index {s} v = ground (
    arith,
    v.queue,
    status_past s.slots cb_index,
    get_or-map slot_of s.slots cb_index [],
    at_slot_self s.slots cb_index taken,
    at_slot_of s.slots cb_index freed taken,
    get_or-set_self s.slots cb_index freed [],
    status-set slot no_data,
    payload-set_status slot no_data,
    inside,
  )
    where
      slot : List ℕ
      slot = get_or s.slots cb_index []

      freed : List ℕ
      freed = set slot status_index no_data

      inside : cb_index < max_queue → 0 < length slot
      inside h = omega (
        arith,
        (get_or-IsSlot max_data s.slots cb_index v.slots_valid (omega (arith, v.queue))).sized,
      )

  -- `clearCallback` frees the slot whatever its state.
  pub clear_callback_refines :
      (cb_index : ℕ) {s : CallbackSpace}
      → IsValid max_queue max_data s
      → slots_of (clear_callback max_queue cb_index s)
        ≡ at_slot cb_index (λ slot. free) (slots_of s)
  unfolding clear_callback
  clear_callback_refines cb_index {s} v = ground (
    arith,
    v.queue,
    status_past s.slots cb_index,
    at_slot_self s.slots cb_index (λ slot. free),
    at_slot_of s.slots cb_index (replicate (length (get_or s.slots cb_index [])) 0) (λ slot. free),
    status-replicate (length (get_or s.slots cb_index [])),
  )
