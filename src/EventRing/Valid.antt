-- ===== src/EventRing/Valid.antt =====
-- EventRingBuffer.h: the invariant on indices and slots.
use psi_shared.Base.{
  ℕ, zero, suc, ◌+◌, ◌%◌, ◌<◌, ◌^◌, ◌≡◌, List, [], ◌∷◌, arith, length, length-set, set, replicate,
  length-replicate, get_or,
}
use native.Mathlib.Nat.{mod-lt, mod-eq_of_lt}
use psi_shared.EventRing.{Ring, header, empty_ring, next_index, fill_slot, push, pop, reset}
use psi_shared.EventRing.Slot.{length-fill_slot}

-- The template arguments for which the class works: a slot's size fits its uint16_t.
pub record Layout (max_queue max_data : ℕ) : Type 0 where
  pub some_queue : 0 < max_queue
  pub queue_fits : max_queue < 2 ^ 16
  pub data_fits : header + max_data < 2 ^ 16

-- Every slot has the size of the array in the class.
abbrev pub Slots : ℕ → List (List ℕ) → Type 0
Slots size [] = Unit {0}
Slots size (slot ∷ slots) = (length slot ≡ size) × Slots size slots

pub length-get_or :
    (size : ℕ) (slots : List (List ℕ)) (i : ℕ)
    → Slots size slots
    → i < length slots
    → length (get_or slots i []) ≡ size
length-get_or size [] i s h = absurd (omega arith)
length-get_or size (slot ∷ slots) zero s h = s.0
length-get_or size (slot ∷ slots) (suc i) s h = length-get_or size slots i s.1 (omega arith)

pub set-Slots :
    (size : ℕ) (slots : List (List ℕ)) (i : ℕ) (slot : List ℕ)
    → Slots size slots
    → length slot ≡ size
    → Slots size (set slots i slot)
set-Slots size [] i slot s h = tt
set-Slots size (x ∷ slots) zero slot s h = (h, s.1)
set-Slots size (x ∷ slots) (suc i) slot s h = (s.0, set-Slots size slots i slot s.1 h)

pub replicate-Slots : (n size b : ℕ) → Slots size (replicate n (replicate size b))
replicate-Slots zero size b = tt
replicate-Slots (suc n) size b = (length-replicate size b, replicate-Slots n size b)

pub record IsValid (max_queue max_data : ℕ) (r : Ring) : Type 0 where
  pub queue : length r.storage ≡ max_queue
  pub slots : Slots (header + max_data) r.storage
  pub read_in : r.read < max_queue
  pub write_in : r.write < max_queue

module _ {max_queue max_data : ℕ} (l : Layout max_queue max_data) where
  pub next_index_lem : (i : ℕ) → next_index max_queue i ≡ (i + 1) % max_queue
  next_index_lem i = mod-eq_of_lt (omega (arith, mod-lt (i + 1) l.some_queue, l.queue_fits))

  pub next_index_in : (i : ℕ) → next_index max_queue i < max_queue
  next_index_in i = omega (arith, next_index_lem i, mod-lt (i + 1) l.some_queue)

  pub empty_ring-IsValid : IsValid max_queue max_data (empty_ring max_queue max_data)
  unfolding empty_ring
  empty_ring-IsValid = record {
    queue = length-replicate max_queue _;
    slots = rw (mod-eq_of_lt l.data_fits) (replicate-Slots max_queue (header + max_data) 0);
    read_in = l.some_queue;
    write_in = l.some_queue;
  }

  pub push-IsValid :
      (event_id : ℕ) (bytes : List ℕ) (sz : ℕ) {r : Ring}
      → IsValid max_queue max_data r
      → IsValid max_queue max_data (push max_queue max_data event_id bytes sz r).0
  unfolding push
  push-IsValid event_id bytes sz {r} v = ground (
    arith,
    next_index_in r.write,
    length-get_or (header + max_data) r.storage r.write v.slots,
    length-fill_slot event_id bytes sz (get_or r.storage r.write []),
    length-set r.storage r.write (fill_slot event_id bytes sz (get_or r.storage r.write [])),
    set-Slots (header + max_data) r.storage r.write
        (fill_slot event_id bytes sz (get_or r.storage r.write [])) v.slots,
  )

  pub pop-IsValid :
      {r : Ring} → IsValid max_queue max_data r → IsValid max_queue max_data (pop max_queue r).0
  unfolding pop
  pop-IsValid {r} v = ground (arith, next_index_in r.read)

  pub reset-IsValid :
      {r : Ring} → IsValid max_queue max_data r → IsValid max_queue max_data (reset r)
  unfolding reset
  reset-IsValid v = ground (arith, l.some_queue)
