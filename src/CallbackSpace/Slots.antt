-- ===== src/CallbackSpace/Slots.antt =====
-- CallbackSpace.h: what the bytes of one slot stand for.
use psi_shared.Base.{
  ℕ, zero, suc, ◌+◌, ◌≤◌, ◌<◌, ◌^◌, ◌≡◌, ◌⊎◌, refl, ap, ◌∙◌, List, [], ◌∷◌, ◌++◌, append_assoc,
  arith, length, length-append, drop, length-set, length-take, replicate, read_at, write_at,
  write_at-write_at, length-write_at, drop-write_at, read_at_front, drop_front, to_bytes, of_bytes,
  length-to_bytes, of_bytes-to_bytes, set, ◌==◌, if◌then◌else◌,
}
use psi_shared.CallbackSpace.{
  no_data, pending, ready, status, status_index, size_index, data_index, fill_slot,
}

-- A slot as its users see it.
pub data Slot : Type 0 where
  free : Slot
  waiting : Slot
  answered : List ℕ → Slot

-- The answer that a slot holds.
abbrev pub payload : List ℕ → List ℕ
payload slot = read_at slot data_index (of_bytes (read_at slot size_index 2))

abbrev pub slot_of : List ℕ → Slot
slot_of slot =
    if status slot == ready
    then answered (payload slot)
    else (if status slot == pending then waiting else free)

-- The status is one of the three, so that free means `NoData`.
abbrev pub HasStatus : List ℕ → Type 0
HasStatus slot = (status slot ≡ no_data) ⊎ ((status slot ≡ pending) ⊎ (status slot ≡ ready))

pub record IsSlot (max_data : ℕ) (slot : List ℕ) : Type 0 where
  pub sized : length slot ≡ 3 + max_data
  pub has_status : HasStatus slot

-- Setting the status leaves the bytes behind it.
pub drop-set_status :
    (slot : List ℕ) (v i : ℕ) → drop (suc i) (set slot status_index v) ≡ drop (suc i) slot
drop-set_status [] v i = refl
drop-set_status (x ∷ slot) v i = refl

pub payload-set_status : (slot : List ℕ) (v : ℕ) → payload (set slot status_index v) ≡ payload slot
payload-set_status [] v = refl
payload-set_status (x ∷ slot) v = refl

pub status-set : (slot : List ℕ) (v : ℕ) → 0 < length slot → status (set slot status_index v) ≡ v
status-set [] v h = absurd (omega arith)
status-set (x ∷ slot) v h = refl

pub status-replicate : (n : ℕ) → status (replicate n 0) ≡ no_data
status-replicate zero = refl
status-replicate (suc n) = refl

pub length-fill_slot :
    (data_bytes : List ℕ) (sz : ℕ) (slot : List ℕ)
    → length (fill_slot data_bytes sz slot) ≡ length slot
unfolding fill_slot
length-fill_slot data_bytes sz slot = rw (length-set, length-write_at, length-write_at)

pub status-fill_slot :
    (data_bytes : List ℕ) (sz : ℕ) (slot : List ℕ)
    → 0 < length slot
    → status (fill_slot data_bytes sz slot) ≡ ready
unfolding fill_slot
status-fill_slot data_bytes sz slot h = status-set _ ready (rw (length-write_at, length-write_at) h)

-- An answer that was filled in is the one that is read.
pub payload-fill_slot :
    (data_bytes : List ℕ) (sz : ℕ) (slot : List ℕ)
    → sz < 2 ^ 16
    → sz ≤ length data_bytes
    → 3 + sz ≤ length slot
    → payload (fill_slot data_bytes sz slot) ≡ read_at data_bytes 0 sz
unfolding fill_slot
payload-fill_slot data_bytes sz slot hsz hb hs =
    payload-set_status filled ready
    ∙ ap (read_at filled data_index) (ap of_bytes at_sz ∙ of_bytes-to_bytes 2 sz hsz)
    ∙ read_at_front filled data_index sz answer rest answer_size after_sz
  where
    filled : List ℕ
    filled =
        write_at (write_at slot size_index (to_bytes 2 sz)) data_index (read_at data_bytes 0 sz)

    answer : List ℕ
    answer = read_at data_bytes 0 sz

    answer_size : length answer ≡ sz
    answer_size = omega (arith, length-take sz data_bytes)

    rest : List ℕ
    rest = drop (size_index + length (to_bytes 2 sz ++ answer)) slot

    one_write : filled ≡ write_at slot size_index (to_bytes 2 sz ++ answer)
    one_write =
        ap (λ at. write_at (write_at slot size_index (to_bytes 2 sz)) at answer) {x = data_index}
          {y = size_index + length (to_bytes 2 sz)} (omega (arith, length-to_bytes 2 sz))
        ∙ write_at-write_at slot size_index (to_bytes 2 sz) answer

    whole : drop size_index filled ≡ to_bytes 2 sz ++ (answer ++ rest)
    whole =
        ap (drop size_index) one_write
        ∙ drop-write_at slot size_index (to_bytes 2 sz ++ answer)
            (omega (arith, length-append (to_bytes 2 sz) answer, length-to_bytes 2 sz, answer_size))
        ∙ append_assoc (to_bytes 2 sz) answer rest

    at_sz : read_at filled size_index 2 ≡ to_bytes 2 sz
    at_sz = read_at_front filled size_index 2 (to_bytes 2 sz) _ (length-to_bytes 2 sz) whole

    after_sz : drop data_index filled ≡ answer ++ rest
    after_sz =
        drop_front filled size_index 3 (to_bytes 2 sz) _ (omega (arith, length-to_bytes 2 sz)) whole
