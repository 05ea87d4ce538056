-- ===== src/EventRing/Refine.antt =====
-- EventRingBuffer.h: the ring as the bounded queue of the messages in its slots.
use native.Mathlib.Nat.{mod-add-mod, mod-eq_of_lt, mod-lt, add-zero}
use psi_shared.Base.{
  ℕ, zero, suc, ◌+◌, ◌-◌, ◌%◌, ◌≤◌, ◌<◌, ◌^◌, ◌≡◌, ◌≢◌, refl, ap, ap₂, ◌∙◌, List, [], ◌∷◌, ◌++◌,
  Option, none, some, Bool, arith, length, set, get_or, get_or-set_self, get_or-set_ne, read_at,
  length-take,
}
use psi_shared.EventQueue
use psi_shared.EventQueue.{Message, Queue}
use psi_shared.EventRing.{
  Ring, BufferView, header, next_index, fill_slot, view_data, empty_ring, push, pop, reset,
}
use psi_shared.EventRing.Slot.{message_of, message_of-fill_slot}
use psi_shared.EventRing.Index.{
  round_ne, write_lem, count_next_write, count_next_read, full_iff, empty_iff, count_reset,
}
use psi_shared.EventRing.Valid.{
  Layout, IsValid, push-IsValid, pop-IsValid, reset-IsValid, length-get_or, next_index_lem,
}

module _ (slots : List (List ℕ)) (size : ℕ) where
  -- The `n` messages from slot `i` on, going round at `size`.
  abbrev pub messages : ℕ → ℕ → Queue
  messages i zero = []
  messages i (suc n) = message_of (get_or slots i []) ∷ messages ((i + 1) % size) n

  length-messages : (i n : ℕ) → length (messages i n) ≡ n
  length-messages i zero = refl
  length-messages i (suc n) = ap suc (length-messages ((i + 1) % size) n)

  messages-split :
      (i n : ℕ)
      → n ≢ 0
      → messages i n ≡ message_of (get_or slots i []) ∷ messages ((i + 1) % size) (n - 1)
  messages-split i zero h = absurd (h refl)
  messages-split i (suc n) h = ap (λ k. messages i (suc k)) (omega arith)

-- How many messages are in the ring: the way from `read` round to `write`.
abbrev pub count : ℕ → Ring → ℕ
count size r = (r.write + size - r.read) % size

abbrev pub contents : ℕ → Ring → Queue
contents size r = messages r.storage size r.read (count size r)

pub length-contents : (size : ℕ) (r : Ring) → 0 < size → length (contents size r) < size
length-contents size r h = omega (
  arith,
  length-messages r.storage size r.read (count size r),
  mod-lt (r.write + size - r.read) h,
)

-- The view that `pop` returns, as the message that it stands for.
abbrev pub seen : Ring → Option BufferView → Option Message
seen r none = none
seen r (some v) = some (v.event_id, view_data v r)

-- A write into the slot behind the last message appends what is written.
messages-set :
    (slots : List (List ℕ)) (size : ℕ) (slot : List ℕ) (n i j : ℕ)
    → size ≤ length slots
    → i < size
    → n < size
    → j ≡ (i + n) % size
    → messages (set slots j slot) size i (suc n) ≡ messages slots size i n ++ message_of slot ∷ []
messages-set slots size slot zero i j hs hi hn e =
    rw (e, add-zero, mod-eq_of_lt hi, get_or-set_self slots i slot [] (omega arith))
messages-set slots size slot (suc n) i j hs hi hn e =
    ap₂ (λ s q. message_of s ∷ q) (get_or-set_ne slots j i slot [] (rw e (round_ne hi hn)))
      (messages-set slots size slot n ((i + 1) % size) j hs (omega arith) (omega arith) (e ∙ shift))
  where
    shift : (i + suc n) % size ≡ ((i + 1) % size + n) % size
    shift = rw mod-add-mod (ap (λ k. k % size) (omega arith))

-- A call of the ring, and what its caller sees.
pub data Op : Type 0 where
  pushes : ℕ → List ℕ → ℕ → Op
  pops : Op
  resets : Op

pub data Answer : Type 0 where
  flag : Bool → Answer
  message : Option Message → Answer
  done : Answer

-- A caller passes 16-bit numbers, and memory that holds the bytes it announces.
abbrev pub AllFit : List Op → Type 0
AllFit [] = Unit {0}
AllFit (pushes event_id bytes sz ∷ ops) =
    ((event_id < 2 ^ 16) × (sz < 2 ^ 16) × (sz ≤ length bytes)) × AllFit ops
AllFit (pops ∷ ops) = AllFit ops
AllFit (resets ∷ ops) = AllFit ops

unfoldable pub run : ℕ → ℕ → List Op → Ring → List Answer
run max_queue max_data [] r = []
run max_queue max_data (pushes event_id bytes sz ∷ ops) r =
    let (r', accepted) = push max_queue max_data event_id bytes sz r in
    flag accepted ∷ run max_queue max_data ops r'
run max_queue max_data (pops ∷ ops) r =
    let (r', view) = pop max_queue r in message (seen r' view) ∷ run max_queue max_data ops r'
run max_queue max_data (resets ∷ ops) r = done ∷ run max_queue max_data ops (reset r)

pub run_queue : ℕ → ℕ → List Op → Queue → List Answer
run_queue room limit [] q = []
run_queue room limit (pushes event_id bytes sz ∷ ops) q =
    let (q', accepted) = EventQueue.push room limit (event_id, read_at bytes 0 sz) q in
    flag accepted ∷ run_queue room limit ops q'
run_queue room limit (pops ∷ ops) q =
    let (out, q') = EventQueue.pop q in message out ∷ run_queue room limit ops q'
run_queue room limit (resets ∷ ops) q = done ∷ run_queue room limit ops []

module _ {max_queue max_data : ℕ} (l : Layout max_queue max_data) where
  -- The ring after a slot was written behind its last message.
  push_contents :
      (event_id : ℕ) (bytes : List ℕ) (sz : ℕ) {r : Ring}
      → IsValid max_queue max_data r
      → event_id < 2 ^ 16
      → sz < 2 ^ 16
      → sz ≤ length bytes
      → sz ≤ max_data
      → next_index max_queue r.write ≢ r.read
      → let slot = fill_slot event_id bytes sz (get_or r.storage r.write []) in
        contents max_queue
          (record r { storage = set r.storage r.write slot; write = next_index max_queue r.write })
        ≡ contents max_queue r ++ (event_id, read_at bytes 0 sz) ∷ []
  push_contents event_id bytes sz {r} v hid hsz hb hd ne =
      ap (messages stored max_queue r.read) more
      ∙ messages-set r.storage max_queue slot (count max_queue r) r.read r.write
          (omega (arith, v.queue)) v.read_in (mod-lt (r.write + max_queue - r.read) l.some_queue)
          (write_lem v.read_in v.write_in)
      ∙ ap (λ m. contents max_queue r ++ m ∷ []) held
    where
      slot : List ℕ
      slot = fill_slot event_id bytes sz (get_or r.storage r.write [])

      stored : List (List ℕ)
      stored = set r.storage r.write slot

      more :
          (next_index max_queue r.write + max_queue - r.read) % max_queue ≡ suc (count max_queue r)
      more =
          ap (λ i. (i + max_queue - r.read) % max_queue) (next_index_lem l r.write)
          ∙ count_next_write v.read_in v.write_in (λ e. ne (next_index_lem l r.write ∙ e))

      held : message_of slot ≡ (event_id, read_at bytes 0 sz)
      held = message_of-fill_slot event_id bytes sz (get_or r.storage r.write []) hid hsz hb (
          omega (
            arith,
            length-get_or (header + max_data) r.storage r.write v.slots
                (omega (arith, v.queue, v.write_in)),
          ))

  -- `push` accepts and refuses what the bounded queue of the ring's messages does, and appends the
  -- same message, if the ring is valid and `data` has `sz` bytes.
  pub push_refines :
      (event_id : ℕ) (bytes : List ℕ) (sz : ℕ) {r : Ring}
      → IsValid max_queue max_data r
      → event_id < 2 ^ 16
      → sz < 2 ^ 16
      → sz ≤ length bytes
      → let (r', accepted) = push max_queue max_data event_id bytes sz r in
        (contents max_queue r', accepted)
        ≡ EventQueue.push
            (max_queue - 1)
            max_data
            (event_id, read_at bytes 0 sz)
            (contents max_queue r)
  unfolding push EventQueue.push
  push_refines event_id bytes sz {r} v hid hsz hb = ground (
    arith,
    length-take sz bytes,
    length-messages r.storage max_queue r.read (count max_queue r),
    next_index_lem l r.write,
    full_iff v.read_in v.write_in,
    push_contents event_id bytes sz v hid hsz hb,
  )

  -- `pop` returns the oldest message, through a view into the ring that it leaves, and removes it.
  pub pop_refines :
      {r : Ring}
      → IsValid max_queue max_data r
      → let (r', view) = pop max_queue r in
        (seen r' view, contents max_queue r') ≡ EventQueue.pop (contents max_queue r)
  unfolding pop view_data EventQueue.pop
  pop_refines {r} v = ground (
    arith,
    next_index_lem l r.read,
    empty_iff v.read_in v.write_in,
    count_next_read v.read_in v.write_in,
    messages-split r.storage max_queue r.read (count max_queue r),
  )

  pub contents-reset : (r : Ring) → contents max_queue (reset r) ≡ []
  unfolding reset
  contents-reset r = ap (messages r.storage max_queue 0) (count_reset max_queue)

  pub contents-empty_ring : contents max_queue (empty_ring max_queue max_data) ≡ []
  unfolding empty_ring
  contents-empty_ring =
      ap (messages (empty_ring max_queue max_data).storage max_queue 0) (count_reset max_queue)

  -- Whatever is called, in whatever order, with 16-bit numbers and memory that has the bytes it
  -- announces, a valid ring answers as the bounded queue of its
  -- messages: every flag of `push`, and every message read through a view that `pop` returns.
  pub run_refines :
      (ops : List Op) {r : Ring}
      → IsValid max_queue max_data r
      → AllFit ops
      → run max_queue max_data ops r ≡ run_queue (max_queue - 1) max_data ops (contents max_queue r)
  unfolding run run_queue
  run_refines [] v f = refl
  run_refines (pushes event_id bytes sz ∷ ops) {r} v (f, fs) = rw (
    run_refines ops (push-IsValid l event_id bytes sz v) fs,
    ← push_refines event_id bytes sz v f.0 f.1 f.2,
  )
  run_refines (pops ∷ ops) {r} v f = rw (run_refines ops (pop-IsValid l v) f, ← pop_refines v)
  run_refines (resets ∷ ops) {r} v f = rw (run_refines ops (reset-IsValid l v) f, contents-reset r)
