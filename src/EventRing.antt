-- ===== src/EventRing.antt =====
-- psi/include/psi/shared/ipc/space/EventRingBuffer.h: a ring of slots in flat memory, each with a
-- header (event id and payload size, two bytes each) and the payload.
pub mod Slot
pub mod Valid
pub mod Index
pub mod Refine
pub mod View
mod Tests
use psi_shared.Base.{
  ℕ, ◌+◌, ◌%◌, List, [], Option, none, some, Bool, true, false, ltb, ◌==◌, if◌then◌else◌, get_or,
  set, replicate, write_at, read_at, u16, to_bytes, of_bytes,
}

abbrev pub header : ℕ
header = 4

-- The pointer `slot.data() + HEADER` of the source is the index of its slot.
pub record BufferView : Type 0 where
  pub event_id : ℕ
  pub slot : ℕ
  pub sz : ℕ

pub record Ring : Type 0 where
  pub storage : List (List ℕ)
  pub read : ℕ
  pub write : ℕ

-- The three copies of `push` into a slot. `bytes` is the memory that `data` points to.
unfoldable pub fill_slot : ℕ → List ℕ → ℕ → List ℕ → List ℕ
fill_slot event_id bytes sz slot =
    write_at (write_at (write_at slot 0 (to_bytes 2 event_id)) 2 (to_bytes 2 sz)) header
      (read_at bytes 0 sz)

-- The bytes that a view's pointer and size give in the ring as it is now.
unfoldable pub view_data : BufferView → Ring → List ℕ
view_data v r = read_at (get_or r.storage v.slot []) header v.sz

abbrev pub slot_size : ℕ → ℕ
slot_size max_data = u16 (header + max_data)

unfoldable pub empty_ring : ℕ → ℕ → Ring
empty_ring max_queue max_data = record {
  storage = replicate max_queue (replicate (slot_size max_data) 0);
  read = 0;
  write = 0;
}

-- `(i + 1) % MAX_QUEUE_SIZE`, stored in a uint16_t.
abbrev pub next_index : ℕ → ℕ → ℕ
next_index max_queue i = u16 ((i + 1) % max_queue)

unfoldable pub push : ℕ → ℕ → ℕ → List ℕ → ℕ → Ring → Ring × Bool
push max_queue max_data event_id bytes sz r =
    let next = next_index max_queue r.write in
    if ltb max_data sz
    then (r, false)
    else (if next == r.read then (r, false) else (
      record r {
        storage = set r.storage r.write (fill_slot event_id bytes sz (get_or r.storage r.write []));
        write = next;
      },
      true,
    ))

unfoldable pub pop : ℕ → Ring → Ring × Option BufferView
pop max_queue r =
    let slot = get_or r.storage r.read [] in
    if r.read == r.write then (r, none) else (
      record r { read = next_index max_queue r.read },
      some (record {
        event_id = of_bytes (read_at slot 0 2);
        slot = r.read;
        sz = of_bytes (read_at slot 2 2);
      }),
    )

unfoldable pub reset : Ring → Ring
reset r = record r { read = 0; write = 0 }
