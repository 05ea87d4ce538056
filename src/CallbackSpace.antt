-- ===== src/CallbackSpace.antt =====
-- psi/include/psi/shared/ipc/space/CallbackSpace.h: an array of slots in flat memory, in which the
-- server leaves the answers to calls. A slot has a status byte, a size (two bytes) and the data.
pub mod Slots
pub mod Refine
pub mod Reserve
pub mod Valid
mod Tests
use psi_shared.Base.{
  ℕ, zero, suc, ◌+◌, List, [], Option, none, some, Bool, true, false, ◌||◌, not, ltb, leb, ◌==◌,
  if◌then◌else◌, get_or, set, replicate, length, write_at, read_at, u16, to_bytes, of_bytes,
}

-- `DataState`
abbrev pub no_data : ℕ
no_data = 0

abbrev pub pending : ℕ
pending = 1

abbrev pub ready : ℕ
ready = 3

abbrev pub status_index : ℕ
status_index = 0

abbrev pub size_index : ℕ
size_index = 1

abbrev pub data_index : ℕ
data_index = 3

abbrev pub callback_size : ℕ → ℕ
callback_size max_data = u16 (1 + 2 + max_data)

-- The pointer `cb.data() + DATA_INDEX` of the source is the index of its slot.
pub record CallbackView : Type 0 where
  pub slot : ℕ
  pub sz : ℕ

pub record CallbackSpace : Type 0 where
  pub slots : List (List ℕ)
  pub is_available : Bool

unfoldable pub empty_space : ℕ → ℕ → CallbackSpace
empty_space max_queue max_data = record {
  slots = replicate max_queue (replicate (callback_size max_data) 0);
  is_available = false;
}

unfoldable pub set_available : Bool → CallbackSpace → CallbackSpace
set_available value s = record s { is_available = value }

unfoldable pub is_available : CallbackSpace → Bool
is_available s = s.is_available

abbrev pub status : List ℕ → ℕ
status slot = get_or slot status_index no_data

unfoldable pub is_callback_available : ℕ → ℕ → CallbackSpace → Bool
is_callback_available max_queue cb_index s =
    if leb max_queue cb_index then false else status (get_or s.slots cb_index []) == ready

-- The loop of `pushCallback` at index `i`, with so many rounds to go.
unfoldable pub push_from : ℕ → ℕ → CallbackSpace → CallbackSpace × Option ℕ
push_from zero i s = (s, none)
push_from (suc rounds) i s =
    let slot = get_or s.slots i [] in
    let later = push_from rounds (i + 1) s in
    if status slot == no_data
    then (record s { slots = set s.slots i (set slot status_index pending) }, some i)
    else later

unfoldable pub push_callback : ℕ → CallbackSpace → CallbackSpace × Option ℕ
push_callback max_queue s = push_from max_queue 0 s

-- The two copies of `updateCallback` and the status that it sets.
unfoldable pub fill_slot : List ℕ → ℕ → List ℕ → List ℕ
fill_slot data_bytes sz slot =
    set (write_at (write_at slot size_index (to_bytes 2 sz)) data_index (read_at data_bytes 0 sz))
      status_index ready

unfoldable pub update_callback : ℕ → ℕ → ℕ → List ℕ → ℕ → CallbackSpace → CallbackSpace
update_callback max_queue max_data cb_index data_bytes sz s =
    let slot = get_or s.slots cb_index [] in
    if leb max_queue cb_index || ltb max_data sz
    then s
    else (if not (status slot == pending)
        then s
        else record s { slots = set s.slots cb_index (fill_slot data_bytes sz slot) })

unfoldable pub pop_callback : ℕ → ℕ → CallbackSpace → CallbackSpace × Option CallbackView
pop_callback max_queue cb_index s =
    let slot = get_or s.slots cb_index [] in
    if leb max_queue cb_index
    then (s, none)
    else (if not (status slot == ready) then (s, none) else (
      record s { slots = set s.slots cb_index (set slot status_index no_data) },
      some (record {
        slot = cb_index;
        sz = of_bytes (read_at (set slot status_index no_data) size_index 2);
      }),
    ))

unfoldable pub clear_callback : ℕ → ℕ → CallbackSpace → CallbackSpace
clear_callback max_queue cb_index s = if leb max_queue cb_index then s else record s {
  slots = set s.slots cb_index (replicate (length (get_or s.slots cb_index [])) 0);
}

-- The bytes that a view's pointer and size give in the space as it is now.
unfoldable pub view_data : CallbackView → CallbackSpace → List ℕ
view_data v s = read_at (get_or s.slots v.slot []) data_index v.sz
