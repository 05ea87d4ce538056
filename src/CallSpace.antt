-- ===== src/CallSpace.antt =====
-- psi/include/psi/shared/ipc/space/CallSpace.h: the clients append serialized calls to one flat
-- buffer, and the server takes all of them at once.
pub mod Refine
pub mod ClientIds
mod Tests
use psi_shared.Base.{
  ℕ, ◌+◌, ◌*◌, List, Option, none, some, Bool, true, false, ◌||◌, ltb, ◌==◌, if◌then◌else◌,
  replicate, write_at, read_at, u16, u32, u16_max,
}

pub record CallSpace : Type 0 where
  pub bytes : List ℕ
  pub is_available : Bool
  pub write_index : ℕ
  pub last_client_id : ℕ

abbrev pub data_length : ℕ → ℕ → ℕ
data_length max_queue max_data = max_data * max_queue

unfoldable pub empty_space : ℕ → ℕ → CallSpace
empty_space max_queue max_data = record {
  bytes = replicate (data_length max_queue max_data) 0;
  is_available = false;
  write_index = 0;
  last_client_id = 0;
}

unfoldable pub set_available : Bool → CallSpace → CallSpace
set_available value s = record s { is_available = value }

unfoldable pub is_available : CallSpace → Bool
is_available s = s.is_available

unfoldable pub is_data_available : CallSpace → Bool
is_data_available s = ltb 0 s.write_index

-- `none` is the null pointer; else the memory that `data` points to.
unfoldable pub push : ℕ → ℕ → Option (List ℕ) → ℕ → CallSpace → CallSpace × Bool
push max_queue max_data none sz s = (s, false)
push max_queue max_data (some data_bytes) sz s =
    if sz == 0
    then (s, false)
    else (if ltb max_data sz
        then (s, false)
        else (if ltb (data_length max_queue max_data) (u32 (s.write_index + sz))
            then (s, false)
            else (
              record s {
                bytes = write_at s.bytes s.write_index (read_at data_bytes 0 sz);
                write_index = u32 (s.write_index + sz);
              },
              true,
            )))

-- The size that goes through `dataSz`, and the memory behind the pointer that is returned.
unfoldable pub pop : CallSpace → ℕ × Option (List ℕ)
pop s = (s.write_index, if s.write_index == 0 then none else some s.bytes)

unfoldable pub clear : CallSpace → CallSpace
clear s = record s { write_index = 0 }

unfoldable pub generate_client_id : CallSpace → CallSpace × Option ℕ
generate_client_id s = if s.last_client_id == u16_max then (s, none) else (
  record s { last_client_id = u16 (s.last_client_id + 1) },
  some (u16 (s.last_client_id + 1)),
)
