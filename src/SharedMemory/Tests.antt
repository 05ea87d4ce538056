-- ===== src/SharedMemory/Tests.antt =====
-- sm_manager_impl.h, IServerIPCBase.h and IClientIPC.hpp: a small call space in shared memory, runs,
-- and the theorems at concrete systems.
use psi_shared.Base.{ℕ, List, [], ◌∷◌, none, some, true, false, ◌≡◌, refl}
use psi_shared.CallSpace.{CallSpace}
use psi_shared.SharedMemory.{
  Os, Handle, SmObject, Manager, is_null, after_last, short_name, new_manager, map_file_name,
  load_to_shared, load_from_shared,
}
use psi_shared.SharedMemory.Posix.{Object}
use psi_shared.SharedMemory.Sample.{
  Shm, sample_os, sample_posix, sample_object, sample_target, open_file,
}
use psi_shared.SharedMemory.Services.{allocate_memory, free_memory, Space}
use psi_shared.SharedMemory.Spaces.{call_space}
use psi_shared.SharedMemory.Meeting.{
  meet, overtaken, Share, Shared, meet_lem, free_memory_lem, overtaken_lem,
}
use psi_shared.SharedMemory.Failures.{load_from_shared-unmapped, allocate_memory-refused}

-- "a::bc" and "s c" are cut, "3abc" is not.
short_name-colon : short_name (97 ∷ 58 ∷ 58 ∷ 98 ∷ 99 ∷ []) ≡ 98 ∷ 99 ∷ []
unfolding short_name after_last
short_name-colon = refl

short_name-space : short_name (115 ∷ 32 ∷ 99 ∷ []) ≡ 99 ∷ []
unfolding short_name after_last
short_name-space = refl

short_name-plain : short_name (51 ∷ 97 ∷ 98 ∷ 99 ∷ []) ≡ 51 ∷ 97 ∷ 98 ∷ 99 ∷ []
unfolding short_name after_last
short_name-plain = refl

abbrev zeros : CallSpace
zeros = record { bytes = []; is_available = false; write_index = 0; last_client_id = 0 }

abbrev small : Space CallSpace
small = call_space 2 4

abbrev nothing : Shm CallSpace
nothing = record { objects = λ n. Object.missing; files = []; maps = [] }

abbrev type_name : List ℕ
type_name = 67 ∷ []

abbrev service : List ℕ
service = 120 ∷ 121 ∷ []

-- An object of an earlier run, with a call in it.
abbrev earlier : CallSpace
earlier = record {
  bytes = 1 ∷ 2 ∷ 3 ∷ 0 ∷ 0 ∷ 0 ∷ 0 ∷ 0 ∷ [];
  is_available = false;
  write_index = 3;
  last_client_id = 4;
}

abbrev left_over : Shm CallSpace
left_over = record { objects = λ n. Object.holding earlier; files = []; maps = [] }

meet_lem_example :
    Shared
      (sample_posix zeros)
      small
      96
      type_name
      service
      (small.set_available true earlier)
      (meet (sample_os zeros) small 96 false type_name service left_over)
meet_lem_example =
    meet_lem (sample_posix zeros) small 96 false type_name service left_over (some earlier)
      (sample_object zeros _ left_over)

-- A server and a client, mapped at the addresses 0 and 1.
abbrev file : List ℕ
file = map_file_name (new_manager type_name service)

abbrev both_mapped : Shm CallSpace
both_mapped = record {
  objects = λ n. Object.holding earlier;
  files = [];
  maps = some file ∷ some file ∷ [];
}

abbrev mapped_at : ℕ → SmObject
mapped_at a = record {
  max_object_size = 96;
  map_file = record { id = some 0; name = file; handle = Handle.mapped a };
  mutex_name = [];
}

abbrev manager_at : ℕ → Manager
manager_at a = record (new_manager type_name service) { shared_object = some (mapped_at a) }

sharing : Share (sample_posix zeros) file (manager_at 0) (manager_at 1) earlier both_mapped
unfolding map_file_name
sharing = record {
  server_name = refl;
  client_name = refl;
  server_attached = (mapped_at 0, 0, refl, (refl, sample_target zeros 0 both_mapped));
  client_attached = (mapped_at 1, 1, refl, (refl, sample_target zeros 1 both_mapped));
  holds = sample_object zeros file both_mapped;
}

free_memory_lem_example :
    (w1 : Shm CallSpace) × (free_memory (sample_os zeros) small 96 (some (manager_at 0)) both_mapped
      ≡ some w1)
    × Share
        (sample_posix zeros)
        file
        (manager_at 0)
        (manager_at 1)
        (small.set_available false earlier)
        w1
    × ((sample_os zeros).load 1 w1 ≡ small.set_available false earlier)
unfolding sharing
free_memory_lem_example = free_memory_lem (sample_posix zeros) small 96 sharing

overtaken_lem_example :
    Shared
      (sample_posix zeros)
      small
      96
      type_name
      service
      small.fresh
      (overtaken (sample_os zeros) small 96 type_name service nothing)
overtaken_lem_example =
    overtaken_lem (sample_posix zeros) small 96 type_name service nothing
      (sample_object zeros _ nothing)

-- A system in which no object can be mapped, and one in which none can be opened or created.
abbrev unmapping : Os (Shm CallSpace) CallSpace
unmapping = record (sample_os zeros) { mmap = λ d w. (w, none) }

abbrev refusing : Os (Shm CallSpace) CallSpace
refusing = record (sample_os zeros) { shm_open = λ n w. (w, none); shm_create = λ n w. (w, none) }

load_from_shared-unmapped_example :
    let m = new_manager type_name service in
    ((load_from_shared unmapping 96 false m left_over).1 ≡ Handle.map_failed)
    × (is_null (load_from_shared unmapping 96 false m left_over).1 ≡ false)
    × ((c : CallSpace) → load_to_shared unmapping 96 false m (some c) 96 left_over ≡ none)
unfolding open_file
load_from_shared-unmapped_example =
    load_from_shared-unmapped unmapping 96 false (new_manager type_name service) left_over 0
      (λ d w. refl) refl

allocate_memory-refused_example :
    (w1 : Shm CallSpace) × (allocate_memory refusing small 96 false
        (new_manager type_name service)
        nothing
      ≡ some (w1, new_manager type_name service))
    × ((w2 : Shm CallSpace)
        → free_memory refusing small 96 (some (new_manager type_name service)) w2 ≡ none)
allocate_memory-refused_example =
    allocate_memory-refused refusing small 96 false type_name service nothing (λ n w. refl)
      (λ n w. refl)
