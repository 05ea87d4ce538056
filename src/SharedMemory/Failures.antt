-- ===== src/SharedMemory/Failures.antt =====
-- sm_manager_impl.h and IServerIPCBase.h: what becomes of a manager when a call of the system fails.
use psi_shared.Base.{ℕ, arith, List, none, some, Bool, false, ◌≡◌, refl, ap, le→ltb, ==_refl}
use psi_shared.SharedMemory.{
  Os, SmObject, Handle, Manager, new_manager, is_null, handle_of, map_file_name, read, new_object,
  map_file, create_map, try_open_map, create_impl, get_shared_memory, is_shared, write,
  load_to_shared, load_from_shared,
}
use psi_shared.SharedMemory.Services.{
  Space, mark_available, allocate_checked, allocate_memory, free_memory,
}

module _ {W C : Type 0} (os : Os W C) where
  create_impl-unmapped :
      (size : ℕ) (held : Bool) (m : Manager) (w : W) (d : ℕ)
      → ((d : ℕ) (w : W) → (os.mmap d w).1 ≡ none)
      → (os.shm_open (map_file_name m) w).1 ≡ some d
      → (o : SmObject) × ((create_impl os size held m w).1.shared_object ≡ some o)
        × (o.map_file.handle ≡ Handle.map_failed)
        × (o.max_object_size ≡ size)
  unfolding create_impl try_open_map map_file new_object
  create_impl-unmapped size held m w d fails opened = (
    new_object size (try_open_map os (map_file_name m) w).1,
    rw (create_impl, unmapped) refl,
    unmapped,
    refl,
  )
    where
      unmapped : (try_open_map os (map_file_name m) w).1.handle ≡ Handle.map_failed
      unmapped =
          rw (try_open_map, opened) (ap handle_of (fails d (os.shm_open (map_file_name m) w).0))

  -- Where the object of a manager is opened, but no object can be mapped, `loadFromShared` answers a
  -- pointer that is not null and points to no memory, and `loadToShared` writes through it, which
  -- ends the process.
  pub load_from_shared-unmapped :
      (size : ℕ) (held : Bool) (m : Manager) (w : W) (d : ℕ)
      → ((d : ℕ) (w : W) → (os.mmap d w).1 ≡ none)
      → (os.shm_open (map_file_name m) w).1 ≡ some d
      → ((load_from_shared os size held m w).1 ≡ Handle.map_failed)
        × (is_null (load_from_shared os size held m w).1 ≡ false)
        × ((c : C) → load_to_shared os size held m (some c) size w ≡ none)
  unfolding load_from_shared load_to_shared read write
  load_from_shared-unmapped size held m w d fails opened =
      let (o, e, unmapped, e1) = create_impl-unmapped size held m w d fails opened in
      (
        rw (load_from_shared, e) unmapped,
        rw (load_from_shared, e, unmapped) refl,
        λ c.
            rw
              (load_to_shared, ==_refl size, e, write, e1, le→ltb size size (omega arith), unmapped)
              refl,
      )

  create_impl-refused :
      (size : ℕ) (held : Bool) (m : Manager) (w : W)
      → ((n : List ℕ) (w : W) → (os.shm_open n w).1 ≡ none)
      → ((n : List ℕ) (w : W) → (os.shm_create n w).1 ≡ none)
      → create_impl os size held m w ≡ ((try_open_map os (map_file_name m) w).0, m)
  unfolding create_impl try_open_map create_map
  create_impl-refused size held m w unopened uncreated = rw (create_impl, absent) refl
    where
      absent : (try_open_map os (map_file_name m) w).1.handle ≡ Handle.null
      absent = rw (try_open_map, unopened, create_map, uncreated) refl

  -- Where no object can be opened or created, the constructor of the server comes to its end all the
  -- same, with a manager that has no object, and its destructor ends in an access to no memory.
  pub allocate_memory-refused :
      (space : Space C) (size : ℕ) (held : Bool) (type_name name : List ℕ) (w : W)
      → ((n : List ℕ) (w : W) → (os.shm_open n w).1 ≡ none)
      → ((n : List ℕ) (w : W) → (os.shm_create n w).1 ≡ none)
      → (w1 : W) × (allocate_memory os space size held (new_manager type_name name) w
          ≡ some (w1, new_manager type_name name))
        × ((w2 : W) → free_memory os space size (some (new_manager type_name name)) w2 ≡ none)
  unfolding allocate_memory allocate_checked is_shared load_to_shared free_memory mark_available
      get_shared_memory new_manager
  allocate_memory-refused space size held type_name name w unopened uncreated =
      let m = new_manager type_name name in
      let w1 = (os.shm_open (map_file_name m) w).0 in
      (
        (try_open_map os (map_file_name m) w1).0,
        rw
            (
              allocate_memory,
              unopened,
              allocate_checked,
              load_to_shared,
              ==_refl size,
              create_impl-refused size held m w1 unopened uncreated,
            )
            (ap some (create_impl-refused size held m w1 unopened uncreated)),
        λ w2. refl,
      )
