-- ===== src/SharedMemory.antt =====
-- psi/src/psi/shared/sm_object_impl.h, sm_manager_impl.h and sm_managers.cpp, as built on Linux: a
-- named object in shared memory that holds one space, opened or created and mapped by a manager.
pub mod Posix
pub mod Open
pub mod Services
pub mod Rendezvous
pub mod Meeting
pub mod Failures
pub mod Spaces
pub mod Managers
pub mod Registry
mod Sample
mod Tests
use psi_shared.Base.{
  ℕ, List, [], ◌∷◌, ◌++◌, Option, none, some, Bool, true, false, ltb, ◌==◌, if◌then◌else◌,
}

-- The calls of the system that the code makes, on the state `W` of the system: the objects in shared
-- memory and the mappings, which hold values of the type `C`. A call that fails answers `none`.
pub record Os (W C : Type 0) : Type 0 where
  -- `shm_open` with `O_EXCL | O_RDWR`
  pub shm_open : List ℕ → W → W × Option ℕ
  -- `shm_open` with `O_CREAT | O_RDWR`
  pub shm_create : List ℕ → W → W × Option ℕ
  pub ftruncate : ℕ → W → W × Bool
  pub mmap : ℕ → W → W × Option ℕ
  pub munmap : ℕ → W → W
  pub close : Option ℕ → W → W
  -- What stands at an address, and the write of an object to it.
  pub load : ℕ → W → C
  pub store : ℕ → C → W → W

-- What `void *handle` holds: `map_failed` is `MAP_FAILED`, the answer of an `mmap` that failed.
pub data Handle : Type 0 where
  null : Handle
  map_failed : Handle
  mapped : ℕ → Handle

abbrev pub is_null : Handle → Bool
is_null Handle.null = true
is_null Handle.map_failed = false
is_null (Handle.mapped a) = false

pub record MappedFile : Type 0 where
  pub id : Option ℕ
  pub name : List ℕ
  pub handle : Handle

-- `sm_object_impl`, with the name of its mutex.
pub record SmObject : Type 0 where
  pub max_object_size : ℕ
  pub map_file : MappedFile
  pub mutex_name : List ℕ

-- `sm_manager_impl`, with the name of its mutex.
pub record Manager : Type 0 where
  pub file_name : List ℕ
  pub mutex_name : List ℕ
  pub shared_object : Option SmObject

-- The text behind the last `c`, where there is one (`find_last_of` and `substr`).
unfoldable pub after_last : ℕ → List ℕ → Option (List ℕ)
after_last c [] = none
after_last c (x ∷ xs) = elim (after_last c xs) [
  | some rest ↦ some rest
  | none ↦ if x == c then some xs else none
]

-- `type_name` is the answer of `typeid(C).name()`; 58 is the colon, 32 the space.
unfoldable pub short_name : List ℕ → List ℕ
short_name type_name = elim (after_last 58 type_name) [
  | some rest ↦ rest
  | none ↦ elim (after_last 32 type_name) [ some rest ↦ rest | none ↦ type_name ]
]

-- 95 is the underscore, 83 and 77 are the letters of "SMM".
unfoldable pub new_manager : List ℕ → List ℕ → Manager
new_manager type_name name = record {
  file_name = short_name type_name ++ 95 ∷ name;
  mutex_name = name ++ 83 ∷ 77 ∷ 77 ∷ [];
  shared_object = none;
}

-- "shmap." in front of the name.
unfoldable pub map_file_name : Manager → List ℕ
map_file_name m = 115 ∷ 104 ∷ 109 ∷ 97 ∷ 112 ∷ 46 ∷ m.file_name

-- "mutex_" in front of the name of the file.
unfoldable pub new_object : ℕ → MappedFile → SmObject
new_object max_object_size file = record {
  max_object_size = max_object_size;
  map_file = file;
  mutex_name = 109 ∷ 117 ∷ 116 ∷ 101 ∷ 120 ∷ 95 ∷ file.name;
}

unfoldable pub read : SmObject → Handle
read o = o.map_file.handle

-- `get_sm_object` and `getSharedMemory`
unfoldable pub get_shared_memory : Manager → Option SmObject
get_shared_memory m = m.shared_object

abbrev pub handle_of : Option ℕ → Handle
handle_of none = Handle.map_failed
handle_of (some a) = Handle.mapped a

module _ {W C : Type 0} (os : Os W C) where
  -- An access through a handle: none but an address of a mapping survives it.
  abbrev pub overwrite : Handle → C → W → Option W
  overwrite Handle.null c w = none
  overwrite Handle.map_failed c w = none
  overwrite (Handle.mapped a) c w = some (os.store a c w)

  abbrev pub modify : Handle → (C → C) → W → Option W
  modify Handle.null f w = none
  modify Handle.map_failed f w = none
  modify (Handle.mapped a) f w = some (os.store a (f (os.load a w)) w)

  -- The `mmap` of a descriptor that was opened.
  unfoldable pub map_file : List ℕ → ℕ → W → W × MappedFile
  map_file map_name d w =
      let (w1, answer) = os.mmap d w in
      (w1, record { id = some d; name = map_name; handle = handle_of answer })

  -- The second half of `tryOpenMap`: no object of the name was there.
  unfoldable pub create_map : List ℕ → W → W × MappedFile
  create_map map_name w =
      let (w1, opened) = os.shm_create map_name w in
      elim opened [
        | none ↦ (w1, record { id = none; name = map_name; handle = Handle.null })
        | some d ↦
            let (w2, sized) = os.ftruncate d w1 in
            if sized
            then map_file map_name d w2
            else (w2, record { id = some d; name = map_name; handle = Handle.null })
      ]

  unfoldable pub try_open_map : List ℕ → W → W × MappedFile
  try_open_map map_name w =
      let (w1, opened) = os.shm_open map_name w in
      elim opened [ some d ↦ map_file map_name d w1 | none ↦ create_map map_name w1 ]

  -- The destructor of the object.
  unfoldable pub destroy_object : SmObject → W → W
  destroy_object o w = elim o.map_file.handle [
    | Handle.mapped a ↦ os.close o.map_file.id (os.munmap a w)
    | _ ↦ os.close o.map_file.id w
  ]

  -- The object that the manager had is destroyed, unless it is `held` by somebody else as well.
  unfoldable pub release : Bool → Option SmObject → W → W
  release held none w = w
  release true (some o) w = w
  release false (some o) w = destroy_object o w

  -- `size` is `sizeof(C)`, which is `MAX_OBJECT_SIZE` too.
  unfoldable pub create_impl : ℕ → Bool → Manager → W → W × Manager
  create_impl size held m w =
      let (w1, file) = try_open_map (map_file_name m) w in
      if is_null file.handle then (w1, m) else (
        release held m.shared_object w1,
        record m { shared_object = some (new_object size file) },
      )

  -- `isShared`: the descriptor that is opened is not closed again.
  unfoldable pub is_shared : Manager → W → W × Bool
  is_shared m w =
      let (w1, opened) = os.shm_open (map_file_name m) w in
      (w1, elim opened [ some d ↦ true | none ↦ false ])

  unfoldable pub write : ℕ → SmObject → Option C → W → Option (W × Bool)
  write size o none w = some (w, false)
  write size o (some c) w =
      if ltb o.max_object_size size
      then some (w, false)
      else elim (overwrite o.map_file.handle c w) [ none ↦ none | some w1 ↦ some (w1, true) ]

  -- `loadToShared` with assertions off; `none` is the end of the process by an access to no memory.
  unfoldable pub load_to_shared : ℕ → Bool → Manager → Option C → ℕ → W → Option (W × Manager)
  load_to_shared size held m none object_sz w = some (w, m)
  load_to_shared size held m (some c) object_sz w =
      if object_sz == size
      then (let (w1, m1) = create_impl size held m w in
          elim m1.shared_object [
            | none ↦ some (w1, m1)
            | some o ↦ elim (write size o (some c) w1) [
              | none ↦ none
              | some (w2, done) ↦ some (w2, m1)
            ]
          ])
      else some (w, m)

  unfoldable pub load_from_shared : ℕ → Bool → Manager → W → (W × Manager) × Handle
  load_from_shared size held m w =
      let (w1, m1) = create_impl size held m w in
      ((w1, m1), elim m1.shared_object [ some o ↦ read o | none ↦ Handle.null ])

  -- `freeMemory`, of the manager's destructor
  unfoldable pub free_manager : Bool → Manager → W → W × Manager
  free_manager held m w = (release held m.shared_object w, record m { shared_object = none })
