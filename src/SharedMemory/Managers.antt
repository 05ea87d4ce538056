-- ===== src/SharedMemory/Managers.antt =====
-- i_sm_managers.h, sm_managers.cpp, ipc_config.h and `sm_manager_impl::create`: the spaces for which a
-- manager can be created, and the managers of a process, one for each name.
use psi_shared.Base.{
  ℕ, arith, List, [], ◌∷◌, Option, none, some, Bool, true, false, ◌&&◌, ◌==◌, if◌then◌else◌,
}
use psi_shared.CallSpace as Calls
use psi_shared.CallSpace.Refine as Log
use psi_shared.CallbackSpace as Callbacks
use psi_shared.CallbackSpace.Refine as Answers
use psi_shared.CallbackSpace.Valid as Slots
use psi_shared.EventSpace as Events
use psi_shared.EventSpace.Valid as Rings
use psi_shared.Client.{Config, Spaces}
use psi_shared.Client.Valid.{AreValid}
use psi_shared.SharedMemory.{Manager, new_manager}

-- The aliases `CallSpace_…` and `CallbackSpace_…`, which have the same names.
pub data QueueKind : Type 0 where
  queue_default : QueueKind
  q_1024_d_1024 : QueueKind
  q_1024_d_2048 : QueueKind
  q_2048_d_512 : QueueKind
  q_2048_d_1024 : QueueKind
  q_2048_d_2048 : QueueKind

-- The aliases `EventSpace_…`
pub data ClientsKind : Type 0 where
  clients_default : ClientsKind
  c_32 : ClientsKind
  c_64 : ClientsKind

-- The specialisations of `i_sm_managers::create`; there is none for any other space.
pub data ManagedSpace : Type 0 where
  callback_managers : QueueKind → ManagedSpace
  call_managers : QueueKind → ManagedSpace
  event_managers : ClientsKind → ManagedSpace

unfoldable pub queue_size : QueueKind → ℕ
queue_size queue_default = 1024
queue_size q_1024_d_1024 = 1024
queue_size q_1024_d_2048 = 1024
queue_size q_2048_d_512 = 2048
queue_size q_2048_d_1024 = 2048
queue_size q_2048_d_2048 = 2048

unfoldable pub data_size : QueueKind → ℕ
data_size queue_default = 512
data_size q_1024_d_1024 = 1024
data_size q_1024_d_2048 = 2048
data_size q_2048_d_512 = 512
data_size q_2048_d_1024 = 1024
data_size q_2048_d_2048 = 2048

unfoldable pub clients_size : ClientsKind → ℕ
clients_size clients_default = 16
clients_size c_32 = 32
clients_size c_64 = 64

-- An `IPCConfig` that names three of the spaces.
unfoldable pub config_of : QueueKind → QueueKind → ClientsKind → Config
config_of calls callbacks clients = record {
  call_queue = queue_size calls;
  call_sz = data_size calls;
  callback_queue = queue_size callbacks;
  callback_sz = data_size callbacks;
  max_clients = clients_size clients;
}

unfoldable pub default_config : Config
default_config = config_of queue_default queue_default clients_default

-- The three spaces as their constructors leave them.
unfoldable pub new_spaces : Config → Spaces
new_spaces k = record {
  calls = Calls.empty_space k.call_queue k.call_sz;
  callbacks = Callbacks.empty_space k.callback_queue k.callback_sz;
  events = Events.empty_space k.max_clients;
}

-- The sizes fit into the 16 bits in which the code counts them.
pub record Fits (k : Config) : Type 0 where
  pub calls_fit : Log.Layout k.call_queue k.call_sz
  pub callbacks_fit : Answers.Layout k.callback_queue k.callback_sz

call_layout : (kind : QueueKind) → Log.Layout (queue_size kind) (data_size kind)
unfolding queue_size data_size
call_layout queue_default = record { queue_fits = omega arith; data_fits = omega arith }
call_layout q_1024_d_1024 = record { queue_fits = omega arith; data_fits = omega arith }
call_layout q_1024_d_2048 = record { queue_fits = omega arith; data_fits = omega arith }
call_layout q_2048_d_512 = record { queue_fits = omega arith; data_fits = omega arith }
call_layout q_2048_d_1024 = record { queue_fits = omega arith; data_fits = omega arith }
call_layout q_2048_d_2048 = record { queue_fits = omega arith; data_fits = omega arith }

callback_layout : (kind : QueueKind) → Answers.Layout (queue_size kind) (data_size kind)
unfolding queue_size data_size
callback_layout queue_default = record { queue_fits = omega arith; data_fits = omega arith }
callback_layout q_1024_d_1024 = record { queue_fits = omega arith; data_fits = omega arith }
callback_layout q_1024_d_2048 = record { queue_fits = omega arith; data_fits = omega arith }
callback_layout q_2048_d_512 = record { queue_fits = omega arith; data_fits = omega arith }
callback_layout q_2048_d_1024 = record { queue_fits = omega arith; data_fits = omega arith }
callback_layout q_2048_d_2048 = record { queue_fits = omega arith; data_fits = omega arith }

-- For each configuration of spaces for which there are managers, the sizes fit into 16 bits, and the
-- three spaces are valid when they are new.
pub config_of-Fits :
    (calls callbacks : QueueKind) (clients : ClientsKind)
    → Fits (config_of calls callbacks clients)
      × AreValid
          (config_of calls callbacks clients)
          (new_spaces (config_of calls callbacks clients))
unfolding config_of new_spaces
config_of-Fits calls callbacks clients = (
  record { calls_fit = call_layout calls; callbacks_fit = callback_layout callbacks },
  record {
    calls_valid = Log.empty_space-IsValid (call_layout calls);
    callbacks_valid = Slots.empty_space-IsValid (callback_layout callbacks);
    events_valid = Rings.empty_space-IsValid;
  },
)

-- The map behind `create` of one space: the managers of the process by their names.
abbrev pub Registry : Type 0
Registry = List (List ℕ × Manager)

abbrev pub names_equal : List ℕ → List ℕ → Bool
names_equal [] [] = true
names_equal [] (y ∷ ys) = false
names_equal (x ∷ xs) [] = false
names_equal (x ∷ xs) (y ∷ ys) = (x == y) && names_equal xs ys

unfoldable pub find_manager : List ℕ → Registry → Option Manager
find_manager name [] = none
find_manager name ((k, m) ∷ rest) = if names_equal k name then some m else find_manager name rest

-- The pointer that is returned stands for the manager under that name.
unfoldable pub create : List ℕ → List ℕ → Registry → Registry × Manager
create type_name name registry = elim (find_manager name registry) [
  | some m ↦ (registry, m)
  | none ↦ ((name, new_manager type_name name) ∷ registry, new_manager type_name name)
]

-- What an operation on the manager of a name leaves there.
unfoldable pub changed : List ℕ → Manager → Registry → Registry
changed name m [] = []
changed name m ((k, old) ∷ rest) =
    if names_equal k name then (k, m) ∷ rest else (k, old) ∷ changed name m rest
