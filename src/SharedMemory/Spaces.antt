-- ===== src/SharedMemory/Spaces.antt =====
-- CallSpace.h, CallbackSpace.h and EventSpace.h, as the spaces that stand in shared memory.
use psi_shared.Base.{ℕ, refl}
use psi_shared.CallSpace as Calls
use psi_shared.CallSpace.{CallSpace}
use psi_shared.CallbackSpace as Callbacks
use psi_shared.CallbackSpace.{CallbackSpace}
use psi_shared.EventSpace as Events
use psi_shared.EventSpace.{EventSpace}
use psi_shared.SharedMemory.Services.{Space}

pub call_space : ℕ → ℕ → Space CallSpace
unfolding Calls.empty_space Calls.set_available Calls.is_available
call_space max_queue max_data = record {
  fresh = Calls.empty_space max_queue max_data;
  set_available = Calls.set_available;
  is_available = Calls.is_available;
  is_available-set_available = λ b c. refl;
  is_available-fresh = refl;
}

pub callback_space : ℕ → ℕ → Space CallbackSpace
unfolding Callbacks.empty_space Callbacks.set_available Callbacks.is_available
callback_space max_queue max_data = record {
  fresh = Callbacks.empty_space max_queue max_data;
  set_available = Callbacks.set_available;
  is_available = Callbacks.is_available;
  is_available-set_available = λ b c. refl;
  is_available-fresh = refl;
}

pub event_space : ℕ → Space EventSpace
unfolding Events.empty_space Events.set_available Events.is_available
event_space max_clients = record {
  fresh = Events.empty_space max_clients;
  set_available = Events.set_available;
  is_available = Events.is_available;
  is_available-set_available = λ b c. refl;
  is_available-fresh = refl;
}
