-- ===== src/SharedMemory/Services.antt =====
-- IServerIPCBase.h, ServerIPCBase.cpp and IClientIPC.hpp: the spaces that a server allocates and
-- frees, and that a client connects to.
use psi_shared.Base.{ℕ, Option, none, some, Bool, true, false, ◌≡◌}
use psi_shared.SharedMemory.{
  Os, Manager, read, modify, get_shared_memory, is_shared, load_to_shared, load_from_shared,
}

-- What a space in shared memory has: its constructor, and the flag that says whether the service is
-- there.
pub record Space (C : Type 0) : Type 0 where
  pub fresh : C
  pub set_available : Bool → C → C
  pub is_available : C → Bool
  pub is_available-set_available : (b : Bool) (c : C) → is_available (set_available b c) ≡ b
  pub is_available-fresh : is_available fresh ≡ false

module _ {W C : Type 0} (os : Os W C) (space : Space C) (size : ℕ) where
  open space use {fresh, set_available}

  -- `mem->lock(); mem->read()->setAvailable(value); mem->unlock()` on the object of a manager.
  unfoldable pub mark_available : Bool → Manager → W → Option W
  mark_available value m w = elim (get_shared_memory m) [
    | none ↦ none
    | some o ↦ modify os (read o) (set_available value) w
  ]

  -- The two branches of `allocateMemory`, after the answer of `isShared`.
  unfoldable pub allocate_checked : Bool → Bool → Manager → W → Option (W × Manager)
  allocate_checked true held m w =
      let ((w1, m1), pointer) = load_from_shared os size held m w in
      elim (mark_available true m1 w1) [ none ↦ none | some w2 ↦ some (w2, m1) ]
  allocate_checked false held m w =
      load_to_shared os size held m (some (set_available true fresh)) size w

  unfoldable pub allocate_memory : Bool → Manager → W → Option (W × Manager)
  allocate_memory held m w =
      let (w1, shared) = is_shared os m w in allocate_checked shared held m w1

  unfoldable pub free_memory : Option Manager → W → Option W
  free_memory none w = some w
  free_memory (some m) w = mark_available false m w

  -- The two branches of `connectToService`, after the answer of `isShared`. What the client keeps of
  -- the manager is its object.
  unfoldable pub connect_checked : Bool → Bool → Manager → W → Option (W × Manager)
  connect_checked true held m w = some (load_from_shared os size held m w).0
  connect_checked false held m w = load_to_shared os size held m (some fresh) size w

  unfoldable pub connect_to_service : Bool → Manager → W → Option (W × Manager)
  connect_to_service held m w =
      let (w1, shared) = is_shared os m w in connect_checked shared held m w1
