-- ===== src/Traffic.antt =====
-- CallSpace.h, IClientIPC.hpp and ServerIPCBase.cpp: all clients that push calls and the server that
-- takes them, over one call space, in any order.
pub mod Order
mod Tests
use psi_shared.Base.{ℕ, ◌≤◌, ◌≡◌, List, [], ◌∷◌, ◌++◌, none, some, true, false, length, read_at}
use psi_shared.CallSpace.{CallSpace, empty_space, push, generate_client_id}
use psi_shared.Server.{read_memory}

-- The space, the calls that it accepted, and the buffers that the server took.
pub record System : Type 0 where
  pub space : CallSpace
  pub sent : List (List ℕ)
  pub taken : List (List ℕ)

module _ (max_queue max_data : ℕ) where
  -- What a client or the server does while it holds the lock of the space.
  pub data Step (s : System) : System → Type 0 where
    -- A push of the first `sz` bytes of an array.
    send :
        (call : List ℕ) (sz : ℕ)
        → sz ≤ length call
        → (push max_queue max_data (some call) sz s.space).1 ≡ true
        → Step s (record s {
          space = (push max_queue max_data (some call) sz s.space).0;
          sent = s.sent ++ read_at call 0 sz ∷ [];
        })
    turn_away :
        (call : List ℕ) (sz : ℕ)
        → sz ≤ length call
        → (push max_queue max_data (some call) sz s.space).1 ≡ false
        → Step s (record s { space = (push max_queue max_data (some call) sz s.space).0 })
    gives_id : Step s (record s { space = (generate_client_id s.space).0 })
    -- A round of the server, which has looked at the space at any time before.
    take_all :
        (seen : CallSpace) (bytes : List ℕ)
        → (read_memory seen s.space).1 ≡ some bytes
        → Step s (record s { space = (read_memory seen s.space).0; taken = s.taken ++ bytes ∷ [] })
    find_none :
        (seen : CallSpace)
        → (read_memory seen s.space).1 ≡ none
        → Step s (record s { space = (read_memory seen s.space).0 })

  pub data Reach : System → Type 0 where
    start : Reach (record { space = empty_space max_queue max_data; sent = []; taken = [] })
    next : {s t : System} → Reach s → Step s t → Reach t
