-- ===== src/Traffic/Tests.antt =====
-- CallSpace.h and ServerIPCBase.cpp: two pushes and a round of the server.
use psi_shared.Base.{◌≡◌, ◌≢◌, refl, arith, [], ◌∷◌, ◌++◌, some, false, write_at}
use psi_shared.CallSpace.{CallSpace, empty_space, push, pop, clear, is_data_available}
use psi_shared.CallSpace.Refine.{Layout, contents, joined}
use psi_shared.Server.{read_memory, take_calls}
use psi_shared.Traffic.{System, send, take_all, Reach, start, next}
use psi_shared.Traffic.Order.{IsInOrder, Reach-IsInOrder, read_memory-Reach}

small : Layout 2 4
small = record { queue_fits = omega arith; data_fits = omega arith }

-- The call 5, 6 was taken, the call 7 stands in the space.
abbrev between : System
between = record {
  space = record {
    bytes = 7 ∷ 6 ∷ 0 ∷ 0 ∷ 0 ∷ 0 ∷ 0 ∷ 0 ∷ [];
    is_available = false;
    write_index = 1;
    last_client_id = 0;
  };
  sent = (5 ∷ 6 ∷ []) ∷ (7 ∷ []) ∷ [];
  taken = (5 ∷ 6 ∷ []) ∷ [];
}

-- The space with the first call.
abbrev first : CallSpace
first = record {
  bytes = 5 ∷ 6 ∷ 0 ∷ 0 ∷ 0 ∷ 0 ∷ 0 ∷ 0 ∷ [];
  is_available = false;
  write_index = 2;
  last_client_id = 0;
}

between_reached : Reach 2 4 between
unfolding empty_space push write_at read_memory is_data_available take_calls pop clear
between_reached =
    next
      (next (next start (send (5 ∷ 6 ∷ 9 ∷ []) 2 (omega arith) refl))
        (take_all first (5 ∷ 6 ∷ []) refl))
      (send (7 ∷ []) 1 (omega arith) refl)

Reach-IsInOrder_example : IsInOrder 2 4 between
Reach-IsInOrder_example = Reach-IsInOrder 2 4 small between_reached

something_stands : contents between.space ≢ []
something_stands e = absurd (cc)

read_memory-Reach_example :
    let (space', bytes) = read_memory between.space between.space in
    (contents space' ≡ [])
    × (bytes ≡ some (7 ∷ []))
    × (joined between.taken ++ contents between.space ≡ joined between.sent)
read_memory-Reach_example = read_memory-Reach 2 4 small between_reached something_stands
