-- ===== src/EventSpace/Tests.antt =====
-- EventSpace.h: the theorems at a space of two clients, of whom the first is registered.
use psi_shared.Base.{ℕ, ◌≡◌, refl, [], ◌∷◌, true, arith, some}
use psi_shared.EventSpace.{EventSpace, empty_space, all_set, register_from, register_client, push}
use psi_shared.EventSpace.Valid.{IsValid, queue_of, empty_space-IsValid, register_client-IsValid}
use psi_shared.EventSpace.Deliver.{Fits, offered, any_from, push_lem}

abbrev one_client : EventSpace
one_client = (register_client 2 (record (empty_space 2) { is_available = true })).0

open_space-IsValid : IsValid 2 (record (empty_space 2) { is_available = true })
open_space-IsValid = record {
  rings = (empty_space-IsValid {max_clients = 2}).rings;
  bits = (empty_space-IsValid {max_clients = 2}).bits;
  rings_valid = (empty_space-IsValid {max_clients = 2}).rings_valid;
}

one_client-IsValid : IsValid 2 one_client
one_client-IsValid = register_client-IsValid open_space-IsValid

event-Fits : Fits 5 (1 ∷ 2 ∷ []) 2
event-Fits = record { id_fits = omega arith; size_fits = omega arith; bytes_there = omega arith }

first_id : (register_client 2 (record (empty_space 2) { is_available = true })).1 ≡ some 0
unfolding register_client register_from all_set empty_space
first_id = refl

push_lem_example :
    let (s, any) = push 2 5 (1 ∷ 2 ∷ []) 2 one_client in
    ((j : ℕ) → queue_of j s ≡ offered (5, 1 ∷ 2 ∷ []) (queue_of j one_client))
    × (any ≡ any_from (5, 1 ∷ 2 ∷ []) (λ j. queue_of j one_client) 2 0)
unfolding register_client register_from all_set empty_space
push_lem_example = push_lem 2 5 (1 ∷ 2 ∷ []) 2 event-Fits one_client-IsValid refl
