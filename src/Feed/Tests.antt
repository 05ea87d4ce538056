-- ===== src/Feed/Tests.antt =====
-- EventSpace.h: a client that registers, and an event that is announced and taken.
use psi_shared.Base.{
  ℕ, of_bytes, write_at, to_bytes, ◌≡◌, refl, arith, [], ◌∷◌, ◌++◌, none, some, true,
}
use psi_shared.EventRing
use psi_shared.EventRing.{BufferView}
use psi_shared.EventSpace.{
  EventSpace, is_registered, empty_space, all_set, register_from, register_client, set_available,
  deliver, push_from, push, pop,
}
use psi_shared.EventSpace.Valid.{queue_of}
use psi_shared.EventSpace.Deliver.{Fits}
use psi_shared.Feed.{System, noted, at, announce, join, come_and_go, Reach, start, next}
use psi_shared.Protocol.{Sizes, trivial}
use psi_shared.EventQueue.{Queue}
use psi_shared.Client.{Config, Client}
use psi_shared.Client.Reader.{read_ev_data}
use psi_shared.Client.Drain.{told}
use psi_shared.Feed.Rounds.{read_ev_data-Reach}
use psi_shared.Feed.Order.{queue_of-Reach}

abbrev open_space : EventSpace
open_space = set_available true (empty_space 1)

abbrev registered_space : EventSpace
registered_space = (register_client 1 open_space).0

abbrev joined_system : System
joined_system = record {
  space = registered_space;
  kept = at 0 [] (λ j. []);
  got = at 0 [] (λ j. []);
}

abbrev announced : System
announced = record joined_system {
  space = (push 1 5 (1 ∷ 2 ∷ []) 2 registered_space).0;
  kept = noted (5, 1 ∷ 2 ∷ []) joined_system;
}

event-Fits : Fits 5 (1 ∷ 2 ∷ []) 2
event-Fits = record { id_fits = omega arith; size_fits = omega arith; bytes_there = omega arith }

first_place : (register_client 1 open_space).1 ≡ some 0
unfolding register_client register_from all_set empty_space set_available
first_place = refl

announced_reached : Reach 1 announced
announced_reached =
    next (next (next start (come_and_go true)) (join 0 first_place))
      (announce 5 (1 ∷ 2 ∷ []) 2 event-Fits)

in_queue : queue_of 0 announced.space ≡ some ((5, 1 ∷ 2 ∷ []) ∷ [])
unfolding register_client register_from all_set empty_space set_available push push_from deliver
    EventRing.push EventRing.empty_ring EventRing.reset of_bytes EventRing.fill_slot write_at
    to_bytes
in_queue = refl

queue_of-Reach_example :
    (announced.kept 0 ≡ announced.got 0 ++ (5, 1 ∷ 2 ∷ []) ∷ [])
    × ((pop 1 0 announced.space).1 ≡ none → announced.got 0 ≡ announced.kept 0)
queue_of-Reach_example = queue_of-Reach 1 0 ((5, 1 ∷ 2 ∷ []) ∷ []) announced_reached in_queue

abbrev config : Config
config = record {
  call_queue = 2;
  call_sz = 64;
  callback_queue = 2;
  callback_sz = 16;
  max_clients = 1;
}

abbrev sizes : Sizes
sizes = record { string_size = 32; vector_size = 24 }

abbrev listening : Client ℕ
listening = record {
  client_id = 1;
  call_id = 0;
  is_active = true;
  subs = [];
  listeners = record { event_id = 5; types = trivial 2 ∷ []; fn = 8 } ∷ [];
  ev_client_id = some 0;
  server_available = true;
}

registered : is_registered 0 announced.space ≡ true
unfolding register_client register_from all_set empty_space set_available push push_from deliver
registered = refl

read_ev_data-Reach_example :
    (t : System) × (q : Queue) × Reach 1 t
    × (read_ev_data sizes config listening announced.space
        ≡ some (t.space, told sizes listening.listeners q))
    × (announced.kept 0 ≡ announced.got 0 ++ q)
    × (t.got 0 ≡ announced.kept 0)
    × (t.kept 0 ≡ announced.kept 0)
read_ev_data-Reach_example =
    read_ev_data-Reach sizes config listening 0 announced_reached refl refl registered
