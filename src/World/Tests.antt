-- ===== src/World/Tests.antt =====
-- The program over the spaces of the default configuration: a start of the server and of a client.
use psi_shared.Base.{ℕ, [], none, true, false}
use psi_shared.Protocol.{Sizes}
use psi_shared.CallSpace as Calls
use psi_shared.Client.{Config, Texts, Spaces, Client, connect}
use psi_shared.Client.Valid.{AreValid}
use psi_shared.SharedMemory.Managers.{queue_default, clients_default, config_of, new_spaces}
use psi_shared.World.{connects, announces_calls, Reach, start, next}
use psi_shared.World.Invariant.{Reach-AreValid}

abbrev sizes : Sizes
sizes = record { string_size = 32; vector_size = 24 }

abbrev texts : Texts
texts = record { too_big = λ a b c d. []; no_space = λ a. []; timed_out = λ a b c d. [] }

abbrev config : Config
config = config_of queue_default queue_default clients_default

abbrev newcomer : Client ℕ
newcomer = record {
  client_id = 0;
  call_id = 0;
  is_active = false;
  subs = [];
  listeners = [];
  ev_client_id = none;
  server_available = false;
}

abbrev served : Spaces
served = record (new_spaces config) { calls = Calls.set_available true (new_spaces config).calls }

connected_reached : Reach config sizes texts ℕ (connect newcomer served).1
connected_reached = next (next start (announces_calls true)) (connects newcomer)

Reach-AreValid_example : AreValid config (connect newcomer served).1
Reach-AreValid_example =
    Reach-AreValid queue_default queue_default clients_default sizes texts connected_reached
