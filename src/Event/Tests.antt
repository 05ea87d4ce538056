-- ===== src/Event/Tests.antt =====
-- IEventClientIPC.h: two clients of an event space for two.
use psi_shared.Base.{ℕ, [], ◌∷◌, none, some, false, true}
use psi_shared.Protocol.{trivial}
use psi_shared.CallSpace as Calls
use psi_shared.CallbackSpace as Callbacks
use psi_shared.EventSpace as Events
use psi_shared.Client.{Config, Spaces, Client}
use psi_shared.Event.{IpcEvent, EventListener}

abbrev config : Config
config = record {
  call_queue = 4;
  call_sz = 64;
  callback_queue = 2;
  callback_sz = 16;
  max_clients = 2;
}

abbrev one_client : Events.EventSpace
one_client = (Events.register_client 2 (Events.empty_space 2)).0

abbrev spaces : Spaces
spaces = record {
  calls = Calls.empty_space 4 64;
  callbacks = Callbacks.empty_space 2 16;
  events = one_client;
}

abbrev newcomer : Client ℕ
newcomer = record {
  client_id = 2;
  call_id = 0;
  is_active = true;
  subs = [];
  listeners = [];
  ev_client_id = none;
  server_available = false;
}

abbrev registered : Client ℕ
registered = record newcomer { ev_client_id = some 0 }

abbrev event : IpcEvent
event = record { event_id = 5; types = trivial 2 ∷ [] }

abbrev listener : EventListener
listener = record { identifier = 1; subscription_id = 0 }
