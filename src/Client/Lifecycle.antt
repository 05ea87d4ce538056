-- ===== src/Client/Lifecycle.antt =====
-- IClientIPC.hpp and ClientIPC.cpp: a client from its constructor to its destructor.
use psi_shared.Base.{
  ℕ, ◌<◌, ◌≡◌, ◌⊎◌, inl, inr, ap, ◌∙◌, arith, [], none, some, Bool, true, false, ◌&&◌, ◌==◌,
  if◌then◌else◌,
}
use psi_shared.CallSpace as Calls
use psi_shared.CallbackSpace as Callbacks
use psi_shared.EventSpace as Events
use psi_shared.EventSpace.{EventSpace, is_registered}
use psi_shared.EventSpace.Valid.{IsValid, queue_of}
use psi_shared.EventSpace.Register.{register_client_lem}
use psi_shared.Client.{Config, Spaces, Client, disconnect, update_connection_status}
use psi_shared.Client.Session.{update_connection_status_lem}

module _ (k : Config) {F : Type 0} where
  -- The client that the constructor leaves, over the spaces that it found or created.
  unfoldable pub new_client : Spaces → Client F × Spaces
  new_client s =
      let (events, registered) = Events.register_client k.max_clients s.events in
      let c : Client F = record {
        client_id = 0;
        call_id = 0;
        is_active = false;
        subs = [];
        listeners = [];
        ev_client_id = registered;
        server_available = false;
      } in
      let s' = record s { events = events } in ((update_connection_status c s').0, s')

-- The destructor: the thread that tracks the connection tells the observers in the end that the server
-- is not available. The client stays registered in the event space.
unfoldable pub destroy_client : {F : Type 0} → Client F → Client F
destroy_client c = record (disconnect c) { server_available = false }

abbrev pub available : Spaces → Bool
available s =
    Calls.is_available s.calls
    && (Callbacks.is_available s.callbacks && Events.is_available s.events)

module _ (k : Config) {F : Type 0} where
  -- A new client has a place in the event space that was free, with an empty queue, or all places are
  -- taken and it has none; the queues of the others stay. It knows whether the server is there, has
  -- no call in flight, and is not connected.
  pub new_client_lem :
      (s : Spaces)
      → IsValid k.max_clients s.events
      → let (c, s') = new_client k {F = F} s in
        (((c.ev_client_id ≡ none)
            × (s'.events ≡ s.events)
            × ((j : ℕ) → j < k.max_clients → is_registered j s.events ≡ true))
          ⊎ ((id : ℕ) × (c.ev_client_id ≡ some id)
              × (queue_of id s.events ≡ none)
              × ((j : ℕ)
                  → queue_of j s'.events ≡ (if j == id then some [] else queue_of j s.events))))
        × (c.server_available ≡ available s')
        × (c.is_active ≡ false)
        × (c.subs ≡ [])
  unfolding new_client
  new_client_lem s v =
      let fresh : Client F = record {
        client_id = 0;
        call_id = 0;
        is_active = false;
        subs = [];
        listeners = [];
        ev_client_id = (Events.register_client k.max_clients s.events).1;
        server_available = false;
      } in
      let s' : Spaces = record s { events = (Events.register_client k.max_clients s.events).0 } in
      let same = (update_connection_status_lem fresh s').0 in
      (
        elim (register_client_lem v) [
          | inl (out, kept, all) ↦
              inl (ap (λ c. c.ev_client_id) same ∙ out, kept, λ j hj. all j (omega arith) hj)
          | inr (id, out, lo, hi, empty, before, queues) ↦
              inr (id, ap (λ c. c.ev_client_id) same ∙ out, empty, queues)
        ],
        ap (λ c. c.server_available) same,
        ap (λ c. c.is_active) same,
        ap (λ c. c.subs) same,
      )
