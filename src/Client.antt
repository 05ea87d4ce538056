-- ===== src/Client.antt =====
-- psi/include/psi/shared/ipc/client/IClientIPC.hpp and psi/src/psi/shared/ipc/client/ClientIPC.cpp:
-- a client's state, its connection and its subscriptions.
pub mod Sender
pub mod Posting
pub mod Requests
pub mod Reader
pub mod Rounds
pub mod Answers
pub mod Drain
pub mod Exchange
pub mod Valid
pub mod Arrival
pub mod Notice
pub mod Session
pub mod Future
pub mod Lifecycle
pub mod Late
pub mod Oversize
mod Tests
use psi_shared.Base.{
  ℕ, ◌+◌, List, [], ◌∷◌, ◌++◌, Option, none, some, Bool, true, false, ◌&&◌, not, ltb, ◌==◌,
  if◌then◌else◌, replicate, u64,
}
use psi_shared.Protocol.{Ty, Args, Sizes}
use psi_shared.Protocol.Serializer.{Memory, size_of_args}
use psi_shared.Call
use psi_shared.Call.{IpcCall, head_sz}
use psi_shared.Callback
use psi_shared.Callback.{Answer, transport_failure, invalid_payload}
use psi_shared.CallSpace as Calls
use psi_shared.CallSpace.{CallSpace}
use psi_shared.CallbackSpace as Callbacks
use psi_shared.CallbackSpace.{CallbackSpace}
use psi_shared.EventSpace as Events
use psi_shared.EventSpace.{EventSpace}

-- The template arguments of the three spaces in `IPCConfig`.
pub record Config : Type 0 where
  pub call_queue : ℕ
  pub call_sz : ℕ
  pub callback_queue : ℕ
  pub callback_sz : ℕ
  pub max_clients : ℕ

-- The texts that `std::format` makes of the numbers in a message.
pub record Texts : Type 0 where
  pub too_big : ℕ → ℕ → ℕ → ℕ → List ℕ
  pub no_space : ℕ → List ℕ
  pub timed_out : ℕ → ℕ → ℕ → ℕ → List ℕ

-- The three objects in shared memory.
pub record Spaces : Type 0 where
  pub calls : CallSpace
  pub callbacks : CallbackSpace
  pub events : EventSpace

-- An `IPCCallback` for values of these types, around a function of the program.
pub record UserCallback (F : Type 0) : Type 0 where
  pub types : List Ty
  pub is_set : Bool
  pub fn : F

-- A call of such a function.
pub data Reply (F : Type 0) : Type 0 where
  reply : F → (ts : List Ty) → Answer ts → Reply F

abbrev pub replies : {F : Type 0} → F → (ts : List Ty) → List (Answer ts) → List (Reply F)
replies fn ts [] = []
replies fn ts (a ∷ answers) = reply fn ts a ∷ replies fn ts answers

-- `CallbackInfo`, with what its function captures.
pub record Sub (F : Type 0) : Type 0 where
  pub cb_index : ℕ
  pub deadline : ℕ
  pub timeout : ℕ
  pub method_id : ℕ
  pub call_id : ℕ
  pub callback : UserCallback F

-- `EventInfo`, with the parameter types of its function.
pub record Listener (F : Type 0) : Type 0 where
  pub event_id : ℕ
  pub types : List Ty
  pub fn : F

pub record Client (F : Type 0) : Type 0 where
  pub client_id : ℕ
  pub call_id : ℕ
  pub is_active : Bool
  pub subs : List (Sub F)
  pub listeners : List (Listener F)
  pub ev_client_id : Option ℕ
  pub server_available : Bool

module _ {F : Type 0} where
  unfoldable pub connect : Client F → Spaces → Client F × Spaces × Bool
  connect c s =
      let (calls, client_id) = Calls.generate_client_id s.calls in
      if c.is_active then (c, s, true) else elim client_id [
        | none ↦ (c, record s { calls = calls }, false)
        | some id ↦
            (record c { client_id = id; is_active = true }, record s { calls = calls }, true)
      ]

  unfoldable pub disconnect : Client F → Client F
  disconnect c = if not c.is_active then c else record c { is_active = false }

  -- The new state, and the value that the attribute's observers are told, if it is a new one.
  unfoldable pub update_connection_status : Client F → Spaces → Client F × Option Bool
  update_connection_status c s =
      let status =
        Calls.is_available s.calls
        && (Callbacks.is_available s.callbacks && Events.is_available s.events) in
      elim status [
        | true ↦
            if c.server_available
            then (c, none)
            else (record c { server_available = true }, some true)
        | false ↦
            if c.server_available
            then (record c { server_available = false }, some false)
            else (c, none)
      ]

module _ (k : Config) where
  unfoldable pub unsubscribe_from_event_updates : ℕ → Spaces → Spaces
  unsubscribe_from_event_updates id s = record s {
    events = Events.unregister_client k.max_clients id s.events;
  }

module _ (k : Config) {F : Type 0} where
  unfoldable pub subscribe_to_event_updates :
      ℕ → (ts : List Ty) → F → Client F → Spaces → Client F × Spaces × Option ℕ
  subscribe_to_event_updates event_id ts fn c s =
      let listener : Listener F = record { event_id = event_id; types = ts; fn = fn } in
      let (events, registered) = Events.register_client k.max_clients s.events in
      elim c.ev_client_id [
        | some id ↦ (record c { listeners = c.listeners ++ listener ∷ [] }, s, some id)
        | none ↦ elim registered [
          | none ↦ (c, record s { events = events }, none)
          | some id ↦ (
            record c { listeners = c.listeners ++ listener ∷ []; ev_client_id = some id },
            record s { events = events },
            some id,
          )
        ]
      ]
