-- ===== src/Event.antt =====
-- psi/include/psi/shared/ipc/IPCEvent.h, client/IEventClientIPC.h and server/IEventServerIPC.h: an event
-- with an id and types, as the server announces it and as a client subscribes to it.
pub mod Sharing
mod Tests
use psi_shared.Base.{ℕ, List, [], ◌∷◌, Option, none, some, Bool, ◌==◌, if◌then◌else◌}
use psi_shared.Protocol.{Ty, Args}
use psi_shared.EventSpace.{EventSpace}
use psi_shared.Server.{notify_event}
use psi_shared.Client.{
  Config, Spaces, Client, subscribe_to_event_updates, unsubscribe_from_event_updates,
}

-- The template arguments of an event.
pub record IpcEvent : Type 0 where
  pub event_id : ℕ
  pub types : List Ty

-- `IEventServerIPC::notify`
unfoldable pub notify : ℕ → (e : IpcEvent) → Args e.types → EventSpace → EventSpace × Bool
notify max_clients e args s = notify_event max_clients e.event_id e.types args s

-- `EventListener`, with its place in the list of the event's listeners.
pub record EventListener : Type 0 where
  pub identifier : ℕ
  pub subscription_id : ℕ

-- `m_holder.erase(m_identifier)`
unfoldable pub erase : ℕ → List EventListener → List EventListener
erase i [] = []
erase i (l ∷ ls) = if l.identifier == i then ls else l ∷ erase i ls

module _ (k : Config) {F : Type 0} where
  -- `IEventClientIPC::subscribe`; `identifier` is the new place in the list.
  unfoldable pub subscribe :
      (e : IpcEvent)
      → F
      → ℕ
      → Client F
      → Spaces
      → List EventListener
      → (Client F × Spaces × List EventListener) × Option EventListener
  subscribe e fn identifier c s listeners =
      let (c', s', client_id) = subscribe_to_event_updates k e.event_id e.types fn c s in
      elim client_id [
        | none ↦ ((c', s', listeners), none)
        | some id ↦
            let listener : EventListener = record {
              identifier = identifier;
              subscription_id = id;
            } in
            ((c', s', listener ∷ listeners), some listener)
      ]

  -- The destructor of a listener. The client is not told.
  unfoldable pub destroy_listener :
      EventListener
      → Client F
      → Spaces
      → List EventListener
      → Client F × Spaces × List EventListener
  destroy_listener l c s listeners =
      (c, unsubscribe_from_event_updates k l.subscription_id s, erase l.identifier listeners)
