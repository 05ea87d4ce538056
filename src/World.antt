-- ===== src/World.antt =====
-- All of the program over the three spaces: the server, and clients of any number and state, whose
-- operations, and the parts of these that are done under one lock, follow each other in any order.
pub mod Invariant
mod Tests
use psi_shared.Base.{ℕ, ◌≡◌, List, Option, none, some, Bool}
use psi_shared.Protocol.{Ty, Args, Sizes}
use psi_shared.CallSpace as Calls
use psi_shared.CallSpace.{CallSpace}
use psi_shared.CallbackSpace as Callbacks
use psi_shared.CallbackSpace.{push_callback}
use psi_shared.EventSpace as Events
use psi_shared.EventSpace.{EventSpace}
use psi_shared.Server.{read_memory, on_callback, notify_event}
use psi_shared.Client.{
  Config, Texts, Spaces, UserCallback, Sub, Client, connect, subscribe_to_event_updates,
  unsubscribe_from_event_updates,
}
use psi_shared.Client.Sender.{call_server}
use psi_shared.Client.Reader.{Notified, look, collect, on_answer, read_ev_data}
use psi_shared.SharedMemory.Managers.{new_spaces}

module _ (k : Config) (z : Sizes) (texts : Texts) (F : Type 0) where
  pub data Step (s : Spaces) : Spaces → Type 0 where
    -- What the clients do, each in the state that it has.
    connects : (c : Client F) → Step s (connect c s).1
    calls :
        (ts : List Ty) (args : Args ts) (cb : Option (UserCallback F)) (method_id timeout now : ℕ)
        (c : Client F)
        → Step s (call_server k z texts ts args cb method_id timeout now c s).1
    collects :
        (now : ℕ → ℕ) (is_active : ℕ → Bool) (subs : List (Sub F))
        → Step s (record s { callbacks = (collect k now is_active 0 subs s.callbacks).0 })
    times_out :
        (client_id : ℕ) (sub : Sub F)
        → Step s (record s { callbacks = (on_answer k z texts client_id sub none s.callbacks).0 })
    subscribes :
        (event_id : ℕ) (ts : List Ty) (fn : F) (c : Client F)
        → Step s (subscribe_to_event_updates k event_id ts fn c s).1
    unsubscribes : (id : ℕ) → Step s (unsubscribe_from_event_updates k id s)
    reads :
        (c : Client F) (events : EventSpace) (told : List (Notified F))
        → read_ev_data z k c s.events ≡ some (events, told)
        → Step s (record s { events = events })
    -- What the clients do under one lock, where others may come in before the rest of the operation.
    reserves : Step s (record s { callbacks = (push_callback k.callback_queue s.callbacks).0 })
    sends :
        (call : Option (List ℕ)) (sz : ℕ)
        → Step s (record s { calls = (Calls.push k.call_queue k.call_sz call sz s.calls).0 })
    looks :
        (now : ℕ) (is_active : Bool) (sub : Sub F)
        → Step s (record s { callbacks = (look k now is_active sub s.callbacks).0 })
    takes : (id : ℕ) → Step s (record s { events = (Events.pop k.max_clients id s.events).0 })
    -- What the server does.
    announces_calls :
        (value : Bool) → Step s (record s { calls = Calls.set_available value s.calls })
    announces_callbacks :
        (value : Bool) → Step s (record s { callbacks = Callbacks.set_available value s.callbacks })
    announces_events :
        (value : Bool) → Step s (record s { events = Events.set_available value s.events })
    serves : (seen : CallSpace) → Step s (record s { calls = (read_memory seen s.calls).0 })
    answers :
        (index : Option ℕ) (cb_data : List ℕ) (cb_len : ℕ)
        → Step s (record s {
          callbacks = on_callback k.callback_queue k.callback_sz index cb_data cb_len s.callbacks;
        })
    notifies :
        (event_id : ℕ) (ts : List Ty) (args : Args ts)
        → Step s (record s { events = (notify_event k.max_clients event_id ts args s.events).0 })

  pub data Reach : Spaces → Type 0 where
    start : Reach (new_spaces k)
    next : {s t : Spaces} → Reach s → Step s t → Reach t
