-- ===== src/Feed.antt =====
-- EventSpace.h, IServerIPCBase.h and ClientIPC.cpp: the server that announces events and all clients
-- that register, take events and leave, over one event space, in any order.
pub mod Order
pub mod Rounds
mod Tests
use psi_shared.Base.{
  ℕ, ◌+◌, ◌-◌, ◌≡◌, List, [], ◌∷◌, ◌++◌, none, some, Bool, ◌&&◌, leb, ltb, ◌==◌, if◌then◌else◌,
  length,
}
use psi_shared.EventQueue.{Message}
use psi_shared.EventRing.{Ring, BufferView, view_data}
use psi_shared.EventSpace.{
  EventSpace, max_queue_size, max_data_length, empty_space, client, is_registered, set_available,
  register_client, unregister_client, push, pop,
}
use psi_shared.EventSpace.Deliver.{event, Fits}

-- The space and, for each client since it registered, the events that were kept for it and those
-- that it got.
pub record System : Type 0 where
  pub space : EventSpace
  pub kept : ℕ → List Message
  pub got : ℕ → List Message

abbrev pub at : {A : Type 0} → ℕ → A → (ℕ → A) → ℕ → A
at i x f j = if j == i then x else f j

-- What a client reads through the view that it was given.
abbrev pub told : BufferView → Ring → Message
told v ring = (v.event_id, view_data v ring)

-- An event is kept for a client if it is short enough and there are fewer than 1023 that the client
-- did not get yet.
unfoldable pub add_to : List Message → List Message → Message → List Message
add_to kept got m =
    if leb (length m.1) max_data_length && ltb (length kept) (length got + (max_queue_size - 1))
    then kept ++ m ∷ []
    else kept

unfoldable pub noted : Message → System → ℕ → List Message
noted m s j =
    if s.space.is_available && is_registered j s.space
    then add_to (s.kept j) (s.got j) m
    else s.kept j

module _ (max_clients : ℕ) where
  -- What the server or a client does while it holds the lock of the space.
  pub data Step (s : System) : System → Type 0 where
    announce :
        (event_id : ℕ) (bytes : List ℕ) (sz : ℕ)
        → Fits event_id bytes sz
        → Step s (record s {
          space = (push max_clients event_id bytes sz s.space).0;
          kept = noted (event event_id bytes sz) s;
        })
    get :
        (i : ℕ) (v : BufferView)
        → (pop max_clients i s.space).1 ≡ some v
        → Step s (record s {
          space = (pop max_clients i s.space).0;
          got = at i (s.got i ++ told v (client i (pop max_clients i s.space).0) ∷ []) s.got;
        })
    find_nothing :
        (i : ℕ)
        → (pop max_clients i s.space).1 ≡ none
        → Step s (record s { space = (pop max_clients i s.space).0 })
    join :
        (i : ℕ)
        → (register_client max_clients s.space).1 ≡ some i
        → Step s (record {
          space = (register_client max_clients s.space).0;
          kept = at i [] s.kept;
          got = at i [] s.got;
        })
    find_no_place :
        (register_client max_clients s.space).1 ≡ none
        → Step s (record s { space = (register_client max_clients s.space).0 })
    leave : (i : ℕ) → Step s (record s { space = unregister_client max_clients i s.space })
    come_and_go : (value : Bool) → Step s (record s { space = set_available value s.space })

  pub data Reach : System → Type 0 where
    start : Reach (record { space = empty_space max_clients; kept = λ j. []; got = λ j. [] })
    next : {s t : System} → Reach s → Step s t → Reach t
