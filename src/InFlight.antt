-- ===== src/InFlight.antt =====
-- IClientIPC.hpp, ClientIPC.cpp, ServerIPCBase.cpp and CallbackSpace.h: the calls of all clients that
-- wait for answers, and the server that answers them, over one callback space, in any order.
pub mod Count
pub mod Ended
pub mod Owners
pub mod Progress
pub mod Rounds
pub mod Runs
mod Tests
use psi_shared.Base.{ℕ, List, [], ◌∷◌, ◌++◌, Option, none, some, Bool, ◌≡◌, ◌<◌, ◌≤◌, ◌^◌, length}
use psi_shared.Protocol.{Sizes}
use psi_shared.CallbackSpace.{CallbackSpace, empty_space, push_callback}
use psi_shared.Server.{on_callback}
use psi_shared.Client.{Config, Texts, Sub}
use psi_shared.Client.Reader.{Look, look, on_answer}

-- How far a call is: its slot is reserved, and `pushCb` has not added it to `m_cbDataSubs` yet; it is
-- in `m_cbDataSubs`; it was erased for a timeout or a disconnect, and its function has not been run;
-- its client has ended, and nothing is left of it but the slot.
pub data Entry (F : Type 0) : Type 0 where
  reserved : ℕ → Entry F
  listed : Sub F → Entry F
  overdue : Sub F → Entry F
  left : ℕ → Entry F

abbrev pub slot_index : {F : Type 0} → Entry F → ℕ
slot_index (Entry.reserved i) = i
slot_index (Entry.listed sub) = sub.cb_index
slot_index (Entry.overdue sub) = sub.cb_index
slot_index (Entry.left i) = i

-- What is left of an entry after a look at it.
abbrev pub after_look : {F : Type 0} → Sub F → Look → List (Entry F)
after_look sub Look.stays = Entry.listed sub ∷ []
after_look sub Look.expired = Entry.overdue sub ∷ []
after_look sub (Look.arrived cb_data) = []

-- The space and the entries of all clients. Their order has no meaning here.
pub record System (F : Type 0) : Type 0 where
  pub space : CallbackSpace
  pub entries : List (Entry F)

module _ (k : Config) (z : Sizes) (texts : Texts) {F : Type 0} where
  -- One thing that a client or the server does while it holds the lock of the space, or the lock of
  -- the client's entries.
  pub data Step (s : System F) : System F → Type 0 where
    -- `pushCb` finds a slot, or none.
    reserve :
        (i : ℕ)
        → (push_callback k.callback_queue s.space).1 ≡ some i
        → Step s (record {
          space = (push_callback k.callback_queue s.space).0;
          entries = s.entries ++ Entry.reserved i ∷ [];
        })
    refuse :
        (push_callback k.callback_queue s.space).1 ≡ none
        → Step s (record s { space = (push_callback k.callback_queue s.space).0 })
    -- `pushCb` adds its entry.
    enlist :
        (front back : List (Entry F)) (sub : Sub F)
        → s.entries ≡ front ++ Entry.reserved sub.cb_index ∷ back
        → Step s (record s { entries = front ++ Entry.listed sub ∷ back })
    -- The loop of `readCbData` looks at an entry, at any time, while the client is active or not.
    look_at :
        (front back : List (Entry F)) (sub : Sub F) (now : ℕ) (is_active : Bool)
        → s.entries ≡ front ++ Entry.listed sub ∷ back
        → Step s (record {
          space = (look k now is_active sub s.space).0;
          entries = front ++ after_look sub (look k now is_active sub s.space).1 ++ back;
        })
    -- The function of an entry that was erased without an answer is run.
    time_out :
        (front back : List (Entry F)) (sub : Sub F) (client_id : ℕ)
        → s.entries ≡ front ++ Entry.overdue sub ∷ back
        → Step s (record {
          space = (on_answer k z texts client_id sub none s.space).0;
          entries = front ++ back;
        })
    -- The client of an entry ends, by its destructor or with its process; nobody clears the slot.
    quit :
        (front back : List (Entry F)) (e : Entry F)
        → s.entries ≡ front ++ e ∷ back
        → Step s (record s { entries = front ++ Entry.left (slot_index e) ∷ back })
    -- The server answers under any index, with any bytes.
    answer :
        (index : Option ℕ) (cb_data : List ℕ) (cb_len : ℕ)
        → cb_len < 2 ^ 16
        → cb_len ≤ length cb_data
        → Step s (record s {
          space = on_callback k.callback_queue k.callback_sz index cb_data cb_len s.space;
        })

  -- The states that come of a new space.
  pub data Reach : System F → Type 0 where
    start : Reach (record { space = empty_space k.callback_queue k.callback_sz; entries = [] })
    next : {s t : System F} → Reach s → Step s t → Reach t
