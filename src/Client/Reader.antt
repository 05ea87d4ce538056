-- ===== src/Client/Reader.antt =====
-- psi/src/psi/shared/ipc/client/ClientIPC.cpp: one round of each of the client's two loops, the one
-- that waits for answers and the one that waits for events.
use psi_shared.Base.{
  ℕ, zero, suc, ◌+◌, List, [], ◌∷◌, ◌++◌, Option, none, some, Bool, ◌||◌, not, ltb, ◌==◌,
  if◌then◌else◌, replicate, write_at,
}
use psi_shared.Protocol.{Ty, Args, Sizes}
use psi_shared.Protocol.Serializer.{Memory}
use psi_shared.Protocol.Deserializer.{deserialize_tuples}
use psi_shared.Callback
use psi_shared.Callback.{Answer, error_none, timeout_error, default_args}
use psi_shared.CallbackSpace.{
  CallbackSpace, is_callback_available, pop_callback, clear_callback, view_data,
}
use psi_shared.EventRing
use psi_shared.EventSpace as Events
use psi_shared.EventSpace.{EventSpace}
use psi_shared.Client.{Config, Texts, Reply, replies, Sub, Listener, Client}

-- What a look at one entry of `m_cbDataSubs` finds: it stays, or it is erased and its function will
-- be called without data, for a timeout, or with a copy of the answer.
pub data Look : Type 0 where
  stays : Look
  expired : Look
  arrived : List ℕ → Look

-- The entry's place in the result of a round: it stays, or it is erased and its function called.
abbrev pub gather :
    {A F : Type 0}
    → Sub F
    → Look
    → A × List (Sub F) × List (Sub F × Option Memory)
    → A × List (Sub F) × List (Sub F × Option Memory)
gather sub stays (a, kept, callbacks) = (a, sub ∷ kept, callbacks)
gather sub expired (a, kept, callbacks) = (a, kept, (sub, none) ∷ callbacks)
gather sub (arrived cb_data) (a, kept, callbacks) = (a, kept, (sub, some cb_data) ∷ callbacks)

module _ (k : Config) {F : Type 0} where
  unfoldable pub look : ℕ → Bool → Sub F → CallbackSpace → CallbackSpace × Look
  look now is_active sub s =
      let (s', cb_view) = pop_callback k.callback_queue sub.cb_index s in
      if ltb sub.deadline now || not is_active
      then (s, expired)
      else (if is_callback_available k.callback_queue sub.cb_index s
          then elim cb_view [ none ↦ (s', stays) | some v ↦ (s', arrived (view_data v s')) ]
          else (s, stays))

  -- The loop over the entries, from the `i`-th on. `now i` is the clock and `is_active i` the flag
  -- when the `i`-th is looked at. The entries that stay, and the calls to make.
  unfoldable pub collect :
      (ℕ → ℕ)
      → (ℕ → Bool)
      → ℕ
      → List (Sub F)
      → CallbackSpace
      → CallbackSpace × List (Sub F) × List (Sub F × Option Memory)
  collect now is_active i [] s = (s, [], [])
  collect now is_active i (sub ∷ subs) s =
      let (s', found) = look (now i) (is_active i) sub s in
      gather sub found (collect now is_active (i + 1) subs s')

module _ (k : Config) (z : Sizes) (texts : Texts) {F : Type 0} where
  -- The function that `pushCb` makes, called without data or with an answer. `client_id` is the
  -- client's id at that time.
  unfoldable pub on_answer :
      ℕ → Sub F → Option Memory → CallbackSpace → CallbackSpace × List (Reply F)
  on_answer client_id sub none s =
      let cb = sub.callback in
      (
        clear_callback k.callback_queue sub.cb_index s,
        replies cb.fn cb.types (
            Callback.fail cb.types cb.is_set timeout_error
              (texts.timed_out sub.timeout sub.method_id client_id sub.call_id)),
      )
  on_answer client_id sub (some cb_data) s =
      let cb = sub.callback in
      let a : Answer cb.types =
        Callback.deserialize z cb.types cb_data
          (record { error_code = 0; error_msg = []; args = default_args cb.types }) in
      (
        s,
        replies cb.fn cb.types (
            if not (a.error_code == error_none)
            then Callback.fail cb.types cb.is_set a.error_code a.error_msg
            else Callback.success cb.types cb.is_set a.args),
      )

-- The array `local`, with a copy of the event's data at its start.
abbrev pub local_copy : List ℕ → Memory
local_copy event_data = write_at (replicate Events.max_data_length 0) 0 event_data

-- A call of a listener's function with values.
pub data Notified (F : Type 0) : Type 0 where
  notified : F → (ts : List Ty) → Args ts → Notified F

module _ {F : Type 0} where
  -- The function that `subscribeToEventUpdates` makes of a listener's function.
  abbrev pub on_event : Sizes → Memory → Listener F → Notified F
  on_event z m l = notified l.fn l.types (deserialize_tuples z l.types m 0).0

  -- `lsn->event_id == event_id`
  abbrev pub targets : ℕ → List (Listener F) → List (Listener F)
  targets event_id [] = []
  targets event_id (l ∷ ls) =
      if l.event_id == event_id then l ∷ targets event_id ls else targets event_id ls

  -- The loop over the targets of one event.
  abbrev pub notify_all : Sizes → Memory → List (Listener F) → List (Notified F)
  notify_all z m [] = []
  notify_all z m (l ∷ ls) = on_event z m l ∷ notify_all z m ls

  -- The loop that pops events until there is none, with fuel, and what its tasks then call, in their
  -- order; `none` means that the fuel ran out. A task without targets, which the code leaves out,
  -- calls nothing.
  unfoldable pub drain :
      ℕ → Sizes → ℕ → ℕ → List (Listener F) → EventSpace → Option (EventSpace × List (Notified F))
  drain zero z max_clients id listeners s = none
  drain (suc fuel) z max_clients id listeners s =
      let (s', event_view) = Events.pop max_clients id s in
      let later = drain fuel z max_clients id listeners s' in
      elim event_view [
        | none ↦ some (s', [])
        | some v ↦ elim later [
          | none ↦ none
          | some (s'', tasks) ↦ some (
            s'',
            notify_all z (local_copy (EventRing.view_data v (Events.client id s')))
                  (targets v.event_id listeners)
                ++ tasks,
          )
        ]
      ]

  -- A round of the loop of `readEvData`. A ring never holds `max_queue_size` events.
  unfoldable pub read_ev_data :
      Sizes → Config → Client F → EventSpace → Option (EventSpace × List (Notified F))
  read_ev_data z k c s = if not c.is_active then some (s, []) else elim c.ev_client_id [
    | none ↦ some (s, [])
    | some id ↦ drain Events.max_queue_size z k.max_clients id c.listeners s
  ]
