-- ===== src/World/Invariant.antt =====
-- IClientIPC.hpp, ClientIPC.cpp, ServerIPCBase.cpp and the three spaces: what holds in every state that
-- the program can reach.
use psi_shared.Base.{
  ℕ, zero, suc, ◌+◌, ◌≡◌, subst, inl, inr, List, [], ◌∷◌, Option, none, some, Bool, Bool-cases,
  Option-cases,
}
use psi_shared.Protocol.{Ty, Sizes}
use psi_shared.CallSpace as Calls
use psi_shared.CallSpace.Refine as Log
use psi_shared.CallbackSpace as Callbacks
use psi_shared.CallbackSpace.{CallbackSpace}
use psi_shared.CallbackSpace.Refine as Answers
use psi_shared.CallbackSpace.Valid.{clear_callback-IsValid, push_callback-IsValid}
use psi_shared.EventSpace as Events
use psi_shared.EventSpace.{EventSpace}
use psi_shared.EventSpace.Valid as Rings
use psi_shared.EventSpace.Valid.{
  pop-IsValid, push-IsValid, register_client-IsValid, unregister_client-IsValid,
}
use psi_shared.Server.{notify_event}
use psi_shared.Client.{
  Config, Texts, Spaces, Sub, Listener, Client, connect, subscribe_to_event_updates,
  unsubscribe_from_event_updates,
}
use psi_shared.Client.Reader.{look, Notified, collect, on_answer, drain, read_ev_data}
use psi_shared.Client.Answers.{look-IsValid}
use psi_shared.Client.Valid.{AreValid, call_server-AreValid}
use psi_shared.SharedMemory.Managers.{QueueKind, ClientsKind, config_of, Fits, config_of-Fits}
use psi_shared.InFlight.Owners.{on_callback-IsValid}
use psi_shared.InFlight.Runs.{gather-space}
use psi_shared.Traffic.Order.{generate_client_id-IsValid, read_memory-IsValid}
use psi_shared.World.{
  Step, connects, calls, collects, times_out, subscribes, unsubscribes, reads, announces_calls,
  reserves, sends, looks, takes, announces_callbacks, announces_events, serves, answers, notifies,
  Reach, start, next,
}

-- The three parts, each for itself.
abbrev with_calls :
    {k : Config} {s : Spaces} {c : Calls.CallSpace}
    → AreValid k s
    → Log.IsValid k.call_queue k.call_sz c
    → AreValid k (record s { calls = c })
with_calls v c = record {
  calls_valid = c;
  callbacks_valid = v.callbacks_valid;
  events_valid = v.events_valid;
}

abbrev with_callbacks :
    {k : Config} {s : Spaces} {c : CallbackSpace}
    → AreValid k s
    → Answers.IsValid k.callback_queue k.callback_sz c
    → AreValid k (record s { callbacks = c })
with_callbacks v c = record {
  calls_valid = v.calls_valid;
  callbacks_valid = c;
  events_valid = v.events_valid;
}

abbrev with_events :
    {k : Config} {s : Spaces} {e : EventSpace}
    → AreValid k s
    → Rings.IsValid k.max_clients e
    → AreValid k (record s { events = e })
with_events v e = record {
  calls_valid = v.calls_valid;
  callbacks_valid = v.callbacks_valid;
  events_valid = e;
}

module _ (k : Config) {F : Type 0} where
  collect-IsValid :
      (now : ℕ → ℕ) (is_active : ℕ → Bool) (i : ℕ) (subs : List (Sub F)) {s : CallbackSpace}
      → Answers.IsValid k.callback_queue k.callback_sz s
      → Answers.IsValid k.callback_queue k.callback_sz (collect k now is_active i subs s).0
  unfolding collect
  collect-IsValid now is_active i [] v = v
  collect-IsValid now is_active i (sub ∷ subs) {s} v =
      rw (gather-space sub (look k (now i) (is_active i) sub s).1 _)
        (collect-IsValid now is_active (i + 1) subs (look-IsValid k (now i) (is_active i) sub v))

  -- What a round of events leaves, if it comes to its end.
  abbrev AllValid : Option (EventSpace × List (Notified F)) → Type 0
  AllValid none = Unit {0}
  AllValid (some (s, told)) = Rings.IsValid k.max_clients s

  drain-AllValid :
      (z : Sizes) (id fuel : ℕ) (listeners : List (Listener F)) {s : EventSpace}
      → Rings.IsValid k.max_clients s
      → AllValid (drain fuel z k.max_clients id listeners s)
  unfolding drain
  drain-AllValid z id zero listeners v = tt
  drain-AllValid z id (suc fuel) listeners {s} v =
      let popped = pop-IsValid id v in
      elim (Option-cases (Events.pop k.max_clients id s).1) [
        | inl e ↦ rw (drain, e) popped
        | inr (view, e) ↦
            let rest = drain fuel z k.max_clients id listeners (Events.pop k.max_clients id s).0 in
            elim (Option-cases rest) [
              | inl e1 ↦ rw (drain, e, e1) tt
              | inr (r, e1) ↦
                  rw (drain, e, e1) (subst AllValid e1 (drain-AllValid z id fuel listeners popped))
            ]
      ]

  read_ev_data-AllValid :
      (z : Sizes) (c : Client F) {s : EventSpace}
      → Rings.IsValid k.max_clients s
      → AllValid (read_ev_data z k c s)
  unfolding read_ev_data
  read_ev_data-AllValid z c {s} v = elim (Bool-cases c.is_active) [
    | inr e ↦ rw (read_ev_data, e) v
    | inl e ↦ elim (Option-cases c.ev_client_id) [
      | inl e1 ↦ rw (read_ev_data, e, e1) v
      | inr (id, e1) ↦
          rw (read_ev_data, e, e1) (drain-AllValid z id Events.max_queue_size c.listeners v)
    ]
  ]

  read_ev_data-IsValid :
      (z : Sizes) (c : Client F) {s : EventSpace} {s' : EventSpace} {told : List (Notified F)}
      → Rings.IsValid k.max_clients s
      → read_ev_data z k c s ≡ some (s', told)
      → Rings.IsValid k.max_clients s'
  read_ev_data-IsValid z c v e = subst AllValid e (read_ev_data-AllValid z c v)

module _ (k : Config) (z : Sizes) (texts : Texts) {F : Type 0} (fits : Fits k) where
  connect-AreValid : (c : Client F) {s : Spaces} → AreValid k s → AreValid k (connect c s).1
  unfolding connect
  connect-AreValid c {s} v =
      let w = with_calls v (generate_client_id-IsValid v.calls_valid) in
      elim (Bool-cases c.is_active) [
        | inl e ↦ rw (connect, e) v
        | inr e ↦ elim (Option-cases (Calls.generate_client_id s.calls).1) [
          | inl e1 ↦ rw (connect, e, e1) w
          | inr (id, e1) ↦ rw (connect, e, e1) w
        ]
      ]

  subscribe-AreValid :
      (event_id : ℕ) (ts : List Ty) (fn : F) (c : Client F) {s : Spaces}
      → AreValid k s
      → AreValid k (subscribe_to_event_updates k event_id ts fn c s).1
  unfolding subscribe_to_event_updates
  subscribe-AreValid event_id ts fn c {s} v =
      let w = with_events v (register_client-IsValid v.events_valid) in
      elim (Option-cases c.ev_client_id) [
        | inr (id, e) ↦ rw (subscribe_to_event_updates, e) v
        | inl e ↦ elim (Option-cases (Events.register_client k.max_clients s.events).1) [
          | inl e1 ↦ rw (subscribe_to_event_updates, e, e1) w
          | inr (id, e1) ↦ rw (subscribe_to_event_updates, e, e1) w
        ]
      ]

  Step-AreValid : {s t : Spaces} → Step k z texts F s t → AreValid k s → AreValid k t
  unfolding on_answer notify_event unsubscribe_from_event_updates Calls.set_available
      Callbacks.set_available Events.set_available
  Step-AreValid (connects c) v = connect-AreValid c v
  Step-AreValid (calls ts args cb method_id timeout now c) v =
      call_server-AreValid k fits.calls_fit z texts ts args cb method_id timeout now c v
  Step-AreValid (collects now is_active subs) v =
      with_callbacks v (collect-IsValid k now is_active 0 subs v.callbacks_valid)
  Step-AreValid (times_out client_id sub) v =
      with_callbacks v (clear_callback-IsValid sub.cb_index v.callbacks_valid)
  Step-AreValid (subscribes event_id ts fn c) v = subscribe-AreValid event_id ts fn c v
  Step-AreValid (unsubscribes id) v = with_events v (unregister_client-IsValid id v.events_valid)
  Step-AreValid (reads c events told e) v =
      with_events v (read_ev_data-IsValid k z c v.events_valid e)
  Step-AreValid reserves v = with_callbacks v (push_callback-IsValid v.callbacks_valid)
  Step-AreValid (sends call sz) v =
      with_calls v (Log.push-IsValid fits.calls_fit call sz v.calls_valid)
  Step-AreValid (looks now is_active sub) v =
      with_callbacks v (look-IsValid k now is_active sub v.callbacks_valid)
  Step-AreValid (takes id) v = with_events v (pop-IsValid id v.events_valid)
  Step-AreValid (announces_calls value) v =
      with_calls v (record { sized = v.calls_valid.sized; within = v.calls_valid.within })
  Step-AreValid (announces_callbacks value) v =
      with_callbacks v
        (record { queue = v.callbacks_valid.queue; slots_valid = v.callbacks_valid.slots_valid })
  Step-AreValid (announces_events value) v = with_events v (record {
    rings = v.events_valid.rings;
    bits = v.events_valid.bits;
    rings_valid = v.events_valid.rings_valid;
  })
  Step-AreValid (serves seen) v =
      with_calls v (read_memory-IsValid fits.calls_fit seen v.calls_valid)
  Step-AreValid (answers index cb_data cb_len) v =
      with_callbacks v (on_callback-IsValid k index cb_data cb_len v.callbacks_valid)
  Step-AreValid (notifies event_id ts args) v =
      with_events v (push-IsValid event_id _ _ v.events_valid)

-- In every state that the server and its clients can reach from new spaces, whatever they do and in
-- whatever order, also where the steps of others come between the parts of an operation that are
-- done under one lock, the three spaces are valid, for each configuration of spaces that have
-- managers.
pub Reach-AreValid :
    (call_kind callback_kind : QueueKind) (clients_kind : ClientsKind) (z : Sizes) (texts : Texts)
    {F : Type 0} {s : Spaces}
    → Reach (config_of call_kind callback_kind clients_kind) z texts F s
    → AreValid (config_of call_kind callback_kind clients_kind) s
Reach-AreValid call_kind callback_kind clients_kind z texts start =
    (config_of-Fits call_kind callback_kind clients_kind).1
Reach-AreValid call_kind callback_kind clients_kind z texts (next r st) =
    Step-AreValid (config_of call_kind callback_kind clients_kind) z texts
      (config_of-Fits call_kind callback_kind clients_kind).0 st
      (Reach-AreValid call_kind callback_kind clients_kind z texts r)
