-- ===== src/Client/Valid.antt =====
-- IClientIPC.hpp and ClientIPC.cpp: the invariant of the three spaces.
use psi_shared.Base.{ℕ, inl, inr, List, [], ◌∷◌, Option, none, some, Bool-cases, Option-cases}
use psi_shared.Protocol.{Ty, Args, Sizes}
use psi_shared.CallSpace.Refine as Log
use psi_shared.CallbackSpace.{push_callback}
use psi_shared.CallbackSpace.Refine as Answers
use psi_shared.CallbackSpace.Valid.{push_callback-IsValid}
use psi_shared.EventSpace.Valid as Events
use psi_shared.EventSpace.Valid.{register_client-IsValid, unregister_client-IsValid}
use psi_shared.Client.{Config, Texts, Spaces, UserCallback, Client}
use psi_shared.Client.Sender.{
  push_call_with_no_args, push_call_with_args, push_cb, finish_call, validate_call, call_server,
}

pub record AreValid (k : Config) (s : Spaces) : Type 0 where
  pub calls_valid : Log.IsValid k.call_queue k.call_sz s.calls
  pub callbacks_valid : Answers.IsValid k.callback_queue k.callback_sz s.callbacks
  pub events_valid : Events.IsValid k.max_clients s.events

module _ (k : Config) (l : Log.Layout k.call_queue k.call_sz) {F : Type 0} where
  push_call_with_no_args-AreValid :
      (method_id call_id cb_index : ℕ) (c : Client F) {s : Spaces}
      → AreValid k s
      → AreValid k (push_call_with_no_args k method_id call_id cb_index c s)
  unfolding push_call_with_no_args
  push_call_with_no_args-AreValid method_id call_id cb_index c v = record {
    calls_valid = Log.push-IsValid l _ _ v.calls_valid;
    callbacks_valid = v.callbacks_valid;
    events_valid = v.events_valid;
  }

  push_call_with_args-AreValid :
      (ts : List Ty) (args : Args ts) (method_id call_id cb_index : ℕ) (c : Client F) {s : Spaces}
      → AreValid k s
      → AreValid k (push_call_with_args k ts args method_id call_id cb_index c s)
  unfolding push_call_with_args
  push_call_with_args-AreValid ts args method_id call_id cb_index c v = record {
    calls_valid = Log.push-IsValid l _ _ v.calls_valid;
    callbacks_valid = v.callbacks_valid;
    events_valid = v.events_valid;
  }

  push_cb-AreValid :
      (method_id call_id : ℕ) (cb : UserCallback F) (timeout now : ℕ) (c : Client F) {s : Spaces}
      → AreValid k s
      → AreValid k (push_cb k method_id call_id cb timeout now c s).1
  unfolding push_cb
  push_cb-AreValid method_id call_id cb timeout now c {s} v =
      elim (Option-cases (push_callback k.callback_queue s.callbacks).1) [
        | inl e ↦ rw (push_cb, e) reserved
        | inr (i, e) ↦ rw (push_cb, e) reserved
      ]
    where
      reserved :
          AreValid k (record s { callbacks = (push_callback k.callback_queue s.callbacks).0 })
      reserved = record {
        calls_valid = v.calls_valid;
        callbacks_valid = push_callback-IsValid v.callbacks_valid;
        events_valid = v.events_valid;
      }

  module _ (z : Sizes) (texts : Texts) where
    finish_call-AreValid :
        (ts : List Ty) (args : Args ts) (method_id : ℕ) (cb : UserCallback F) (c : Client F)
        (index : Option ℕ) {s : Spaces}
        → AreValid k s
        → AreValid k (finish_call k z texts ts args method_id cb (c, s, index)).1
    unfolding finish_call
    finish_call-AreValid [] args method_id cb c none v = v
    finish_call-AreValid (t ∷ ts) args method_id cb c none v = v
    finish_call-AreValid [] args method_id cb c (some i) v =
        push_call_with_no_args-AreValid method_id c.call_id i c v
    finish_call-AreValid (t ∷ ts) args method_id cb c (some i) v =
        push_call_with_args-AreValid (t ∷ ts) args method_id c.call_id i c v

    -- Whatever its arguments, and in each of its cases, `callServer` keeps the invariants of the three
    -- spaces, so also a call that is refused or finds no room.
    pub call_server-AreValid :
        (ts : List Ty) (args : Args ts) (cb : Option (UserCallback F)) (method_id timeout now : ℕ)
        (c : Client F) {s : Spaces}
        → AreValid k s
        → AreValid k (call_server k z texts ts args cb method_id timeout now c s).1
    unfolding call_server
    call_server-AreValid [] args none method_id timeout now c v =
        push_call_with_no_args-AreValid method_id _ 0 _ v
    call_server-AreValid (t ∷ ts) args none method_id timeout now c v =
        elim (Bool-cases (validate_call k z (t ∷ ts) args).0) [
          | inl e ↦ rw e (push_call_with_args-AreValid (t ∷ ts) args method_id _ 0 _ v)
          | inr e ↦ rw e v
        ]
    call_server-AreValid [] args (some cb) method_id timeout now c v =
        finish_call-AreValid [] args method_id cb _ _
          (push_cb-AreValid method_id _ cb timeout now _ v)
    call_server-AreValid (t ∷ ts) args (some cb) method_id timeout now c v =
        elim (Bool-cases (validate_call k z (t ∷ ts) args).0) [
          | inl e ↦ rw e (
              finish_call-AreValid (t ∷ ts) args method_id cb _ _
                (push_cb-AreValid method_id _ cb timeout now _ v))
          | inr e ↦ rw e v
        ]
