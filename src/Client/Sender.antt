-- ===== src/Client/Sender.antt =====
-- IClientIPC.hpp: `callServer`, which checks the size of a call's arguments, reserves a slot for its
-- answer, and appends it to the call space.
use psi_shared.Base.{
  ℕ, ◌+◌, List, [], ◌∷◌, ◌++◌, Option, none, some, Bool, not, ltb, if◌then◌else◌, replicate, u64,
}
use psi_shared.Protocol.{Ty, Args, Sizes}
use psi_shared.Protocol.Serializer.{size_of_args}
use psi_shared.Call
use psi_shared.Call.{IpcCall, head_sz}
use psi_shared.Callback
use psi_shared.Callback.{Answer, transport_failure, invalid_payload}
use psi_shared.CallSpace as Calls
use psi_shared.CallSpace.{CallSpace}
use psi_shared.CallbackSpace as Callbacks
use psi_shared.CallbackSpace.{CallbackSpace}
use psi_shared.Client.{Config, Texts, Spaces, UserCallback, Reply, replies, Client}

module _ (k : Config) where
  -- `args_sz > MAX_CALL_SZ - HEAD_SZ`, as a comparison of ints; and the size.
  unfoldable pub validate_call : Sizes → (ts : List Ty) → Args ts → Bool × ℕ
  validate_call z ts args =
      let args_sz = size_of_args z ts args 0 in (not (ltb k.call_sz (args_sz + head_sz)), args_sz)

module _ (k : Config) {F : Type 0} where
  unfoldable pub push_call_with_no_args : ℕ → ℕ → ℕ → Client F → Spaces → Spaces
  push_call_with_no_args method_id call_id cb_index c s =
      let call : IpcCall = record {
        call_id = call_id;
        method_id = method_id;
        client_id = c.client_id;
        cb_index = cb_index;
        args_sz = 0;
      } in
      let (serialized_call, n) = Call.serialize call 0 (replicate k.call_sz 0) in
      record s { calls = (Calls.push k.call_queue k.call_sz (some serialized_call) n s.calls).0 }

  unfoldable pub push_call_with_args :
      (ts : List Ty) → Args ts → ℕ → ℕ → ℕ → Client F → Spaces → Spaces
  push_call_with_args ts args method_id call_id cb_index c s =
      let call : IpcCall = record {
        call_id = call_id;
        method_id = method_id;
        client_id = c.client_id;
        cb_index = cb_index;
        args_sz = 0;
      } in
      let (call', serialized_call, n) =
        Call.serialize_with_args ts args call 0 (replicate k.call_sz 0) in
      record s { calls = (Calls.push k.call_queue k.call_sz (some serialized_call) n s.calls).0 }

  unfoldable pub push_cb :
      ℕ → ℕ → UserCallback F → ℕ → ℕ → Client F → Spaces → Client F × Spaces × Option ℕ
  push_cb method_id call_id cb timeout now c s =
      let (callbacks, cb_index) = Callbacks.push_callback k.callback_queue s.callbacks in
      elim cb_index [
        | none ↦ (c, record s { callbacks = callbacks }, none)
        | some i ↦ (
          record c {
            subs =
                c.subs
                ++ (record {
                  cb_index = i;
                  deadline = now + timeout;
                  timeout = timeout;
                  method_id = method_id;
                  call_id = call_id;
                  callback = cb;
                })
                  ∷ [];
          },
          record s { callbacks = callbacks },
          some i,
        )
      ]

module _ (k : Config) (z : Sizes) (texts : Texts) {F : Type 0} where
  -- The two ends of the cases with a callback: the slot that it waits for was found or not.
  unfoldable pub finish_call :
      (ts : List Ty)
      → Args ts
      → ℕ
      → UserCallback F
      → Client F × Spaces × Option ℕ
      → Client F × Spaces × List (Reply F)
  finish_call ts args method_id cb (c, s, none) = (
    c,
    s,
    replies cb.fn cb.types
        (Callback.fail cb.types cb.is_set transport_failure (texts.no_space c.call_id)),
  )
  finish_call [] args method_id cb (c, s, some i) =
      (c, push_call_with_no_args k method_id c.call_id i c s, [])
  finish_call (t ∷ ts) args method_id cb (c, s, some i) =
      (c, push_call_with_args k (t ∷ ts) args method_id c.call_id i c s, [])

  -- The four cases by the types of the arguments and whether the last one is a callback.
  unfoldable pub call_server :
      (ts : List Ty)
      → Args ts
      → Option (UserCallback F)
      → ℕ
      → ℕ
      → ℕ
      → Client F
      → Spaces
      → Client F × Spaces × List (Reply F)
  call_server [] args none method_id timeout now c s =
      let c' = record c { call_id = u64 (c.call_id + 1) } in
      (c', push_call_with_no_args k method_id c'.call_id 0 c' s, [])
  call_server (t ∷ ts) args none method_id timeout now c s =
      let c' = record c { call_id = u64 (c.call_id + 1) } in
      let (valid, args_sz) = validate_call k z (t ∷ ts) args in
      if valid
      then (c', push_call_with_args k (t ∷ ts) args method_id c'.call_id 0 c' s, [])
      else (c', s, [])
  call_server [] args (some cb) method_id timeout now c s =
      let c' = record c { call_id = u64 (c.call_id + 1) } in
      finish_call [] args method_id cb (push_cb k method_id c'.call_id cb timeout now c' s)
  call_server (t ∷ ts) args (some cb) method_id timeout now c s =
      let c' = record c { call_id = u64 (c.call_id + 1) } in
      let (valid, args_sz) = validate_call k z (t ∷ ts) args in
      if valid
      then finish_call (t ∷ ts) args method_id cb
          (push_cb k method_id c'.call_id cb timeout now c' s)
      else (
        c',
        s,
        replies cb.fn cb.types (
            Callback.fail cb.types cb.is_set invalid_payload
              (texts.too_big method_id c'.client_id c'.call_id args_sz)),
      )
