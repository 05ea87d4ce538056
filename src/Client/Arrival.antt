-- ===== src/Client/Arrival.antt =====
-- A call on its way from a client to the method that the server runs for it: IClientIPC.hpp,
-- CallSpace.h, ServerIPCBase.cpp and IServerIPC.h together.
use native.Mathlib.Nat.{mod-lt}
use psi_shared.Base.{
  ℕ, ◌+◌, ◌*◌, ◌≤◌, ◌<◌, ◌^◌, ◌≡◌, refl, sym, ap, ◌∙◌, inl, inr, List, [], ◌∷◌, append-nil, Option,
  some, arith, length, get_or, get_or-set_self, length-map, length-append,
}
use psi_shared.Protocol.{Ty, Args, Sizes}
use psi_shared.Protocol.Encoding.{encode_args, AreValues}
use psi_shared.Protocol.Arguments.{NoVectors}
use psi_shared.Call.{IpcCall}
use psi_shared.Call.Message.{call_bytes, length-call_bytes}
use psi_shared.Call.RoundTrip.{InRange}
use psi_shared.CallSpace.{CallSpace}
use psi_shared.CallSpace.Refine as Log
use psi_shared.CallbackSpace.Slots.{free, waiting, slot_of}
use psi_shared.CallbackSpace.Refine.{slots_of}
use psi_shared.CallbackSpace.Reserve.{IsFreeAt}
use psi_shared.Server.{runs, effect, read_memory, on_read_call_memory}
use psi_shared.Server.Dispatch.{on_read_call_memory_lem}
use psi_shared.Server.Delivery.{take_calls_lem}
use psi_shared.Client.{Config, Texts, Spaces, UserCallback, Reply, Client}
use psi_shared.Client.Sender.{call_server}
use psi_shared.Client.Posting.{call_of, log_after}
use psi_shared.Client.Requests.{Called, counted, waits_for, call_server_waits}
use psi_shared.Client.Valid.{AreValid, call_server-AreValid}

-- A call that fits an empty log is all that the log then has.
log_after-empty :
    (k : Config) (call : IpcCall) (args : List ℕ)
    → 16 + length args ≤ k.call_sz
    → 0 < k.call_queue
    → log_after k call args [] ≡ call_bytes call args
unfolding Log.append_call
log_after-empty k call args fits some_queue = ground (arith, length-call_bytes call args, room)
  where
    room : k.call_sz ≤ k.call_sz * k.call_queue
    room = grind (arith, some_queue)

-- The server's round at a log with these bytes.
read_memory_lem :
    {q d : ℕ} {s : CallSpace} (bytes : List ℕ)
    → Log.IsValid q d s
    → Log.contents s ≡ bytes
    → 0 < length bytes
    → let (s', taken) = read_memory s s in (Log.contents s' ≡ []) × (taken ≡ some bytes)
unfolding read_memory
read_memory_lem {s = s} bytes v e h =
    ground (arith, Log.is_data_available_lem s v, take_calls_lem s v)

-- A buffer with one call of a method that the service has.
one_call :
    {G : Type 0} (d : ℕ) (find_method : ℕ → Option G) (call : IpcCall) (args : List ℕ) (fn : G)
    → InRange call
    → length args < 2 ^ 16
    → find_method call.method_id ≡ some fn
    → on_read_call_memory d find_method (call_bytes call args) (length (call_bytes call args))
      ≡ some (runs fn args call.cb_index ∷ [])
unfolding effect
one_call d find_method call args fn r h known =
    ap (λ b. on_read_call_memory d find_method b (length b))
      (sym (append-nil (call_bytes call args)))
    ∙ on_read_call_memory_lem d find_method ((call, args) ∷ []) ((r, h), tt)
        (omega (arith, h, length-append (call_bytes call args) [], length-call_bytes call args))
    ∙ rw (effect, known) refl

module _ (k : Config) (z : Sizes) (texts : Texts) {F G : Type 0} (find_method : ℕ → Option G) where
  -- The server's round at the log that a call left.
  abbrev pub Served : (ts : List Ty) → Args ts → ℕ → G → Client F → ℕ → Spaces → Type 0
  Served ts args method_id fn c i s' =
      let (calls, taken) = read_memory s'.calls s'.calls in
      let bytes = call_bytes (call_of (counted c) method_id i) (encode_args ts args) in
      (Log.contents calls ≡ [])
      × (taken ≡ some bytes)
      × (on_read_call_memory k.call_sz find_method bytes (length bytes)
          ≡ some (runs fn (encode_args ts args) i ∷ []))

  -- What a call has come to when the server has read the log: a slot waits for the answer, the client
  -- has an entry for it, nobody was told of a failure, and the log, which is empty again, held the
  -- call, for which the server runs the method once, on the encoded arguments, to answer to that slot.
  abbrev pub Arrived :
      (ts : List Ty)
      → Args ts
      → UserCallback F
      → ℕ
      → ℕ
      → ℕ
      → G
      → Client F
      → Client F × Spaces × List (Reply F)
      → Type 0
  Arrived ts args cb method_id timeout now fn c (c', s', rs) =
      (i : ℕ) × (get_or (slots_of s'.callbacks) i free ≡ waiting)
      × (c' ≡ waits_for method_id cb timeout now i (counted c))
      × (rs ≡ [])
      × Served ts args method_id fn c i s'

  -- A call with a callback, of a method that the server has, that finds valid spaces, an empty
  -- log and a free slot, arrives, if its arguments, none of them a vector, fit a slot together
  -- with the header: a slot waits for its answer, the client has an entry for that slot, no
  -- failure is reported, and the server's next round empties the log and runs the method once, on
  -- the encoded arguments, to answer to that slot. The ids of client and method are 16-bit
  -- numbers.
  pub request_arrives :
      (ts : List Ty) (args : Args ts) (cb : UserCallback F) (method_id timeout now : ℕ)
      (c : Client F) (s : Spaces) (fn : G) (j : ℕ)
      → Log.Layout k.call_queue k.call_sz
      → 0 < k.call_queue
      → k.callback_queue < 2 ^ 16
      → AreValid k s
      → NoVectors ts
      → AreValues ts args
      → 16 + length (encode_args ts args) ≤ k.call_sz
      → Log.contents s.calls ≡ []
      → j < k.callback_queue
      → IsFreeAt j s.callbacks
      → c.client_id < 2 ^ 16
      → method_id < 2 ^ 16
      → find_method method_id ≡ some fn
      → Arrived ts args cb method_id timeout now fn c
          (call_server k z texts ts args (some cb) method_id timeout now c s)
  unfolding Called
  request_arrives ts args cb method_id timeout now c s fn j l some_queue small v nv a fits empty hj
        is_free hc hm known =
      elim (call_server_waits k z texts ts args cb method_id timeout now c s l v.calls_valid
        v.callbacks_valid nv a fits) [
          | inl (counted_c, same, full, failed) ↦ absurd (full j hj is_free)
          | inr (i, hi, free_i, first, slots, log, waits, none_failed) ↦ (
            i,
            ap (λ xs. get_or xs i free) slots
                ∙ get_or-set_self (slots_of s.callbacks) i waiting free (
                    omega
                      (arith, length-map slot_of s.callbacks.slots, v.callbacks_valid.queue, hi)),
            waits,
            none_failed,
            taken_and_run i (omega (arith, hi, small)) log,
          )
        ]
    where
      s' : Spaces
      s' = (call_server k z texts ts args (some cb) method_id timeout now c s).1

      valid : Log.IsValid k.call_queue k.call_sz s'.calls
      valid =
          (call_server-AreValid k l z texts ts args (some cb) method_id timeout now c v).calls_valid

      taken_and_run :
          (i : ℕ)
          → i < 2 ^ 16
          → Log.contents s'.calls
            ≡ log_after k
                (call_of (counted c) method_id i)
                (encode_args ts args)
                (Log.contents s.calls)
          → Served ts args method_id fn c i s'
      taken_and_run i hi log =
          let (cleared, all) = read_memory_lem bytes valid whole (omega (arith, size)) in
          (
            cleared,
            all,
            one_call k.call_sz find_method call (encode_args ts args) fn in_range
                (omega (arith, fits, l.data_fits)) known,
          )
        where
          call : IpcCall
          call = call_of (counted c) method_id i

          bytes : List ℕ
          bytes = call_bytes call (encode_args ts args)

          size : length bytes ≡ 16 + length (encode_args ts args)
          size = length-call_bytes call (encode_args ts args)

          whole : Log.contents s'.calls ≡ bytes
          whole =
              log
              ∙ ap (log_after k call (encode_args ts args)) empty
              ∙ log_after-empty k call (encode_args ts args) fits some_queue

          in_range : InRange call
          in_range = record {
            id_fits = mod-lt (c.call_id + 1) (omega arith);
            method_fits = hm;
            client_fits = hc;
            index_fits = hi;
          }
