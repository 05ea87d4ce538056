-- ===== src/Client/Requests.antt =====
-- IClientIPC.hpp: what `callServer` does in each of its cases.
use psi_shared.Base.{
  ℕ, ◌+◌, ◌≤◌, ◌<◌, ◌^◌, ◌≡◌, ◌⊎◌, inl, inr, refl, ap, List, [], ◌∷◌, ◌++◌, none, some, true, arith,
  length, le→ltb, lt→ltb, u64,
}
use psi_shared.Protocol.{Ty, Args, Sizes}
use psi_shared.Protocol.Encoding.{encode_args, AreValues}
use psi_shared.Protocol.Arguments.{NoVectors, size_of_args_lem}
use psi_shared.Callback.{fail, transport_failure, invalid_payload}
use psi_shared.CallSpace.Refine as Log
use psi_shared.CallbackSpace.{CallbackSpace, push_callback}
use psi_shared.CallbackSpace.Slots.{waiting}
use psi_shared.CallbackSpace.Refine as Answers
use psi_shared.CallbackSpace.Refine.{slots_of, at_slot}
use psi_shared.CallbackSpace.Reserve.{IsFreeAt, push_callback_lem}
use psi_shared.Client.{Config, Texts, Spaces, UserCallback, Reply, replies, Client}
use psi_shared.Client.Sender.{
  validate_call, push_cb, push_call_with_no_args, push_call_with_args, finish_call, call_server,
}
use psi_shared.Client.Posting.{
  call_of, log_after, push_call_with_no_args_lem, push_call_with_args_lem,
}

-- The calls of a client are numbered.
abbrev pub counted : {F : Type 0} → Client F → Client F
counted c = record c { call_id = u64 (c.call_id + 1) }

-- What a client keeps of a call whose answer it waits for.
abbrev pub waits_for : {F : Type 0} → ℕ → UserCallback F → ℕ → ℕ → ℕ → Client F → Client F
waits_for method_id cb timeout now i c = record c {
  subs =
      c.subs
      ++ (record {
        cb_index = i;
        deadline = now + timeout;
        timeout = timeout;
        method_id = method_id;
        call_id = c.call_id;
        callback = cb;
      })
        ∷ [];
}

module _ (k : Config) (z : Sizes) where
  valid_call :
      (ts : List Ty) (args : Args ts)
      → NoVectors ts
      → AreValues ts args
      → k.call_sz < 2 ^ 16
      → 16 + length (encode_args ts args) ≤ k.call_sz
      → (validate_call k z ts args).0 ≡ true
  unfolding validate_call
  valid_call ts args nv a hk fits = rw (
    size_of_args_lem z ts args nv a (omega (arith, fits, hk)),
    le→ltb k.call_sz (length (encode_args ts args) + 14) (omega (arith, fits)),
  )

unchanged :
    (s : Spaces) {callbacks : CallbackSpace}
    → callbacks ≡ s.callbacks
    → record s { callbacks = callbacks } ≡ s
unchanged s e = ap (λ x. record s { callbacks = x }) e

module _ (k : Config) (z : Sizes) (texts : Texts) {F : Type 0} where
  -- A call without a callback whose arguments, none of them a vector, fit a slot together with
  -- the header is counted and appended to a valid log of calls, if the log has room; nothing else changes,
  -- and nobody is told of a failure.
  pub call_server_appends :
      (ts : List Ty) (args : Args ts) (method_id timeout now : ℕ) (c : Client F) (s : Spaces)
      → Log.Layout k.call_queue k.call_sz
      → Log.IsValid k.call_queue k.call_sz s.calls
      → NoVectors ts
      → AreValues ts args
      → 16 + length (encode_args ts args) ≤ k.call_sz
      → let (c', s', rs) = call_server k z texts ts args none method_id timeout now c s in
        (c' ≡ counted c)
        × (rs ≡ [])
        × (Log.contents s'.calls
            ≡ log_after k
                (call_of (counted c) method_id 0)
                (encode_args ts args)
                (Log.contents s.calls))
        × (s'.callbacks ≡ s.callbacks)
        × (s'.events ≡ s.events)
  unfolding call_server push_call_with_no_args push_call_with_args encode_args
  call_server_appends [] args method_id timeout now c s l v nv a fits =
      (refl, refl, push_call_with_no_args_lem k l (counted c) method_id 0 s v fits, refl, refl)
  call_server_appends (t ∷ ts) args method_id timeout now c s l v nv a fits =
      rw (valid_call k z (t ∷ ts) args nv a l.data_fits fits) (
        refl,
        refl,
        push_call_with_args_lem k l (counted c) method_id 0 s v (t ∷ ts) args a fits,
        refl,
        refl,
      )

  -- A call whose arguments, none of them a vector, take more than `CALL_SZ - 14` bytes on the
  -- wire, and fewer than 2^16, is counted and not sent: all three spaces stay as they are, no
  -- slot is reserved, and a callback is told of an invalid payload, with the size that the
  -- arguments have on the wire.
  pub call_server_refuses :
      (t : Ty) (ts : List Ty) (args : Args (t ∷ ts)) (cb : UserCallback F)
      (method_id timeout now : ℕ) (c : Client F) (s : Spaces)
      → NoVectors (t ∷ ts)
      → AreValues (t ∷ ts) args
      → length (encode_args (t ∷ ts) args) < 2 ^ 16
      → k.call_sz < length (encode_args (t ∷ ts) args) + 14
      → (call_server k z texts (t ∷ ts) args none method_id timeout now c s ≡ (counted c, s, []))
        × (call_server k z texts (t ∷ ts) args (some cb) method_id timeout now c s ≡ (
          counted c,
          s,
          replies cb.fn cb.types (
              fail cb.types cb.is_set invalid_payload (
                texts.too_big method_id c.client_id
                  (u64 (c.call_id + 1))
                  (length (encode_args (t ∷ ts) args)))),
        ))
  unfolding call_server validate_call
  call_server_refuses t ts args cb method_id timeout now c s nv a small big =
      rw
        (
          size_of_args_lem z (t ∷ ts) args nv a small,
          lt→ltb k.call_sz (length (encode_args (t ∷ ts) args) + 14) big,
        )
        (refl, refl)

  -- What a call with a callback does: without a free slot for the answer nothing is sent, no space
  -- changes and the callback is told of a transport failure; else the first free slot is reserved,
  -- the call with its index is appended to the log, and the client waits for the answer.
  unfoldable pub Called :
      List ℕ
      → UserCallback F
      → ℕ
      → ℕ
      → ℕ
      → Client F
      → Spaces
      → Client F × Spaces × List (Reply F)
      → Type 0
  Called bytes cb method_id timeout now c s (c', s', rs) =
      ((c' ≡ counted c)
        × (s' ≡ s)
        × ((j : ℕ) → j < k.callback_queue → ¬ IsFreeAt j s.callbacks)
        × (rs
            ≡ replies cb.fn cb.types
                (fail cb.types cb.is_set transport_failure (texts.no_space (u64 (c.call_id + 1))))))
      ⊎ ((i : ℕ) × (i < k.callback_queue)
          × IsFreeAt i s.callbacks
          × ((j : ℕ) → j < i → ¬ IsFreeAt j s.callbacks)
          × (slots_of s'.callbacks ≡ at_slot i (λ slot. waiting) (slots_of s.callbacks))
          × (Log.contents s'.calls
              ≡ log_after k (call_of (counted c) method_id i) bytes (Log.contents s.calls))
          × (c' ≡ waits_for method_id cb timeout now i (counted c))
          × (rs ≡ []))

  push_cb-none :
      (method_id : ℕ) (cb : UserCallback F) (timeout now : ℕ) (c : Client F) (s : Spaces)
      → (push_callback k.callback_queue s.callbacks).1 ≡ none
      → push_cb k method_id (u64 (c.call_id + 1)) cb timeout now (counted c) s
        ≡ (counted c, record s { callbacks = (push_callback k.callback_queue s.callbacks).0 }, none)
  unfolding push_cb
  push_cb-none method_id cb timeout now c s out = rw (push_cb, out) refl

  push_cb-some :
      (method_id : ℕ) (cb : UserCallback F) (timeout now : ℕ) (c : Client F) (s : Spaces) {i : ℕ}
      → (push_callback k.callback_queue s.callbacks).1 ≡ some i
      → push_cb k method_id (u64 (c.call_id + 1)) cb timeout now (counted c) s ≡ (
        waits_for method_id cb timeout now i (counted c),
        record s { callbacks = (push_callback k.callback_queue s.callbacks).0 },
        some i,
      )
  unfolding push_cb
  push_cb-some method_id cb timeout now c s out = rw (push_cb, out) refl

  finish_call_lem :
      (ts : List Ty) (args : Args ts) (cb : UserCallback F) (method_id timeout now : ℕ)
      (c : Client F) (s : Spaces)
      → Log.Layout k.call_queue k.call_sz
      → Log.IsValid k.call_queue k.call_sz s.calls
      → Answers.IsValid k.callback_queue k.callback_sz s.callbacks
      → AreValues ts args
      → 16 + length (encode_args ts args) ≤ k.call_sz
      → Called (encode_args ts args) cb method_id timeout now c s (
          finish_call k z texts ts args method_id cb
            (push_cb k method_id (u64 (c.call_id + 1)) cb timeout now (counted c) s))
  unfolding finish_call encode_args push_call_with_no_args push_call_with_args Called
  finish_call_lem [] args cb method_id timeout now c s l v vc a fits = elim (push_callback_lem vc) [
    | inl (out, same, full) ↦
        rw (push_cb-none method_id cb timeout now c s out)
          (inl (refl, unchanged s same, λ j h. full j (omega arith) h, refl))
    | inr (i, out, lo, hi, is_free, first, slots) ↦
        rw (push_cb-some method_id cb timeout now c s out) (
          inr (
            i,
            hi,
            is_free,
            λ j h. first j (omega arith) h,
            slots,
            push_call_with_no_args_lem k l (counted c) method_id i
                (record s { callbacks = (push_callback k.callback_queue s.callbacks).0 }) v fits,
            refl,
            refl,
          ))
  ]
  finish_call_lem (t ∷ ts) args cb method_id timeout now c s l v vc a fits =
      elim (push_callback_lem vc) [
        | inl (out, same, full) ↦
            rw (push_cb-none method_id cb timeout now c s out)
              (inl (refl, unchanged s same, λ j h. full j (omega arith) h, refl))
        | inr (i, out, lo, hi, is_free, first, slots) ↦
            rw (push_cb-some method_id cb timeout now c s out) (
              inr (
                i,
                hi,
                is_free,
                λ j h. first j (omega arith) h,
                slots,
                push_call_with_args_lem k l (counted c) method_id i
                    (record s { callbacks = (push_callback k.callback_queue s.callbacks).0 }) v
                    (t ∷ ts) args a fits,
                refl,
                refl,
              ))
      ]

  -- A call with a callback whose arguments, none of them a vector, fit a slot together with the
  -- header, at valid spaces: without a free slot for the answer only the call counter changes and
  -- the callback is told of a transport failure; else the first free slot is reserved, the call with
  -- its index is appended to the log, if that has room, and the client has an entry that waits for
  -- the answer.
  pub call_server_waits :
      (ts : List Ty) (args : Args ts) (cb : UserCallback F) (method_id timeout now : ℕ)
      (c : Client F) (s : Spaces)
      → Log.Layout k.call_queue k.call_sz
      → Log.IsValid k.call_queue k.call_sz s.calls
      → Answers.IsValid k.callback_queue k.callback_sz s.callbacks
      → NoVectors ts
      → AreValues ts args
      → 16 + length (encode_args ts args) ≤ k.call_sz
      → Called
          (encode_args ts args)
          cb
          method_id
          timeout
          now
          c
          s
          (call_server k z texts ts args (some cb) method_id timeout now c s)
  unfolding call_server
  call_server_waits [] args cb method_id timeout now c s l v vc nv a fits =
      finish_call_lem [] args cb method_id timeout now c s l v vc a fits
  call_server_waits (t ∷ ts) args cb method_id timeout now c s l v vc nv a fits =
      rw (valid_call k z (t ∷ ts) args nv a l.data_fits fits)
        (finish_call_lem (t ∷ ts) args cb method_id timeout now c s l v vc a fits)
