-- ===== src/Client/Future.antt =====
-- IClientIPC.hpp: `callServerWithReturn`, which waits for the answer to a call.
use psi_shared.Base.{
  ℕ, ◌≡◌, ◌⊎◌, inl, inr, refl, List, [], ◌∷◌, ◌++◌, Option, none, some, Bool, true, false, not, ltb,
  ◌||◌, ◌==◌, if◌then◌else◌, Bool-cases, Option-cases,
}
use psi_shared.Protocol.{Ty, Args, Sizes}
use psi_shared.Protocol.Serializer.{Memory}
use psi_shared.Callback
use psi_shared.Callback.{
  Answer, timeout_error, transport_failure, invalid_payload, error_none, default_args,
}
use psi_shared.CallbackSpace.{CallbackSpace, push_callback}
use psi_shared.Client.{Config, Texts, Spaces, UserCallback, Reply, reply, replies, Sub, Client}
use psi_shared.Client.Sender.{validate_call, push_cb, finish_call, call_server}
use psi_shared.Client.Reader.{expired, look, on_answer}

-- What `future.get()` returns, or the text of the exception that it throws.
pub data Outcome : Type 0 where
  returned : (ts : List Ty) → Args ts → Outcome
  raised : List ℕ → Outcome

-- `set_value` or `set_exception` on a promise that is set already throws.
pub data Promise : Type 0 where
  unset : Promise
  fulfilled : Outcome → Promise
  set_twice : Promise

abbrev pub set_promise : Outcome → Promise → Promise
set_promise o Promise.unset = Promise.fulfilled o
set_promise o (Promise.fulfilled p) = Promise.set_twice
set_promise o Promise.set_twice = Promise.set_twice

-- The lambda `resultCb`.
abbrev pub result_cb : {F : Type 0} → Reply F → Promise → Promise
result_cb (reply fn ts a) p =
    set_promise (if not (a.error_code == 0) then raised a.error_msg else returned ts a.args) p

-- The calls of it, one after the other.
abbrev pub settle : {F : Type 0} → List (Reply F) → Promise → Promise
settle [] p = p
settle (r ∷ rs) p = settle rs (result_cb r p)

module _ (k : Config) (z : Sizes) (texts : Texts) {F : Type 0} where
  -- Up to the wait for the future; `fn` stands for the lambda, which captures the promise. The
  -- timeout is the default one of `callServer`.
  unfoldable pub call_server_with_return :
      (ts : List Ty) → Args ts → Ty → F → ℕ → ℕ → Client F → Spaces → Client F × Spaces × Promise
  call_server_with_return ts args r fn method_id now c s =
      let (c', s', answers) =
        call_server k z texts ts args (some (record { types = r ∷ []; is_set = true; fn = fn }))
          method_id 10000 now c s in
      (c', s', settle answers Promise.unset)

  -- What is left to the caller: an exception at once, or an entry that waits with its lambda.
  abbrev pub Waits : F → Ty → List (Sub F) → List (Sub F) → Promise → Type 0
  Waits fn r subs subs' p =
      ((msg : List ℕ) × (p ≡ Promise.fulfilled (raised msg)) × (subs' ≡ subs))
      ⊎ ((sub : Sub F) × (p ≡ Promise.unset)
          × (subs' ≡ subs ++ sub ∷ [])
          × (sub.callback ≡ record { types = r ∷ []; is_set = true; fn = fn }))

  finish_call-Waits :
      (ts : List Ty) (args : Args ts) (r : Ty) (fn : F) (method_id call_id now : ℕ) (c : Client F)
      (s : Spaces)
      → let cb : UserCallback F = record { types = r ∷ []; is_set = true; fn = fn } in
        let (c', s', answers) =
          finish_call k z texts ts args method_id cb
            (push_cb k method_id call_id cb 10000 now c s) in
        Waits fn r c.subs c'.subs (settle answers Promise.unset)
  unfolding push_cb finish_call Callback.fail
  finish_call-Waits [] args r fn method_id call_id now c s =
      elim (Option-cases (push_callback k.callback_queue s.callbacks).1) [
        | inl e ↦ rw (push_cb, e) (inl (texts.no_space c.call_id, refl, refl))
        | inr (i, e) ↦ rw (push_cb, e) (inr (_, refl, refl, refl))
      ]
  finish_call-Waits (t ∷ ts) args r fn method_id call_id now c s =
      elim (Option-cases (push_callback k.callback_queue s.callbacks).1) [
        | inl e ↦ rw (push_cb, e) (inl (texts.no_space c.call_id, refl, refl))
        | inr (i, e) ↦ rw (push_cb, e) (inr (_, refl, refl, refl))
      ]

  -- After the call the promise is set to an exception and no new entry waits, or it is not set and
  -- one new entry waits, with the callback of that promise.
  pub call_server_with_return_lem :
      (ts : List Ty) (args : Args ts) (r : Ty) (fn : F) (method_id now : ℕ) (c : Client F)
      (s : Spaces)
      → let (c', s', p) = call_server_with_return ts args r fn method_id now c s in
        Waits fn r c.subs c'.subs p
  unfolding call_server_with_return call_server Callback.fail
  call_server_with_return_lem [] args r fn method_id now c s =
      finish_call-Waits [] args r fn method_id _ now _ s
  call_server_with_return_lem (t ∷ ts) args r fn method_id now c s =
      elim (Bool-cases (validate_call k z (t ∷ ts) args).0) [
        | inl e ↦ rw (call_server, e) (finish_call-Waits (t ∷ ts) args r fn method_id _ now _ s)
        | inr e ↦ rw (call_server, e) (inl (_, refl, refl))
      ]

  settle-fail :
      (fn : F) (ts : List Ty) (is_set : Bool) (error_code : ℕ) (msg : List ℕ)
      → is_set ≡ true
      → (error_code == 0) ≡ false
      → settle (replies fn ts (Callback.fail ts is_set error_code msg)) Promise.unset
        ≡ Promise.fulfilled (raised msg)
  unfolding Callback.fail
  settle-fail fn ts true error_code msg h e = rw e refl
  settle-fail fn ts false error_code msg h e = absurd (cc)

  settle-success :
      (fn : F) (ts : List Ty) (is_set : Bool) (args : Args ts)
      → is_set ≡ true
      → settle (replies fn ts (Callback.success ts is_set args)) Promise.unset
        ≡ Promise.fulfilled (returned ts args)
  unfolding Callback.success
  settle-success fn ts true args h = refl
  settle-success fn ts false args h = absurd (cc)

  -- The function of an entry with a callback, called with an answer or without, sets the promise
  -- that waits. When the entry is looked at after its time or after a disconnect, it has expired,
  -- and the function, then called without an answer, sets the promise to the exception of a timeout.
  pub on_answer-settles :
      (client_id : ℕ) (sub : Sub F) (space : CallbackSpace)
      → sub.callback.is_set ≡ true
      → ((cb_data : Option Memory)
          → (o : Outcome) × (settle
                (on_answer k z texts client_id sub cb_data space).1
                Promise.unset
              ≡ Promise.fulfilled o))
        × ((now : ℕ) (is_active : Bool)
            → ltb sub.deadline now || not is_active ≡ true
            → ((look k now is_active sub space).1 ≡ expired)
              × (settle (on_answer k z texts client_id sub none space).1 Promise.unset
                  ≡ Promise.fulfilled
                      (raised (texts.timed_out sub.timeout sub.method_id client_id sub.call_id))))
  unfolding on_answer look
  on_answer-settles client_id sub space e = (settles, λ now is_active over. (rw over refl, late))
    where
      cb : UserCallback F
      cb = sub.callback

      late :
          settle (on_answer k z texts client_id sub none space).1 Promise.unset
          ≡ Promise.fulfilled
              (raised (texts.timed_out sub.timeout sub.method_id client_id sub.call_id))
      late = settle-fail cb.fn cb.types cb.is_set timeout_error _ e refl

      settles :
          (cb_data : Option Memory)
          → (o : Outcome) × (settle
                (on_answer k z texts client_id sub cb_data space).1
                Promise.unset
              ≡ Promise.fulfilled o)
      settles none = (_, late)
      settles (some cb_data) =
          let a : Answer cb.types =
            Callback.deserialize z cb.types cb_data
              (record { error_code = 0; error_msg = []; args = default_args cb.types }) in
          elim (Bool-cases (a.error_code == error_none)) [
            | inl ok ↦
                (returned cb.types a.args, rw ok (settle-success cb.fn cb.types cb.is_set a.args e))
            | inr bad ↦ (
              raised a.error_msg,
              rw bad (settle-fail cb.fn cb.types cb.is_set a.error_code a.error_msg e bad),
            )
          ]
