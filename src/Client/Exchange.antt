-- ===== src/Client/Exchange.antt =====
-- An answer on its way from the server to the callback of its call: MemberFnWrapper.h,
-- ServerIPCBase.cpp, ClientIPC.cpp and IClientIPC.hpp together.
use psi_shared.Base.{
  ℕ, zero, suc, ◌+◌, ◌≤◌, ◌<◌, ◌^◌, ◌≡◌, ap, sym, ◌∙◌, List, [], ◌∷◌, append-nil, some, true, arith,
  length, length-replicate, replicate, get_or, get_or-set_self, set-set, set, read_at,
  read_at-write_at, write_at, length-write_at, le→ltb,
}
use psi_shared.Protocol.{Ty, Args, Sizes}
use psi_shared.Protocol.Encoding.{encode_args, AreValues, AreReadable}
use psi_shared.Callback.{Answer, error_none, success, default_args}
use psi_shared.Callback.RoundTrip.{
  value_bytes, length-value_bytes, serialize_values_lem, deserialize_values_lem,
}
use psi_shared.CallbackSpace.{CallbackSpace}
use psi_shared.CallbackSpace.Slots.{Slot, free, waiting, answered}
use psi_shared.CallbackSpace.Refine.{IsValid, slots_of, at_slot, update_callback_refines}
use psi_shared.CallbackSpace.Valid.{update_callback-IsValid}
use psi_shared.Server.{on_callback}
use psi_shared.Wrapper.{pack_answer}
use psi_shared.Client.{Config, Texts, Sub, reply}
use psi_shared.Client.Reader.{Look, arrived, look, on_answer}
use psi_shared.Client.Answers.{look_refines}

-- An answer with values, of a method whose callback was called without an error.
abbrev pub values : (rs : List Ty) → Args rs → Answer rs
values rs args = record { error_code = error_none; error_msg = []; args = args }

pack_answer_lem :
    (data_size : ℕ) (rs : List Ty) (args : Args rs)
    → AreValues rs args
    → 4 + length (encode_args rs args) < 2 ^ 16
    → pack_answer data_size rs (values rs args)
      ≡ (write_at (replicate data_size 0) 0 (value_bytes rs args), 4 + length (encode_args rs args))
unfolding pack_answer
pack_answer_lem data_size rs args a h =
    serialize_values_lem rs 0 [] args (replicate data_size 0) a h

-- The slots after the server's answer: the waiting slot has its bytes.
pub on_callback-values :
    (q data_size i : ℕ) (rs : List Ty) (args : Args rs) {s : CallbackSpace}
    → IsValid q data_size s
    → AreValues rs args
    → 4 + length (encode_args rs args) ≤ data_size
    → data_size < 2 ^ 16
    → get_or (slots_of s) i free ≡ waiting
    → let (bytes, n) = pack_answer data_size rs (values rs args) in
      slots_of (on_callback q data_size (some i) bytes n s)
      ≡ set (slots_of s) i (answered (value_bytes rs args))
unfolding on_callback
on_callback-values q data_size i rs args {s} v a fits small w =
    rw (pack_answer_lem data_size rs args a (omega (arith, fits, small))) (
      update_callback_refines i (write_at zeros 0 bytes) (4 + length (encode_args rs args)) v
        (omega (arith, fits, small)) (omega (arith, fits, length-write_at zeros 0 bytes, room))
      ∙ rw (le→ltb data_size (4 + length (encode_args rs args)) fits, w)
          (ap (λ b. set (slots_of s) i (answered b)) copied))
  where
    zeros : List ℕ
    zeros = replicate data_size 0

    bytes : List ℕ
    bytes = value_bytes rs args

    room : length zeros ≡ data_size
    room = length-replicate data_size (let z : ℕ = 0 in z)

    copied : read_at (write_at zeros 0 bytes) 0 (4 + length (encode_args rs args)) ≡ bytes
    copied =
        rw (← length-value_bytes rs args)
          (read_at-write_at zeros 0 bytes (omega (arith, fits, room, length-value_bytes rs args)))

pub on_callback-IsValid :
    (q data_size i : ℕ) (bytes : List ℕ) (n : ℕ) {s : CallbackSpace}
    → IsValid q data_size s
    → IsValid q data_size (on_callback q data_size (some i) bytes n s)
unfolding on_callback
on_callback-IsValid q data_size i bytes n v = update_callback-IsValid i bytes n v

pub inside : (i : ℕ) (slots : List Slot) → get_or slots i free ≡ waiting → i < length slots
inside i [] e = cc e
inside zero (x ∷ slots) e = omega arith
inside (suc i) (x ∷ slots) e = omega (arith, inside i slots e)

module _ (k : Config) (z : Sizes) (texts : Texts) {F : Type 0} (rs : List Ty) (args : Args rs)
    (fn : F) where
  read_answer :
      (i deadline timeout method_id call_id client_id : ℕ) (s : CallbackSpace)
      → AreReadable z rs args
      → 4 + length (encode_args rs args) < 2 ^ 16
      → on_answer k z texts client_id
          (record {
            cb_index = i;
            deadline = deadline;
            timeout = timeout;
            method_id = method_id;
            call_id = call_id;
            callback = record { types = rs; is_set = true; fn = fn };
          })
          (some (value_bytes rs args))
          s
        ≡ (s, reply fn rs (values rs args) ∷ [])
  unfolding on_answer success
  read_answer i deadline timeout method_id call_id client_id s r h = rw (
      deserialize_values_lem z rs (value_bytes rs args) args []
        (record { error_code = 0; error_msg = []; args = default_args rs }) r h
        (sym (append-nil (value_bytes rs args))))

  -- An answer with values reaches the callback of its call: the server packs the answer for the index
  -- that the call carried and puts it into the waiting slot; the client's next look at the entry, if
  -- it is active and the entry in time, frees the slot and changes no other, and the callback is
  -- called once, with error code 0 and exactly these values.
  pub answer_arrives :
      (i deadline timeout method_id call_id client_id now : ℕ) {s : CallbackSpace}
      → IsValid k.callback_queue k.callback_sz s
      → k.callback_sz < 2 ^ 16
      → get_or (slots_of s) i free ≡ waiting
      → AreValues rs args
      → AreReadable z rs args
      → 4 + length (encode_args rs args) ≤ k.callback_sz
      → now ≤ deadline
      → let sub : Sub F = record {
        cb_index = i;
        deadline = deadline;
        timeout = timeout;
        method_id = method_id;
        call_id = call_id;
        callback = record { types = rs; is_set = true; fn = fn };
      } in
        let (bytes, n) = pack_answer k.callback_sz rs (values rs args) in
        let s' = on_callback k.callback_queue k.callback_sz (some i) bytes n s in
        let (s'', seen) = look k now true sub s' in
        (slots_of s'' ≡ at_slot i (λ slot. free) (slots_of s))
        × (seen ≡ arrived (value_bytes rs args))
        × (on_answer k z texts client_id sub (some (value_bytes rs args)) s''
            ≡ (s'', reply fn rs (values rs args) ∷ []))
  answer_arrives i deadline timeout method_id call_id client_id now {s} v small w a r fits time = (
    ap (λ p. p.0) seen ∙ set-set (slots_of s) i _ free,
    ap (λ p. p.1) seen,
    read_answer sub.cb_index deadline timeout method_id call_id client_id _ r
        (omega (arith, fits, small)),
  )
    where
      sub : Sub F
      sub = record {
        cb_index = i;
        deadline = deadline;
        timeout = timeout;
        method_id = method_id;
        call_id = call_id;
        callback = record { types = rs; is_set = true; fn = fn };
      }

      after : CallbackSpace
      after =
          on_callback k.callback_queue k.callback_sz (some i)
            (pack_answer k.callback_sz rs (values rs args)).0
            (pack_answer k.callback_sz rs (values rs args)).1 s

      after-IsValid : IsValid k.callback_queue k.callback_sz after
      after-IsValid = on_callback-IsValid k.callback_queue k.callback_sz i _ _ v

      seen : (slots_of (look k now true sub after).0, (look k now true sub after).1) ≡ (
          let p : List Slot × Look = (
            set (set (slots_of s) i (answered (value_bytes rs args))) i free,
            arrived (value_bytes rs args),
          ) in
          p)
      seen =
          look_refines k now true sub after-IsValid
          ∙ rw (
            on_callback-values k.callback_queue k.callback_sz i rs args v a fits small w,
            le→ltb deadline now time,
            get_or-set_self (slots_of s) i (answered (value_bytes rs args)) free
                (inside i (slots_of s) w),
          )
