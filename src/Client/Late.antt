-- ===== src/Client/Late.antt =====
-- IClientIPC.hpp and CallbackSpace.h: an answer that comes after its call has timed out.
use psi_shared.Base.{
  ℕ, ◌+◌, ◌≤◌, ◌<◌, ◌^◌, ◌≡◌, sym, ap, ◌∙◌, inl, inr, List, none, some, arith, length, length-map,
  length-set, get_or, get_or-set_self, get_or-set_ne, set,
}
use psi_shared.Protocol.{Ty, Args, Sizes}
use psi_shared.Protocol.Encoding.{encode_args, AreValues}
use psi_shared.Callback.RoundTrip.{value_bytes}
use psi_shared.CallbackSpace.{CallbackSpace, push_callback, clear_callback}
use psi_shared.CallbackSpace.Slots.{free, waiting, answered, slot_of}
use psi_shared.CallbackSpace.Refine.{IsValid, slots_of, clear_callback_refines}
use psi_shared.CallbackSpace.Reserve.{IsFreeAt, push_callback_lem}
use psi_shared.CallbackSpace.Valid.{clear_callback-IsValid, push_callback-IsValid}
use psi_shared.Server.{on_callback}
use psi_shared.Wrapper.{pack_answer}
use psi_shared.Client.{Config, Texts, Sub}
use psi_shared.Client.Reader.{on_answer}
use psi_shared.Client.Exchange.{values, inside, on_callback-values}

-- After a slot was freed below which none is free, it is the one that the next search finds.
push_callback-clear_callback :
    {q d : ℕ} (i : ℕ) {s : CallbackSpace}
    → IsValid q d s
    → i < q
    → ((j : ℕ) → j < i → ¬ IsFreeAt j s)
    → let (s', index) = push_callback q (clear_callback q i s) in
      (index ≡ some i) × (get_or (slots_of s') i free ≡ waiting)
push_callback-clear_callback {q} {d} i {s} v hi taken =
    elim (push_callback_lem (clear_callback-IsValid i v)) [
      | inl (out, same, full) ↦ absurd (full i (omega arith) hi freed)
      | inr (n, out, lo, hn, is_free, first, slots) ↦
          let at : n ≡ i = omega (
            arith,
            λ (h : i < n). first i (omega arith) h freed,
            λ (h : n < i). taken n h (kept n h is_free),
          ) in
          (
            out ∙ ap some at,
            ap (λ j. get_or (slots_of (push_callback q (clear_callback q i s)).0) j free) (sym at)
                ∙ ap (λ xs. get_or xs n free) slots
                ∙ get_or-set_self (slots_of (clear_callback q i s)) n waiting free
                    (omega (arith, hn, length_cleared)),
          )
    ]
  where
    cleared : slots_of (clear_callback q i s) ≡ set (slots_of s) i free
    cleared = clear_callback_refines i v

    size : length (slots_of s) ≡ q
    size = length-map slot_of s.slots ∙ v.queue

    freed : IsFreeAt i (clear_callback q i s)
    freed =
        ap (λ xs. get_or xs i free) cleared
        ∙ get_or-set_self (slots_of s) i free free (omega (arith, size, hi))

    length_cleared : length (slots_of (clear_callback q i s)) ≡ q
    length_cleared = ap length cleared ∙ length-set (slots_of s) i free ∙ size

    kept : (n : ℕ) → n < i → IsFreeAt n (clear_callback q i s) → IsFreeAt n s
    kept n h e =
        sym (
          ap (λ xs. get_or xs n free) cleared
          ∙ get_or-set_ne (slots_of s) i n free free (λ p. absurd (omega arith)))
        ∙ e

module _ (k : Config) (z : Sizes) (texts : Texts) {F : Type 0} where
  -- When a call times out while the server still works on it, and the client then calls again, with
  -- no slot free below that of the first call, the second call gets the same slot, and the answer to
  -- the first one, when it comes, stands in that slot as the answer to the second.
  pub answer_after_timeout :
      (sub : Sub F) (client_id : ℕ) (rs : List Ty) (args : Args rs) {s : CallbackSpace}
      → IsValid k.callback_queue k.callback_sz s
      → k.callback_sz < 2 ^ 16
      → sub.cb_index < k.callback_queue
      → ((j : ℕ) → j < sub.cb_index → ¬ IsFreeAt j s)
      → AreValues rs args
      → 4 + length (encode_args rs args) ≤ k.callback_sz
      → let s1 = (on_answer k z texts client_id sub none s).0 in
        let (s2, index) = push_callback k.callback_queue s1 in
        let (bytes, n) = pack_answer k.callback_sz rs (values rs args) in
        let s3 = on_callback k.callback_queue k.callback_sz (some sub.cb_index) bytes n s2 in
        (index ≡ some sub.cb_index)
        × (get_or (slots_of s3) sub.cb_index free ≡ answered (value_bytes rs args))
  unfolding on_answer
  answer_after_timeout sub client_id rs args {s} v small hi taken a fits = (
    again.0,
    ap (λ xs. get_or xs i free)
          (on_callback-values k.callback_queue k.callback_sz i rs args {s = s2} s2-IsValid a fits
            small again.1)
        ∙ get_or-set_self (slots_of s2) i (answered (value_bytes rs args)) free
            (inside i (slots_of s2) again.1),
  )
    where
      i : ℕ
      i = sub.cb_index

      s2 : CallbackSpace
      s2 = (push_callback k.callback_queue (clear_callback k.callback_queue i s)).0

      again :
          ((push_callback k.callback_queue (clear_callback k.callback_queue i s)).1 ≡ some i)
          × (get_or (slots_of s2) i free ≡ waiting)
      again = push_callback-clear_callback i v hi taken

      s2-IsValid : IsValid k.callback_queue k.callback_sz s2
      s2-IsValid = push_callback-IsValid (clear_callback-IsValid i v)
