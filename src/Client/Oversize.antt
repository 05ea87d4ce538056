-- ===== src/Client/Oversize.antt =====
-- IClientIPC.hpp and CallSpace.h: arguments just too long for a slot.
use psi_shared.Base.{
  write_at, ℕ, ◌+◌, ◌≤◌, ◌<◌, ◌^◌, ◌≡◌, refl, List, some, true, false, arith, length, lt→ltb,
  le→ltb, ne→==,
}
use psi_shared.Protocol.{Ty, Args, Sizes}
use psi_shared.Protocol.Encoding.{encode_args, AreValues}
use psi_shared.Protocol.Arguments.{NoVectors, size_of_args_lem}
use psi_shared.Protocol.Serializer.{Memory}
use psi_shared.Call.{IpcCall, serialize_with_args}
use psi_shared.Call.Message.{call_bytes, length-call_bytes, serialize_with_args_lem}
use psi_shared.CallSpace.{CallSpace, push}
use psi_shared.Client.{Config}
use psi_shared.Client.Sender.{validate_call}

refused :
    (max_queue max_data sz : ℕ) (b : List ℕ) (s : CallSpace)
    → max_data < sz
    → push max_queue max_data (some b) sz s ≡ (s, false)
unfolding push
refused max_queue max_data sz b s h =
    rw (ne→== sz 0 (λ e. absurd (omega arith)), lt→ltb max_data sz h) refl

-- `validateCall` lets calls through that are longer than a slot: arguments, none of them a vector, of
-- `CALL_SZ - 15` or `CALL_SZ - 14` bytes pass it, but the call that is serialized from them is longer
-- than `CALL_SZ`, which is the size of the array `serialized_call`, and a call of that size is refused
-- by `push` from whatever array and at whatever space.
pub validate_call-serialize_with_args :
    (k : Config) (z : Sizes) (ts : List Ty) (args : Args ts) (call : IpcCall) (m : Memory)
    → k.call_sz < 2 ^ 16
    → NoVectors ts
    → AreValues ts args
    → k.call_sz < 16 + length (encode_args ts args)
    → length (encode_args ts args) + 14 ≤ k.call_sz
    → let (call', m', n) = serialize_with_args ts args call 0 m in
      ((validate_call k z ts args).0 ≡ true)
      × (m' ≡ write_at m 0 (call_bytes call (encode_args ts args)))
      × (k.call_sz < length (call_bytes call (encode_args ts args)))
      × ((b : List ℕ) (s : CallSpace) → push k.call_queue k.call_sz (some b) n s ≡ (s, false))
unfolding validate_call
validate_call-serialize_with_args k z ts args call m hk nv a over passes =
    rw (serialize_with_args_lem ts args call 0 m a (omega (arith, passes, hk))) (
      rw
          (
            size_of_args_lem z ts args nv a (omega (arith, passes, hk)),
            le→ltb k.call_sz (length (encode_args ts args) + 14) passes,
          )
          refl,
      refl,
      omega (arith, over, length-call_bytes call (encode_args ts args)),
      λ b s. refused k.call_queue k.call_sz _ b s over,
    )
