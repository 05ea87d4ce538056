-- ===== src/Callback/Tests.antt =====
-- IPCCallback.h: the theorems at an answer with a number and at one with an error.
use psi_shared.Base.{◌≡◌, refl, List, [], ◌∷◌, arith, replicate, length, to_bytes}
use psi_shared.Protocol.{Ty, trivial, Args, Sizes}
use psi_shared.Protocol.Serializer.{Memory}
use psi_shared.Protocol.Encoding.{encode, encode_args}
use psi_shared.Callback.{
  Answer, error_none, timeout_error, default_args, success, fail, serialize, deserialize,
}
use psi_shared.Callback.RoundTrip.{value_bytes, deserialize-serialize_values}
use psi_shared.Base.{true}

abbrev sizes : Sizes
sizes = record { string_size = 32; vector_size = 24 }

abbrev types : List Ty
types = trivial 2 ∷ []

abbrev values : Args types
values = (7 ∷ 1 ∷ [], tt)

abbrev memory : Memory
memory = replicate 40 0

abbrev unset : Answer types
unset = record { error_code = 0; error_msg = []; args = default_args types }

fail-defaults :
    fail types true timeout_error (84 ∷ [])
    ≡ record { error_code = 1; error_msg = 84 ∷ []; args = (0 ∷ 0 ∷ [], tt) } ∷ []
unfolding fail
fail-defaults = refl

success-values :
    success types true values
    ≡ record { error_code = 0; error_msg = []; args = (7 ∷ 1 ∷ [], tt) } ∷ []
unfolding success
success-values = refl

deserialize-serialize_values_example :
    let (m, sz) = serialize types 0 error_none [] values memory in
    (deserialize sizes types m unset ≡ record unset { error_code = error_none; args = values })
    × (sz ≡ length (value_bytes types values))
unfolding encode_args encode to_bytes
deserialize-serialize_values_example =
    deserialize-serialize_values sizes types [] values memory unset (refl, tt) (refl, tt)
      (omega arith) (omega arith)
