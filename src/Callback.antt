-- ===== src/Callback.antt =====
-- psi/include/psi/shared/ipc/IPCCallback.h and IPCError.h: the answer to a call, with an error code
-- and a message or with values.
pub mod RoundTrip
mod Tests
use psi_shared.Base.{
  ℕ, ◌+◌, List, [], ◌∷◌, Bool, true, false, not, ◌==◌, if◌then◌else◌, replicate, drop, write_at,
  u16, to_bytes, of_bytes,
}
use psi_shared.Protocol.{Ty, trivial, string, vector, Val, Args, Sizes}
use psi_shared.Protocol.Serializer.{Memory, serialize_type, serialize_tuples}
use psi_shared.Protocol.Deserializer.{deserialize_trivial, deserialize_type, deserialize_tuples}

-- `IPCError`
abbrev pub error_none : ℕ
error_none = 0

abbrev pub timeout_error : ℕ
timeout_error = 1

abbrev pub transport_failure : ℕ
transport_failure = 2

abbrev pub invalid_payload : ℕ
invalid_payload = 3

-- One call of the function that a callback holds.
pub record Answer (ts : List Ty) : Type 0 where
  pub error_code : ℕ
  pub error_msg : List ℕ
  pub args : Args ts

-- `T {}` for each type of the pack.
abbrev pub default_value : (t : Ty) → Val t
default_value (trivial n) = replicate n 0
default_value string = []
default_value (vector t) = []

abbrev pub default_args : (ts : List Ty) → Args ts
default_args [] = tt
default_args (t ∷ ts) = (default_value t, default_args ts)

-- What `success` and `fail` call; `is_set` says that the callback holds a function.
unfoldable pub success : (ts : List Ty) → Bool → Args ts → List (Answer ts)
success ts is_set args =
    if is_set then record { error_code = error_none; error_msg = []; args = args } ∷ [] else []

unfoldable pub fail : (ts : List Ty) → Bool → ℕ → List ℕ → List (Answer ts)
fail ts is_set error_code error_msg =
    if is_set
    then record { error_code = error_code; error_msg = error_msg; args = default_args ts } ∷ []
    else []

-- For an empty pack `serialize_tuples` writes nothing, as the code then skips it.
unfoldable pub serialize : (ts : List Ty) → ℕ → ℕ → List ℕ → Args ts → Memory → Memory × ℕ
serialize ts buffer error_code error_msg args m =
    let m1 = write_at m (buffer + 0) (to_bytes 2 error_code) in
    let (m2, n) = serialize_type string (buffer + 2) error_msg m1 in
    let (m3, payload_sz) = serialize_tuples ts (buffer + (2 + 2)) args 0 m1 in
    if not (error_code == error_none)
    then (m2, u16 (2 + n))
    else (write_at m3 (buffer + 2) (to_bytes 2 payload_sz), u16 (2 + (2 + payload_sz)))

-- The three reference parameters are passed in and returned. `data` points to the start of `m`.
unfoldable pub deserialize : Sizes → (ts : List Ty) → Memory → Answer ts → Answer ts
deserialize z ts m a =
    let (code, offset) = deserialize_trivial 2 m 0 in
    let error_code = of_bytes code in
    let msg = (deserialize_type z string m offset).0 in
    let payload_offset = (deserialize_trivial 2 m offset).1 in
    let args = (deserialize_tuples z ts (drop payload_offset m) 0).0 in
    if not (error_code == error_none)
    then record a { error_code = error_code; error_msg = msg }
    else record a { error_code = error_code; args = args }
