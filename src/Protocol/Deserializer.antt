-- ===== src/Protocol/Deserializer.antt =====
-- psi/include/psi/shared/ipc/protocol/Deserializer.h. The reference parameter `offset`, a uint16_t,
-- is passed in and returned behind the value.
use psi_shared.Base.{
  ℕ, zero, suc, ◌+◌, ◌/◌, ◌||◌, ltb, ◌==◌, if◌then◌else◌, List, [], ◌∷◌, read_at, u16, u16_max,
  of_bytes,
}
use psi_shared.Protocol.{Ty, trivial, string, vector, Val, Args, Sizes, size_of, header_size}
use psi_shared.Protocol.Serializer.{Memory}

unfoldable pub deserialize_trivial : ℕ → Memory → ℕ → List ℕ × ℕ
deserialize_trivial n m offset = (read_at m offset n, u16 (offset + n))

unfoldable pub deserialize_string : Memory → ℕ → List ℕ × ℕ
deserialize_string m offset =
    let (head, offset') = deserialize_trivial header_size m offset in
    let len = of_bytes head in
    if len == 0 || ltb u16_max len
    then ([], offset')
    else (read_at m offset' len, u16 (offset' + u16 len))

-- The loop of the vector's elements, with so many to go.
unfoldable pub deserialize_elements :
    {A : Type 0} → (Memory → ℕ → A × ℕ) → ℕ → Memory → ℕ → List A × ℕ
deserialize_elements deserialize zero m offset = ([], offset)
deserialize_elements deserialize (suc n) m offset =
    let (x, offset') = deserialize m offset in
    let (xs, offset'') = deserialize_elements deserialize n m offset' in (x ∷ xs, offset'')

-- `size` is `sizeof(T)`.
unfoldable pub deserialize_vector :
    {A : Type 0} → ℕ → (Memory → ℕ → A × ℕ) → Memory → ℕ → List A × ℕ
deserialize_vector size deserialize m offset =
    let (head, offset') = deserialize_trivial header_size m offset in
    let n = of_bytes head in
    let elements = deserialize_elements deserialize n m offset' in
    if n == 0 || ltb (u16_max / size) n then ([], offset') else elements

unfoldable pub deserialize_type : Sizes → (t : Ty) → Memory → ℕ → Val t × ℕ
deserialize_type z (trivial n) m offset = deserialize_trivial n m offset
deserialize_type z string m offset = deserialize_string m offset
deserialize_type z (vector t) m offset =
    deserialize_vector (size_of z t) (deserialize_type z t) m offset

-- `deserializeTuple` applied to each element of a tuple by `fnPerTuple`.
unfoldable pub deserialize_tuples : Sizes → (ts : List Ty) → Memory → ℕ → Args ts × ℕ
deserialize_tuples z [] m offset = (tt, offset)
deserialize_tuples z (t ∷ ts) m offset =
    let (arg, offset') = deserialize_type z t m offset in
    let (args, offset'') = deserialize_tuples z ts m offset' in ((arg, args), offset'')

-- `deserializeTypeVariadic`: each element at its offset, the last one by itself.
unfoldable pub deserialize_variadic : Sizes → (t : Ty) → (ts : List Ty) → Memory → ℕ → Args (t ∷ ts)
deserialize_variadic z t [] m offset = ((deserialize_type z t m offset).0, tt)
deserialize_variadic z t (u ∷ ts) m offset =
    let (head, local_offset) = deserialize_type z t m offset in
    (head, deserialize_variadic z u ts m local_offset)
