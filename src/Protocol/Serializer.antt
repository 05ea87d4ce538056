-- ===== src/Protocol/Serializer.antt =====
-- psi/include/psi/shared/ipc/protocol/Serializer.h. A pointer is an address in a flat memory; each
-- function returns the memory that it leaves and its SIZE_TYPE result, which is a uint16_t.
use psi_shared.Base.{ℕ, ◌+◌, List, [], ◌∷◌, length, write_at, read_at, u16, u64, to_bytes}
use psi_shared.Protocol.{Ty, trivial, string, vector, Val, Args, Sizes, header_size}

abbrev pub Memory : Type 0
Memory = List ℕ

-- `TrivialConcept T`: a copy of the object representation.
unfoldable pub serialize_trivial : ℕ → ℕ → List ℕ → Memory → Memory × ℕ
serialize_trivial n buffer v m = (write_at m buffer (read_at v 0 n), u16 n)

unfoldable pub serialize_string : ℕ → List ℕ → Memory → Memory × ℕ
unfolding serialize_trivial
serialize_string buffer str m =
    let len = u16 (length str) in
    let (m', sz) = serialize_trivial header_size buffer (to_bytes 8 len) m in
    (write_at m' (buffer + sz) (read_at str 0 len), u16 (sz + len))

-- The loop of the vector's elements: `offset` runs behind the elements written so far.
unfoldable pub serialize_elements :
    {A : Type 0} → (ℕ → A → Memory → Memory × ℕ) → ℕ → ℕ → List A → Memory → Memory × ℕ
serialize_elements serialize buffer offset [] m = (m, offset)
serialize_elements serialize buffer offset (x ∷ xs) m =
    let (m', sz) = serialize (buffer + offset) x m in
    serialize_elements serialize buffer (u16 (offset + sz)) xs m'

unfoldable pub serialize_vector :
    {A : Type 0} → (ℕ → A → Memory → Memory × ℕ) → ℕ → List A → Memory → Memory × ℕ
unfolding serialize_trivial serialize_elements
serialize_vector serialize buffer xs m =
    let (m', sz) = serialize_trivial header_size buffer (to_bytes 8 (u64 (length xs))) m in
    serialize_elements serialize buffer (u16 (0 + sz)) xs m'

-- The overload for one argument.
unfoldable pub serialize_type : (t : Ty) → ℕ → Val t → Memory → Memory × ℕ
unfolding serialize_trivial serialize_string serialize_vector
serialize_type (trivial n) buffer v m = serialize_trivial n buffer v m
serialize_type string buffer v m = serialize_string buffer v m
serialize_type (vector t) buffer v m = serialize_vector (serialize_type t) buffer v m

-- The overload for any number of arguments.
unfoldable pub serialize_pack : (ts : List Ty) → ℕ → Args ts → Memory → Memory × ℕ
serialize_pack [] buffer args m = (m, 0)
serialize_pack (t ∷ ts) buffer (arg, args) m =
    let (m', sz) = serialize_type t buffer arg m in
    let (m'', rest) = serialize_pack ts (buffer + sz) args m' in (m'', u16 (sz + rest))

-- One argument at `buffer + sz`; the reference parameter `sz` is passed in and returned.
unfoldable pub serialize_tuple : (t : Ty) → ℕ → Val t → ℕ → Memory → Memory × ℕ
serialize_tuple t buffer v sz m =
    let (m', n) = serialize_type t (buffer + sz) v m in (m', u16 (sz + n))

-- `serializeTuple` applied to each element of a tuple by `fnPerTuple`.
unfoldable pub serialize_tuples : (ts : List Ty) → ℕ → Args ts → ℕ → Memory → Memory × ℕ
serialize_tuples [] buffer args sz m = (m, sz)
serialize_tuples (t ∷ ts) buffer (arg, args) sz m =
    let (m', sz') = serialize_tuple t buffer arg sz m in serialize_tuples ts buffer args sz' m'

-- The overloads for a string, and for all other types, vectors among them, by `sizeof`.
unfoldable pub size_of_arg : Sizes → (t : Ty) → Val t → ℕ
size_of_arg z (trivial n) v = u16 n
size_of_arg z string v = u16 (header_size + u16 (length v))
size_of_arg z (vector t) v = u16 z.vector_size

-- `sizeOfArgs` of several arguments, added up in a SIZE_TYPE.
unfoldable pub size_of_args : Sizes → (ts : List Ty) → Args ts → ℕ → ℕ
size_of_args z [] args sz = sz
size_of_args z (t ∷ ts) (arg, args) sz = size_of_args z ts args (u16 (sz + size_of_arg z t arg))
