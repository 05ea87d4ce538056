-- ===== src/Protocol/Tests.antt =====
-- psi/include/psi/shared/ipc/protocol/: the theorems at a number, a string and a vector of strings.
use psi_shared.Base.{ℕ, ◌≡◌, refl, List, [], ◌∷◌, arith, drop, replicate, to_bytes, write_at}
use psi_shared.Protocol.{Ty, trivial, string, vector, Args, Sizes}
use psi_shared.Protocol.Serializer.{
  Memory, serialize_type, serialize_tuples, serialize_tuple, size_of_args, size_of_arg,
}
use psi_shared.Protocol.Deserializer.{deserialize_tuples}
use psi_shared.Protocol.Encoding.{encode, encode_args}
use psi_shared.Protocol.Arguments.{deserialize_tuples-serialize_tuples}

abbrev sizes : Sizes
sizes = record { string_size = 32; vector_size = 24 }

abbrev types : List Ty
types = trivial 2 ∷ string ∷ vector string ∷ []

abbrev values : Args types
values = (7 ∷ 1 ∷ [], (65 ∷ 66 ∷ [], ((67 ∷ []) ∷ [] ∷ [], tt)))

abbrev memory : Memory
memory = replicate 48 0

abbrev bytes_of_values : List ℕ
bytes_of_values =
    7 ∷ 1 ∷ 2 ∷ 0 ∷ 0 ∷ 0 ∷ 0 ∷ 0 ∷ 0 ∷ 0 ∷ 65 ∷ 66 ∷ 2 ∷ 0 ∷ 0 ∷ 0 ∷ 0 ∷ 0 ∷ 0 ∷ 0 ∷ 1 ∷ 0 ∷ 0 ∷ 0
    ∷ 0 ∷ 0 ∷ 0 ∷ 0 ∷ 67 ∷ 0 ∷ 0 ∷ 0 ∷ 0 ∷ 0 ∷ 0 ∷ 0 ∷ 0 ∷ []

encode-values : encode_args types values ≡ bytes_of_values
unfolding encode_args encode to_bytes
encode-values = refl

serialize-values : (serialize_tuples types 0 values 0 memory).1 ≡ 37
unfolding serialize_tuples serialize_tuple serialize_type to_bytes write_at
serialize-values = refl

-- A vector counts as its object, however many elements it has.
vector_size_ignored : size_of_args sizes (vector (trivial 1) ∷ []) (replicate 600 0 ∷ [], tt) 0 ≡ 24
unfolding size_of_args size_of_arg
vector_size_ignored = refl

deserialize_tuples-serialize_tuples_example :
    let (m', sz) = serialize_tuples types 5 values 0 memory in
    deserialize_tuples sizes types (drop 5 m') 0 ≡ (values, sz)
unfolding encode_args encode to_bytes
deserialize_tuples-serialize_tuples_example =
    deserialize_tuples-serialize_tuples sizes types 5 values memory
      (refl, (tt, ((omega arith, (tt, (tt, tt))), tt)))
      (refl, (tt, ((omega arith, (tt, (tt, tt))), tt))) (omega arith) (omega arith)

abbrev vector_bytes : List ℕ
vector_bytes = drop 12 bytes_of_values
