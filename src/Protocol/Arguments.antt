-- ===== src/Protocol/Arguments.antt =====
-- Arguments on their way from one process to the other, and `sizeOfArgs`, by which a client judges
-- whether they fit a call.
use psi_shared.Base.{
  ℕ, ◌+◌, ◌≤◌, ◌<◌, ◌^◌, ◌≡◌, ap, ◌∙◌, List, [], ◌∷◌, ◌++◌, arith, length, length-append, drop,
  drop-write_at, write_at, u16, length-to_bytes, to_bytes,
}
use psi_shared.Protocol.{Ty, trivial, string, vector, Args, Sizes, header_size}
use psi_shared.Protocol.Serializer.{
  Memory, serialize_tuples, serialize_pack, size_of_arg, size_of_args,
}
use psi_shared.Protocol.Deserializer.{deserialize_tuples}
use psi_shared.Protocol.Encoding.{encode, encode_args, AreValues, AreReadable}
use psi_shared.Protocol.Write.{serialize_tuples_lem, serialize_pack_lem}
use psi_shared.Protocol.Read.{deserialize_tuples_lem}

-- Arguments that fit the buffer and a SIZE_TYPE, once serialized, are deserialized to the same
-- values, and both sides agree on their size, if each vector among them has at most
-- `65535 / sizeof(T)` elements, by the size of an element in memory, which for strings is
-- `sizeof(std::string)`.
pub deserialize_tuples-serialize_tuples :
    (z : Sizes) (ts : List Ty) (buffer : ℕ) (args : Args ts) (m : Memory)
    → AreValues ts args
    → AreReadable z ts args
    → length (encode_args ts args) < 2 ^ 16
    → buffer + length (encode_args ts args) ≤ length m
    → let (m', sz) = serialize_tuples ts buffer args 0 m in
      deserialize_tuples z ts (drop buffer m') 0 ≡ (args, sz)
deserialize_tuples-serialize_tuples z ts buffer args m a r h fits =
    rw (serialize_tuples_lem ts buffer args m a h) (
      deserialize_tuples_lem z ts (drop buffer (write_at m buffer bytes)) 0 args _ r
        (drop-write_at m buffer bytes fits) (omega (arith, h))
      ∙ ap (λ n. (args, n)) {x = 0 + length bytes} {y = length bytes} (omega arith))
  where
    bytes : List ℕ
    bytes = encode_args ts args

-- The same for the overload that takes all the arguments of an event.
pub deserialize_tuples-serialize_pack :
    (z : Sizes) (ts : List Ty) (buffer : ℕ) (args : Args ts) (m : Memory)
    → AreValues ts args
    → AreReadable z ts args
    → length (encode_args ts args) < 2 ^ 16
    → buffer + length (encode_args ts args) ≤ length m
    → let (m', sz) = serialize_pack ts buffer args m in
      deserialize_tuples z ts (drop buffer m') 0 ≡ (args, sz)
deserialize_tuples-serialize_pack z ts buffer args m a r h fits =
    rw (serialize_pack_lem ts buffer args m a h) (
      deserialize_tuples_lem z ts (drop buffer (write_at m buffer bytes)) 0 args _ r
        (drop-write_at m buffer bytes fits) (omega (arith, h))
      ∙ ap (λ n. (args, n)) {x = 0 + length bytes} {y = length bytes} (omega arith))
  where
    bytes : List ℕ
    bytes = encode_args ts args

-- The types of a call none of whose arguments is a vector.
abbrev pub NoVectors : List Ty → Type 0
NoVectors [] = Unit {0}
NoVectors (trivial n ∷ ts) = NoVectors ts
NoVectors (string ∷ ts) = NoVectors ts
NoVectors (vector t ∷ ts) = ⊥

size_of_args_from :
    (z : Sizes) (ts : List Ty) (args : Args ts) (sz : ℕ)
    → NoVectors ts
    → AreValues ts args
    → sz + length (encode_args ts args) < 2 ^ 16
    → size_of_args z ts args sz ≡ sz + length (encode_args ts args)
unfolding size_of_args size_of_arg encode_args encode
size_of_args_from z [] args sz nv a h = omega arith
size_of_args_from z (trivial n ∷ ts) (arg, args) sz nv a h =
    ap (size_of_args z ts args) step
    ∙ size_of_args_from z ts args (sz + length arg) nv a.1 (omega (arith, sizes, h))
    ∙ omega (arith, sizes)
  where
    sizes : length (arg ++ encode_args ts args) ≡ length arg + length (encode_args ts args)
    sizes = length-append arg (encode_args ts args)

    step : u16 (sz + u16 n) ≡ sz + length arg
    step = omega (arith, a.0, sizes, h)
size_of_args_from z (string ∷ ts) (arg, args) sz nv a h =
    ap (size_of_args z ts args) step
    ∙ size_of_args_from z ts args (sz + length (encode string arg)) nv a.1 (omega (arith, sizes, h))
    ∙ omega (arith, sizes)
  where
    sizes :
        length (encode string arg ++ encode_args ts args)
        ≡ length (encode string arg) + length (encode_args ts args)
    sizes = length-append (encode string arg) (encode_args ts args)

    whole : length (encode string arg) ≡ 8 + length arg
    whole =
        omega (arith, length-append (to_bytes 8 (length arg)) arg, length-to_bytes 8 (length arg))

    step : u16 (sz + u16 (header_size + u16 (length arg))) ≡ sz + length (encode string arg)
    step = omega (arith, whole, sizes, h)
size_of_args_from z (vector t ∷ ts) (arg, args) sz nv a h = absurd nv

-- Without vectors, `sizeOfArgs` is the size that the arguments will have on the wire, if that
-- fits a SIZE_TYPE.
pub size_of_args_lem :
    (z : Sizes) (ts : List Ty) (args : Args ts)
    → NoVectors ts
    → AreValues ts args
    → length (encode_args ts args) < 2 ^ 16
    → size_of_args z ts args 0 ≡ length (encode_args ts args)
size_of_args_lem z ts args nv a h =
    size_of_args_from z ts args 0 nv a (omega (arith, h)) ∙ omega arith
