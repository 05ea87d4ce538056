-- ===== src/Protocol/Read.antt =====
-- Deserializer.h and the wire format.
use native.Mathlib.Nat.{mod-eq_of_lt}
use psi_shared.Base.{
  ℕ, ◌+◌, ◌/◌, ◌≤◌, ◌<◌, ◌^◌, ◌≡◌, refl, ap, ap₂, ◌∙◌, List, [], ◌∷◌, ◌++◌, arith, length,
  length-append, append_assoc, drop, read_at, read_at_front, drop_front, u16_max, of_bytes,
  to_bytes, length-to_bytes, of_bytes-to_bytes,
}
use psi_shared.Protocol.{Ty, trivial, string, vector, Val, Args, Sizes, size_of, header_size}
use psi_shared.Protocol.Serializer.{Memory}
use psi_shared.Protocol.Deserializer.{
  deserialize_trivial, deserialize_string, deserialize_elements, deserialize_vector,
  deserialize_type, deserialize_tuples, deserialize_variadic,
}
use psi_shared.Protocol.Encoding.{encode, encode_args, joined, All, IsReadable, AreReadable}

-- Behind the offset stand these bytes.
abbrev pub StartsWith : Memory → ℕ → List ℕ → List ℕ → Type 0
StartsWith m offset bytes rest = drop offset m ≡ bytes ++ rest

pub deserialize_trivial_lem :
    (n : ℕ) (m : Memory) (offset : ℕ) (v rest : List ℕ)
    → StartsWith m offset v rest
    → length v ≡ n
    → offset + n < 2 ^ 16
    → deserialize_trivial n m offset ≡ (v, offset + n)
unfolding deserialize_trivial
deserialize_trivial_lem n m offset v rest at e h =
    ap₂ (λ a b. (a, b)) (read_at_front m offset n v rest e at) (mod-eq_of_lt h)

-- A header of eight bytes, read back as the number that it stands for.
header_lem :
    (m : Memory) (offset len : ℕ) (rest : List ℕ)
    → StartsWith m offset (to_bytes 8 len) rest
    → len < 2 ^ 64
    → offset + 8 < 2 ^ 16
    → (of_bytes (deserialize_trivial header_size m offset).0 ≡ len)
      × ((deserialize_trivial header_size m offset).1 ≡ offset + 8)
      × (drop (offset + 8) m ≡ rest)
header_lem m offset len rest at hl h = (
  rw read (of_bytes-to_bytes 8 len hl),
  rw read,
  drop_front m offset (offset + 8) (to_bytes 8 len) rest (omega (arith, length-to_bytes 8 len)) at,
)
  where
    read : deserialize_trivial header_size m offset ≡ (to_bytes 8 len, offset + 8)
    read = deserialize_trivial_lem 8 m offset (to_bytes 8 len) rest at (length-to_bytes 8 len) h

deserialize_string_lem :
    (m : Memory) (offset : ℕ) (str rest : List ℕ)
    → StartsWith m offset (to_bytes 8 (length str) ++ str) rest
    → offset + length (to_bytes 8 (length str) ++ str) < 2 ^ 16
    → deserialize_string m offset ≡ (str, offset + length (to_bytes 8 (length str) ++ str))
unfolding deserialize_string
deserialize_string_lem m offset str rest at h =
    ground (arith, head.0, head.1, sizes, whole, empty str)
  where
    header : List ℕ
    header = to_bytes 8 (length str)

    sizes : length (header ++ str) ≡ 8 + length str
    sizes = omega (arith, length-append header str, length-to_bytes 8 (length str))

    head :
        (of_bytes (deserialize_trivial header_size m offset).0 ≡ length str)
        × ((deserialize_trivial header_size m offset).1 ≡ offset + 8)
        × (drop (offset + 8) m ≡ str ++ rest)
    head =
        header_lem m offset (length str) (str ++ rest) (at ∙ append_assoc header str rest)
          (omega (arith, sizes, h)) (omega (arith, sizes, h))

    whole : read_at m (offset + 8) (length str) ≡ str
    whole = read_at_front m (offset + 8) (length str) str rest refl head.2

    empty : (s : List ℕ) → length s ≡ 0 → s ≡ []
    empty [] e = refl
    empty (c ∷ cs) e = absurd (omega arith)

deserialize_elements_lem :
    (z : Sizes) (t : Ty) (m : Memory) (offset : ℕ) (xs : List (Val t)) (rest : List ℕ)
    → ((at : ℕ) (x : Val t) (r : List ℕ)
        → IsReadable z t x
        → StartsWith m at (encode t x) r
        → at + length (encode t x) < 2 ^ 16
        → deserialize_type z t m at ≡ (x, at + length (encode t x)))
    → All (IsReadable z t) xs
    → StartsWith m offset (joined (encode t) xs) rest
    → offset + length (joined (encode t) xs) < 2 ^ 16
    → deserialize_elements (deserialize_type z t) (length xs) m offset
      ≡ (xs, offset + length (joined (encode t) xs))
unfolding deserialize_elements
deserialize_elements_lem z t m offset [] rest d a at h = ap (λ n. ([], n)) (omega arith)
deserialize_elements_lem z t m offset (x ∷ xs) rest d a at h =
    rw
      (
        d offset x (joined (encode t) xs ++ rest) a.0 here (omega (arith, sizes, h)),
        deserialize_elements_lem z t m (offset + length (encode t x)) xs rest d a.1 later
            (omega (arith, sizes, h)),
      )
      (ap (λ n. (x ∷ xs, n)) (omega (arith, sizes)))
  where
    sizes :
        length (joined (encode t) (x ∷ xs)) ≡ length (encode t x) + length (joined (encode t) xs)
    sizes = length-append (encode t x) (joined (encode t) xs)

    here : StartsWith m offset (encode t x) (joined (encode t) xs ++ rest)
    here = at ∙ append_assoc (encode t x) (joined (encode t) xs) rest

    later : StartsWith m (offset + length (encode t x)) (joined (encode t) xs) rest
    later = drop_front m offset _ (encode t x) _ refl here

deserialize_vector_lem :
    (z : Sizes) (t : Ty) (m : Memory) (offset : ℕ) (xs : List (Val t)) (rest : List ℕ)
    → ((at : ℕ) (x : Val t) (r : List ℕ)
        → IsReadable z t x
        → StartsWith m at (encode t x) r
        → at + length (encode t x) < 2 ^ 16
        → deserialize_type z t m at ≡ (x, at + length (encode t x)))
    → length xs ≤ u16_max / size_of z t
    → All (IsReadable z t) xs
    → StartsWith m offset (to_bytes 8 (length xs) ++ joined (encode t) xs) rest
    → offset + length (to_bytes 8 (length xs) ++ joined (encode t) xs) < 2 ^ 16
    → deserialize_vector (size_of z t) (deserialize_type z t) m offset
      ≡ (xs, offset + length (to_bytes 8 (length xs) ++ joined (encode t) xs))
unfolding deserialize_vector
deserialize_vector_lem z t m offset xs rest d n a at h =
    ground (arith, head.0, head.1, sizes, elements, empty xs)
  where
    header : List ℕ
    header = to_bytes 8 (length xs)

    sizes : length (header ++ joined (encode t) xs) ≡ 8 + length (joined (encode t) xs)
    sizes =
        omega (arith, length-append header (joined (encode t) xs), length-to_bytes 8 (length xs))

    head :
        (of_bytes (deserialize_trivial header_size m offset).0 ≡ length xs)
        × ((deserialize_trivial header_size m offset).1 ≡ offset + 8)
        × (drop (offset + 8) m ≡ joined (encode t) xs ++ rest)
    head =
        header_lem m offset (length xs) (joined (encode t) xs ++ rest)
          (at ∙ append_assoc header (joined (encode t) xs) rest) (omega (arith, n))
          (omega (arith, sizes, h))

    elements :
        deserialize_elements (deserialize_type z t) (length xs) m (offset + 8)
        ≡ (xs, offset + 8 + length (joined (encode t) xs))
    elements =
        deserialize_elements_lem z t m (offset + 8) xs rest d a head.2 (omega (arith, sizes, h))

    empty : (ys : List (Val t)) → length ys ≡ 0 → (ys ≡ []) × (joined (encode t) ys ≡ [])
    empty [] e = (refl, refl)
    empty (y ∷ ys) e = absurd (omega arith)

-- Where the memory from `offset` on begins with a value's encoding, `deserializeType` returns the
-- value and leaves `offset` behind the encoding, as long as that still fits a SIZE_TYPE.
pub deserialize_type_lem :
    (z : Sizes) (t : Ty) (m : Memory) (offset : ℕ) (v : Val t) (rest : List ℕ)
    → IsReadable z t v
    → StartsWith m offset (encode t v) rest
    → offset + length (encode t v) < 2 ^ 16
    → deserialize_type z t m offset ≡ (v, offset + length (encode t v))
unfolding deserialize_type encode
deserialize_type_lem z (trivial n) m offset v rest r at h =
    rw r (deserialize_trivial_lem n m offset v rest at r (omega (arith, r)))
deserialize_type_lem z string m offset v rest r at h = deserialize_string_lem m offset v rest at h
deserialize_type_lem z (vector t) m offset v rest r at h =
    deserialize_vector_lem z t m offset v rest (λ at' x r'. deserialize_type_lem z t m at' x r') r.0
      r.1 at h

-- A tuple's elements are read one after the other.
pub deserialize_tuples_lem :
    (z : Sizes) (ts : List Ty) (m : Memory) (offset : ℕ) (args : Args ts) (rest : List ℕ)
    → AreReadable z ts args
    → StartsWith m offset (encode_args ts args) rest
    → offset + length (encode_args ts args) < 2 ^ 16
    → deserialize_tuples z ts m offset ≡ (args, offset + length (encode_args ts args))
unfolding deserialize_tuples encode_args
deserialize_tuples_lem z [] m offset args rest r at h = ap (λ n. (args, n)) (omega arith)
deserialize_tuples_lem z (t ∷ ts) m offset (arg, args) rest r at h =
    rw
      (
        deserialize_type_lem z t m offset arg (encode_args ts args ++ rest) r.0 here
            (omega (arith, sizes, h)),
        deserialize_tuples_lem z ts m (offset + length (encode t arg)) args rest r.1 later
            (omega (arith, sizes, h)),
      )
      (ap (λ n. ((arg, args), n)) (omega (arith, sizes)))
  where
    sizes :
        length (encode t arg ++ encode_args ts args)
        ≡ length (encode t arg) + length (encode_args ts args)
    sizes = length-append (encode t arg) (encode_args ts args)

    here : StartsWith m offset (encode t arg) (encode_args ts args ++ rest)
    here = at ∙ append_assoc (encode t arg) (encode_args ts args) rest

    later : StartsWith m (offset + length (encode t arg)) (encode_args ts args) rest
    later = drop_front m offset _ (encode t arg) _ refl here

-- So does `deserializeTypeVariadic`, with offsets of its own.
pub deserialize_variadic_lem :
    (z : Sizes) (t : Ty) (ts : List Ty) (m : Memory) (offset : ℕ)
    → deserialize_variadic z t ts m offset ≡ (deserialize_tuples z (t ∷ ts) m offset).0
unfolding deserialize_variadic deserialize_tuples
deserialize_variadic_lem z t [] m offset = refl
deserialize_variadic_lem z t (u ∷ ts) m offset =
    ap (λ args. ((deserialize_type z t m offset).0, args))
      (deserialize_variadic_lem z u ts m (deserialize_type z t m offset).1)
