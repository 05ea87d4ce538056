-- ===== src/Protocol/Write.antt =====
-- Serializer.h and the wire format.
use native.Mathlib.Nat.{mod-eq_of_lt, le_refl}
use psi_shared.Base.{
  ℕ, ◌+◌, ◌<◌, ◌^◌, ◌≡◌, sym, ap, ap₂, ◌∙◌, List, [], ◌∷◌, ◌++◌, arith, length, append-nil,
  append_assoc, length-append, take_all, write_at, write_at-write_at, write_at-nil, to_bytes,
  length-to_bytes,
}
use psi_shared.Protocol.{Ty, trivial, string, vector, Val, Args}
use psi_shared.Protocol.Serializer.{
  Memory, serialize_trivial, serialize_string, serialize_elements, serialize_vector, serialize_type,
  serialize_pack, serialize_tuple, serialize_tuples,
}
use psi_shared.Protocol.Encoding.{encode, encode_args, joined, All, IsValue, AreValues}

-- The memory and size that a write of `bytes` at `buffer` leaves.
abbrev pub written : ℕ → List ℕ → Memory → Memory × ℕ
written buffer bytes m = (write_at m buffer bytes, length bytes)

-- A write behind another one that is `n` bytes long.
then_written :
    (buffer n : ℕ) (front back : List ℕ) (m : Memory)
    → length front ≡ n
    → write_at (write_at m buffer front) (buffer + n) back ≡ write_at m buffer (front ++ back)
then_written buffer n front back m e = rw (← e) (write_at-write_at m buffer front back)

serialize_trivial_lem :
    (n buffer : ℕ) (v : List ℕ) (m : Memory)
    → length v ≡ n
    → n < 2 ^ 16
    → serialize_trivial n buffer v m ≡ written buffer v m
unfolding serialize_trivial
serialize_trivial_lem n buffer v m e h =
    ap₂ (λ bytes sz. (write_at m buffer bytes, sz)) (take_all n v (omega (arith, e)))
      (mod-eq_of_lt h ∙ sym e)

serialize_string_lem :
    (buffer : ℕ) (str : List ℕ) (m : Memory)
    → length (encode string str) < 2 ^ 16
    → serialize_string buffer str m ≡ written buffer (encode string str) m
unfolding serialize_string encode
serialize_string_lem buffer str m h = rw (mod-eq_of_lt short) (
    ap₂ (λ bytes sz. (bytes, sz))
      (rw (take_all 8 header (omega (arith, size)), take_all (length str) str (le_refl _))
        (then_written buffer 8 header str m size))
      (mod-eq_of_lt (omega (arith, whole)) ∙ omega (arith, whole)))
  where
    header : List ℕ
    header = to_bytes 8 (length str)

    size : length header ≡ 8
    size = length-to_bytes 8 (length str)

    whole : length (header ++ str) ≡ 8 + length str
    whole = omega (arith, length-append header str, size)

    short : length str < 2 ^ 16
    short = omega (arith, h, whole)

serialize_elements_lem :
    (t : Ty) (buffer : ℕ) (xs : List (Val t)) (front : List ℕ) (m : Memory)
    → ((at : ℕ) (x : Val t) (k : Memory)
        → IsValue t x
        → length (encode t x) < 2 ^ 16
        → serialize_type t at x k ≡ written at (encode t x) k)
    → All (IsValue t) xs
    → length front + length (joined (encode t) xs) < 2 ^ 16
    → serialize_elements (serialize_type t) buffer (length front) xs (write_at m buffer front)
      ≡ written buffer (front ++ joined (encode t) xs) m
unfolding serialize_elements
serialize_elements_lem t buffer [] front m h a fits =
    ap (λ bytes. written buffer bytes m) (sym (append-nil front))
serialize_elements_lem t buffer (x ∷ xs) front m h a fits =
    rw (h (buffer + length front) x (write_at m buffer front) a.0 (omega (arith, sizes, fits))) (
      ap₂ (λ n k. serialize_elements (serialize_type t) buffer n xs k)
        (mod-eq_of_lt (omega (arith, sizes, fits)) ∙ sym (length-append front (encode t x)))
        (write_at-write_at m buffer front (encode t x))
      ∙ serialize_elements_lem t buffer xs (front ++ encode t x) m h a.1
          (omega (arith, length-append front (encode t x), sizes, fits))
      ∙ ap (λ bytes. written buffer bytes m)
          (append_assoc front (encode t x) (joined (encode t) xs)))
  where
    sizes :
        length (joined (encode t) (x ∷ xs)) ≡ length (encode t x) + length (joined (encode t) xs)
    sizes = length-append (encode t x) (joined (encode t) xs)

serialize_vector_lem :
    (t : Ty) (buffer : ℕ) (xs : List (Val t)) (m : Memory)
    → ((at : ℕ) (x : Val t) (k : Memory)
        → IsValue t x
        → length (encode t x) < 2 ^ 16
        → serialize_type t at x k ≡ written at (encode t x) k)
    → length xs < 2 ^ 64
    → All (IsValue t) xs
    → length (to_bytes 8 (length xs) ++ joined (encode t) xs) < 2 ^ 16
    → serialize_vector (serialize_type t) buffer xs m
      ≡ written buffer (to_bytes 8 (length xs) ++ joined (encode t) xs) m
unfolding serialize_vector
serialize_vector_lem t buffer xs m h n a fits =
    rw (mod-eq_of_lt n, take_all 8 header (omega (arith, size)))
      (ap (λ k. serialize_elements (serialize_type t) buffer k xs (write_at m buffer header))
          (sym size)
        ∙ serialize_elements_lem t buffer xs header m h a
            (omega (arith, fits, length-append header (joined (encode t) xs))))
  where
    header : List ℕ
    header = to_bytes 8 (length xs)

    size : length header ≡ 8
    size = length-to_bytes 8 (length xs)

-- A value whose encoding fits a SIZE_TYPE is written as its encoding, and the result is its size.
pub serialize_type_lem :
    (t : Ty) (buffer : ℕ) (v : Val t) (m : Memory)
    → IsValue t v
    → length (encode t v) < 2 ^ 16
    → serialize_type t buffer v m ≡ written buffer (encode t v) m
unfolding serialize_type encode
serialize_type_lem (trivial n) buffer v m e h =
    serialize_trivial_lem n buffer v m e (omega (arith, e))
serialize_type_lem string buffer v m e h = serialize_string_lem buffer v m h
serialize_type_lem (vector t) buffer v m e h =
    serialize_vector_lem t buffer v m (serialize_type_lem t) e.0 e.1 h

-- Any number of arguments, by the overload that takes them all: the same with their encodings one
-- after the other.
pub serialize_pack_lem :
    (ts : List Ty) (buffer : ℕ) (args : Args ts) (m : Memory)
    → AreValues ts args
    → length (encode_args ts args) < 2 ^ 16
    → serialize_pack ts buffer args m ≡ written buffer (encode_args ts args) m
unfolding serialize_pack encode_args
serialize_pack_lem [] buffer args m a h = ap (λ k. (k, 0)) (sym (write_at-nil m buffer))
serialize_pack_lem (t ∷ ts) buffer (arg, args) m a h =
    rw
      (
        serialize_type_lem t buffer arg m a.0 (omega (arith, sizes, h)),
        serialize_pack_lem ts (buffer + length (encode t arg)) args
            (write_at m buffer (encode t arg)) a.1 (omega (arith, sizes, h)),
      )
      (ap₂ (λ k sz. (k, sz)) (write_at-write_at m buffer (encode t arg) (encode_args ts args))
        (mod-eq_of_lt (omega (arith, sizes, h)) ∙ sym sizes))
  where
    sizes :
        length (encode t arg ++ encode_args ts args)
        ≡ length (encode t arg) + length (encode_args ts args)
    sizes = length-append (encode t arg) (encode_args ts args)

serialize_tuples_from :
    (ts : List Ty) (buffer : ℕ) (args : Args ts) (front : List ℕ) (m : Memory)
    → AreValues ts args
    → length front + length (encode_args ts args) < 2 ^ 16
    → serialize_tuples ts buffer args (length front) (write_at m buffer front)
      ≡ written buffer (front ++ encode_args ts args) m
unfolding serialize_tuples serialize_tuple encode_args
serialize_tuples_from [] buffer args front m a h =
    ap (λ bytes. written buffer bytes m) (sym (append-nil front))
serialize_tuples_from (t ∷ ts) buffer (arg, args) front m a h =
    rw
      (serialize_type_lem t (buffer + length front) arg (write_at m buffer front) a.0
        (omega (arith, sizes, h)))
      (ap₂ (λ n k. serialize_tuples ts buffer args n k)
          (mod-eq_of_lt (omega (arith, sizes, h)) ∙ sym (length-append front (encode t arg)))
          (write_at-write_at m buffer front (encode t arg))
        ∙ serialize_tuples_from ts buffer args (front ++ encode t arg) m a.1
            (omega (arith, length-append front (encode t arg), sizes, h))
        ∙ ap (λ bytes. written buffer bytes m)
            (append_assoc front (encode t arg) (encode_args ts args)))
  where
    sizes :
        length (encode t arg ++ encode_args ts args)
        ≡ length (encode t arg) + length (encode_args ts args)
    sizes = length-append (encode t arg) (encode_args ts args)

-- The arguments of a tuple, added one by one to what `sz` counts: the same encoding.
pub serialize_tuples_lem :
    (ts : List Ty) (buffer : ℕ) (args : Args ts) (m : Memory)
    → AreValues ts args
    → length (encode_args ts args) < 2 ^ 16
    → serialize_tuples ts buffer args 0 m ≡ written buffer (encode_args ts args) m
serialize_tuples_lem ts buffer args m a h =
    ap (serialize_tuples ts buffer args 0) (sym (write_at-nil m buffer))
    ∙ serialize_tuples_from ts buffer args [] m a (omega (arith, h))
