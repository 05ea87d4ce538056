-- ===== src/Callback/RoundTrip.antt =====
-- IPCCallback.h: the bytes of an answer, written and read.
use native.Mathlib.Nat.{mod-eq_of_lt, add-zero}
use psi_shared.Base.{
  ℕ, ◌+◌, ◌≤◌, ◌<◌, ◌^◌, ◌≡◌, ◌≢◌, ap, ap₂, ◌∙◌, List, ◌++◌, append_assoc, arith, length,
  length-append, drop, drop-write_at, drop_front, write_at, write_at-write_at, write_at_before, u16,
  to_bytes, length-to_bytes, of_bytes-to_bytes, ne→==,
}
use psi_shared.Protocol.{Ty, string, Args, Sizes}
use psi_shared.Protocol.Serializer.{Memory}
use psi_shared.Protocol.Deserializer.{deserialize_trivial}
use psi_shared.Protocol.Encoding.{encode, encode_args, AreValues, AreReadable}
use psi_shared.Protocol.Write.{serialize_type_lem, serialize_tuples_lem}
use psi_shared.Protocol.Read.{deserialize_trivial_lem, deserialize_type_lem, deserialize_tuples_lem}
use psi_shared.Callback.{Answer, error_none, serialize, deserialize}

-- The bytes of an answer with values, and of one with an error.
abbrev pub value_bytes : (ts : List Ty) → Args ts → List ℕ
value_bytes ts args =
    to_bytes 2 error_none ++ (to_bytes 2 (length (encode_args ts args)) ++ encode_args ts args)

abbrev pub error_bytes : ℕ → List ℕ → List ℕ
error_bytes error_code error_msg = to_bytes 2 error_code ++ encode string error_msg

pub length-value_bytes :
    (ts : List Ty) (args : Args ts)
    → length (value_bytes ts args) ≡ 4 + length (encode_args ts args)
length-value_bytes ts args = omega (
  arith,
  length-append (to_bytes 2 error_none)
      (to_bytes 2 (length (encode_args ts args)) ++ encode_args ts args),
  length-append (to_bytes 2 (length (encode_args ts args))) (encode_args ts args),
  length-to_bytes 2 error_none,
  length-to_bytes 2 (length (encode_args ts args)),
)

pub length-error_bytes :
    (error_code : ℕ) (error_msg : List ℕ)
    → length (error_bytes error_code error_msg) ≡ 2 + length (encode string error_msg)
length-error_bytes error_code error_msg = omega (
  arith,
  length-append (to_bytes 2 error_code) (encode string error_msg),
  length-to_bytes 2 error_code,
)

next_write :
    (m : Memory) (buffer n : ℕ) (front back : List ℕ)
    → length front ≡ n
    → write_at (write_at m buffer front) (buffer + n) back ≡ write_at m buffer (front ++ back)
next_write m buffer n front back e = rw (← e) (write_at-write_at m buffer front back)

-- With values, `serialize` writes the code, the size and the values as one block, and returns its
-- size, if that fits a uint16_t.
pub serialize_values_lem :
    (ts : List Ty) (buffer : ℕ) (error_msg : List ℕ) (args : Args ts) (m : Memory)
    → AreValues ts args
    → 4 + length (encode_args ts args) < 2 ^ 16
    → serialize ts buffer error_none error_msg args m
      ≡ (write_at m buffer (value_bytes ts args), 4 + length (encode_args ts args))
unfolding serialize
serialize_values_lem ts buffer error_msg args m a h =
    rw
      (
        add-zero,
        serialize_tuples_lem ts (buffer + 4) args (write_at m buffer code) a (omega (arith, h)),
      )
      (ap₂ (λ k n. (k, n)) stored (ap u16 (omega arith) ∙ mod-eq_of_lt (omega (arith, h))))
  where
    bytes : List ℕ
    bytes = encode_args ts args

    code : List ℕ
    code = to_bytes 2 error_none

    size : List ℕ
    size = to_bytes 2 (length bytes)

    stored :
        write_at (write_at (write_at m buffer code) (buffer + 4) bytes) (buffer + 2) size
        ≡ write_at m buffer (value_bytes ts args)
    stored =
        ap (λ at. write_at (write_at (write_at m buffer code) at bytes) (buffer + 2) size)
          {x = buffer + 4} {y = buffer + 2 + length size}
          (omega (arith, length-to_bytes 2 (length bytes)))
        ∙ write_at_before (write_at m buffer code) (buffer + 2) size bytes
        ∙ next_write m buffer 2 code (size ++ bytes) (length-to_bytes 2 error_none)

-- With an error code, it writes the code and the message.
pub serialize_error_lem :
    (ts : List Ty) (buffer error_code : ℕ) (error_msg : List ℕ) (args : Args ts) (m : Memory)
    → error_code ≢ error_none
    → 2 + length (encode string error_msg) < 2 ^ 16
    → serialize ts buffer error_code error_msg args m
      ≡ (write_at m buffer (error_bytes error_code error_msg), 2 + length (encode string error_msg))
unfolding serialize
serialize_error_lem ts buffer error_code error_msg args m ne h =
    rw
      (
        ne→== error_code 0 ne,
        add-zero,
        serialize_type_lem string (buffer + 2) error_msg (write_at m buffer code) tt
            (omega (arith, h)),
      )
      (ap₂ (λ k n. (k, n))
        (next_write m buffer 2 code (encode string error_msg) (length-to_bytes 2 error_code))
        (mod-eq_of_lt h))
  where
    code : List ℕ
    code = to_bytes 2 error_code

-- An answer with values, read from where it was written, gives code 0 and the same values, and
-- leaves the message alone.
pub deserialize_values_lem :
    (z : Sizes) (ts : List Ty) (m : Memory) (args : Args ts) (rest : List ℕ) (a : Answer ts)
    → AreReadable z ts args
    → 4 + length (encode_args ts args) < 2 ^ 16
    → m ≡ value_bytes ts args ++ rest
    → deserialize z ts m a ≡ record a { error_code = error_none; args = args }
unfolding deserialize
deserialize_values_lem z ts m args rest a r h e =
    rw (code, of_bytes-to_bytes 2 error_none (omega arith), size)
      (ap (λ k. record a { error_code = error_none; args = k.0 })
        (deserialize_tuples_lem z ts (drop 4 m) 0 args rest r after_size (omega (arith, h))))
  where
    bytes : List ℕ
    bytes = encode_args ts args

    front : List ℕ
    front = to_bytes 2 error_none

    n : List ℕ
    n = to_bytes 2 (length bytes)

    whole : drop 0 m ≡ front ++ (n ++ (bytes ++ rest))
    whole =
        e ∙ append_assoc front (n ++ bytes) rest ∙ ap (λ t. front ++ t) (append_assoc n bytes rest)

    after_code : drop 2 m ≡ n ++ (bytes ++ rest)
    after_code =
        drop_front m 0 2 front (n ++ (bytes ++ rest)) (omega (arith, length-to_bytes 2 error_none))
          whole

    after_size : drop 4 m ≡ bytes ++ rest
    after_size =
        drop_front m 2 4 n (bytes ++ rest) (omega (arith, length-to_bytes 2 (length bytes)))
          after_code

    code : deserialize_trivial 2 m 0 ≡ (front, 2)
    code =
        deserialize_trivial_lem 2 m 0 front (n ++ (bytes ++ rest)) whole
          (length-to_bytes 2 error_none) (omega arith)

    size : deserialize_trivial 2 m 2 ≡ (n, 4)
    size =
        deserialize_trivial_lem 2 m 2 n (bytes ++ rest) after_code
          (length-to_bytes 2 (length bytes)) (omega arith)

-- An answer with an error gives the code and the message, and leaves the values alone.
pub deserialize_error_lem :
    (z : Sizes) (ts : List Ty) (m : Memory) (error_code : ℕ) (error_msg rest : List ℕ)
    (a : Answer ts)
    → error_code ≢ error_none
    → error_code < 2 ^ 16
    → 2 + length (encode string error_msg) < 2 ^ 16
    → m ≡ error_bytes error_code error_msg ++ rest
    → deserialize z ts m a ≡ record a { error_code = error_code; error_msg = error_msg }
unfolding deserialize
deserialize_error_lem z ts m error_code error_msg rest a ne hc h e =
    rw (code, of_bytes-to_bytes 2 error_code hc, ne→== error_code 0 ne)
      (ap (λ k. record a { error_code = error_code; error_msg = k.0 })
        (deserialize_type_lem z string m 2 error_msg rest tt after_code (omega (arith, h))))
  where
    front : List ℕ
    front = to_bytes 2 error_code

    whole : drop 0 m ≡ front ++ (encode string error_msg ++ rest)
    whole = e ∙ append_assoc front (encode string error_msg) rest

    after_code : drop 2 m ≡ encode string error_msg ++ rest
    after_code =
        drop_front m 0 2 front (encode string error_msg ++ rest)
          (omega (arith, length-to_bytes 2 error_code)) whole

    code : deserialize_trivial 2 m 0 ≡ (front, 2)
    code =
        deserialize_trivial_lem 2 m 0 front (encode string error_msg ++ rest) whole
          (length-to_bytes 2 error_code) (omega arith)

-- The server's answer with values reaches the client: written at the start of memory that has room
-- for it, it is read as code 0 with the same values, and the size that `serialize` returns is its
-- own, if the answer takes fewer than 2^16 bytes and each vector among the values has at most
-- `65535 / sizeof(T)` elements, by the size of an element in memory.
pub deserialize-serialize_values :
    (z : Sizes) (ts : List Ty) (error_msg : List ℕ) (args : Args ts) (m : Memory) (a : Answer ts)
    → AreValues ts args
    → AreReadable z ts args
    → 4 + length (encode_args ts args) < 2 ^ 16
    → 4 + length (encode_args ts args) ≤ length m
    → let (m', sz) = serialize ts 0 error_none error_msg args m in
      (deserialize z ts m' a ≡ record a { error_code = error_none; args = args })
      × (sz ≡ length (value_bytes ts args))
deserialize-serialize_values z ts error_msg args m a v r h fits =
    rw (serialize_values_lem ts 0 error_msg args m v h) (
      deserialize_values_lem z ts _ args _ a r h
          (drop-write_at m 0 (value_bytes ts args) (omega (arith, length-value_bytes ts args))),
      omega (arith, length-value_bytes ts args),
    )

-- An answer with a code that is not 0 and a message that fits a uint16_t reaches the client
-- likewise: it is read as that code and message, the values are left as they were, and the size
-- that `serialize` returns is its own.
pub deserialize-serialize_error :
    (z : Sizes) (ts : List Ty) (error_code : ℕ) (error_msg : List ℕ) (args : Args ts) (m : Memory)
    (a : Answer ts)
    → error_code ≢ error_none
    → error_code < 2 ^ 16
    → 2 + length (encode string error_msg) < 2 ^ 16
    → 2 + length (encode string error_msg) ≤ length m
    → let (m', sz) = serialize ts 0 error_code error_msg args m in
      (deserialize z ts m' a ≡ record a { error_code = error_code; error_msg = error_msg })
      × (sz ≡ length (error_bytes error_code error_msg))
deserialize-serialize_error z ts error_code error_msg args m a ne hc h fits =
    rw (serialize_error_lem ts 0 error_code error_msg args m ne h) (
      deserialize_error_lem z ts _ error_code error_msg _ a ne hc h (
          drop-write_at m 0 (error_bytes error_code error_msg)
            (omega (arith, length-error_bytes error_code error_msg))),
      omega (arith, length-error_bytes error_code error_msg),
    )
