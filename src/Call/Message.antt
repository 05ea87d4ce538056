-- ===== src/Call/Message.antt =====
-- IPCCall.h: the bytes of a call on the wire, and the two `serialize` functions.
use native.Mathlib.Nat.{mod-eq_of_lt, add-zero}
use psi_shared.Base.{
  ℕ, ◌+◌, ◌<◌, ◌^◌, ◌≡◌, ap, ap₂, ◌∙◌, List, ◌++◌, append_assoc, arith, length, length-append,
  write_at, write_at-write_at, write_at_before, to_bytes, length-to_bytes,
}
use psi_shared.Protocol.{Ty, Args}
use psi_shared.Protocol.Serializer.{Memory}
use psi_shared.Protocol.Encoding.{encode_args, AreValues}
use psi_shared.Protocol.Write.{serialize_tuples_lem}
use psi_shared.Call.{IpcCall, head_sz, write_head, serialize, serialize_with_args}

abbrev pub head_bytes : IpcCall → List ℕ
head_bytes c =
    to_bytes 8 c.call_id
    ++ (to_bytes 2 c.method_id ++ (to_bytes 2 c.client_id ++ to_bytes 2 c.cb_index))

-- A whole call: the header, the size of the arguments, the arguments.
abbrev pub call_bytes : IpcCall → List ℕ → List ℕ
call_bytes c args = head_bytes c ++ (to_bytes 2 (length args) ++ args)

pub length-head_bytes : (c : IpcCall) → length (head_bytes c) ≡ head_sz
length-head_bytes c = omega (
  arith,
  length-append (to_bytes 8 c.call_id)
      (to_bytes 2 c.method_id ++ (to_bytes 2 c.client_id ++ to_bytes 2 c.cb_index)),
  length-append (to_bytes 2 c.method_id) (to_bytes 2 c.client_id ++ to_bytes 2 c.cb_index),
  length-append (to_bytes 2 c.client_id) (to_bytes 2 c.cb_index),
  length-to_bytes 8 c.call_id,
  length-to_bytes 2 c.method_id,
  length-to_bytes 2 c.client_id,
  length-to_bytes 2 c.cb_index,
)

pub length-call_bytes :
    (c : IpcCall) (args : List ℕ) → length (call_bytes c args) ≡ head_sz + 2 + length args
length-call_bytes c args = omega (
  arith,
  length-append (head_bytes c) (to_bytes 2 (length args) ++ args),
  length-append (to_bytes 2 (length args)) args,
  length-head_bytes c,
  length-to_bytes 2 (length args),
)

-- A write behind `front`, whose size is known.
next_write :
    (m : Memory) (buffer n : ℕ) (front back : List ℕ)
    → length front ≡ n
    → write_at (write_at m buffer front) (buffer + n) back ≡ write_at m buffer (front ++ back)
next_write m buffer n front back e = rw (← e) (write_at-write_at m buffer front back)

write_head_lem :
    (c : IpcCall) (buffer : ℕ) (m : Memory)
    → write_head c buffer m ≡ (write_at m buffer (head_bytes c), head_sz)
unfolding write_head
write_head_lem c buffer m =
    rw
      (
        add-zero,
        next_write m buffer 8 id method (length-to_bytes 8 c.call_id),
        next_write m buffer 10 (id ++ method) client two,
        next_write m buffer 12 ((id ++ method) ++ client) index three,
      )
      (ap (λ bytes. (write_at m buffer bytes, head_sz))
        (append_assoc (id ++ method) client index ∙ append_assoc id method (client ++ index)))
  where
    id : List ℕ
    id = to_bytes 8 c.call_id

    method : List ℕ
    method = to_bytes 2 c.method_id

    client : List ℕ
    client = to_bytes 2 c.client_id

    index : List ℕ
    index = to_bytes 2 c.cb_index

    two : length (id ++ method) ≡ 10
    two =
        omega (
          arith,
          length-append id method,
          length-to_bytes 8 c.call_id,
          length-to_bytes 2 c.method_id,
        )

    three : length ((id ++ method) ++ client) ≡ 12
    three = omega (arith, length-append (id ++ method) client, two, length-to_bytes 2 c.client_id)

-- `serialize` writes the header and the size field, 16 bytes.
pub serialize_lem :
    (c : IpcCall) (buffer : ℕ) (m : Memory)
    → serialize c buffer m ≡ (write_at m buffer (head_bytes c ++ to_bytes 2 c.args_sz), head_sz + 2)
unfolding serialize
serialize_lem c buffer m = rw (
  write_head_lem c buffer m,
  next_write m buffer 14 (head_bytes c) (to_bytes 2 c.args_sz) (length-head_bytes c),
)

-- `serialize_with_args` writes the call with its arguments as one block at `buffer`, returns the
-- size of that block and keeps the size of the arguments, if the arguments fit a SIZE_TYPE.
pub serialize_with_args_lem :
    (ts : List Ty) (args : Args ts) (c : IpcCall) (buffer : ℕ) (m : Memory)
    → AreValues ts args
    → length (encode_args ts args) < 2 ^ 16
    → serialize_with_args ts args c buffer m ≡ (
      record c { args_sz = length (encode_args ts args) },
      write_at m buffer (call_bytes c (encode_args ts args)),
      head_sz + 2 + length (encode_args ts args),
    )
unfolding serialize_with_args
serialize_with_args_lem ts args c buffer m a h =
    rw (write_head_lem c buffer m, serialize_tuples_lem ts (buffer + 14 + 2) args _ a h)
      (ap₂ (λ k n. (record c { args_sz = length bytes }, k, n)) stored
        (mod-eq_of_lt (omega (arith, h))))
  where
    bytes : List ℕ
    bytes = encode_args ts args

    size : List ℕ
    size = to_bytes 2 (length bytes)

    stored :
        write_at
          (write_at (write_at m buffer (head_bytes c)) (buffer + 14 + 2) bytes)
          (buffer + 14)
          size
        ≡ write_at m buffer (call_bytes c bytes)
    stored =
        ap
          (λ at. write_at (write_at (write_at m buffer (head_bytes c)) at bytes) (buffer + 14) size)
          {x = buffer + 14 + 2} {y = buffer + 14 + length size}
          (omega (arith, length-to_bytes 2 (length bytes)))
        ∙ write_at_before (write_at m buffer (head_bytes c)) (buffer + 14) size bytes
        ∙ next_write m buffer 14 (head_bytes c) (size ++ bytes) (length-head_bytes c)
