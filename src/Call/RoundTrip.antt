-- ===== src/Call/RoundTrip.antt =====
-- IPCCall.h: what the receiver reads from a call that was written.
use native.Mathlib.Nat.{mod-eq_of_lt}
use psi_shared.Base.{
  ℕ, ◌+◌, ◌≤◌, ◌<◌, ◌^◌, ◌≡◌, refl, ap, ◌∙◌, List, ◌++◌, append_assoc, arith, length, length-append,
  drop, drop-write_at, read_at_front, drop_front, write_at, u32, to_bytes, of_bytes,
  length-to_bytes, of_bytes-to_bytes, ltb, if◌then◌else◌,
}
use psi_shared.Protocol.{Ty, Args}
use psi_shared.Protocol.Serializer.{Memory}
use psi_shared.Protocol.Encoding.{encode_args, AreValues}
use psi_shared.Call.{IpcCall, max_args_sz, read_field, serialize, serialize_with_args, deserialize}
use psi_shared.Call.Message.{
  head_bytes, call_bytes, length-head_bytes, length-call_bytes, serialize_lem,
  serialize_with_args_lem,
}

-- The fields are a uint64_t and three uint16_t.
pub record InRange (c : IpcCall) : Type 0 where
  pub id_fits : c.call_id < 2 ^ 64
  pub method_fits : c.method_id < 2 ^ 16
  pub client_fits : c.client_id < 2 ^ 16
  pub index_fits : c.cb_index < 2 ^ 16

-- A field read at an offset behind which its bytes stand, and what stands behind them.
read_field_lem :
    (size : ℕ) (m : Memory) (at v : ℕ) (rest : List ℕ)
    → drop at m ≡ to_bytes size v ++ rest
    → v < 256 ^ size
    → (read_field size m at ≡ (v, size)) × (drop (at + size) m ≡ rest)
unfolding read_field
read_field_lem size m at v rest h fits = (
  ap (λ n. (n, size))
      (ap of_bytes (read_at_front m at size (to_bytes size v) rest (length-to_bytes size v) h)
        ∙ of_bytes-to_bytes size v fits),
  drop_front m at (at + size) (to_bytes size v) rest (ap (λ n. at + n) (length-to_bytes size v)) h,
)

-- What `deserialize` makes of a size: too large for a slot is taken for none.
abbrev pub checked : ℕ → IpcCall → IpcCall
checked slot_sz c = record c {
  args_sz = if ltb (max_args_sz slot_sz) c.args_sz then 0 else c.args_sz;
}

-- Where a call's header and size stand behind `offset`, `deserialize` reads them back; only a size
-- above `MAX_ARGS_SZ` is replaced by 0.
pub deserialize_lem :
    (slot_sz : ℕ) (m : Memory) (offset : ℕ) (c : IpcCall) (rest : List ℕ)
    → InRange c
    → c.args_sz < 2 ^ 16
    → offset + 16 < 2 ^ 32
    → drop offset m ≡ head_bytes c ++ (to_bytes 2 c.args_sz ++ rest)
    → deserialize slot_sz m offset ≡ checked slot_sz c
unfolding deserialize
deserialize_lem slot_sz m offset c rest v hs ho h = rw (
  id.0,
  small (offset + 8) (omega (arith, ho)),
  method.0,
  small (offset + 8 + 2) (omega (arith, ho)),
  client.0,
  small (offset + 8 + 2 + 2) (omega (arith, ho)),
  index.0,
  small (offset + 8 + 2 + 2 + 2) (omega (arith, ho)),
  size.0,
)
  where
    small : (n : ℕ) → n < 2 ^ 32 → u32 n ≡ n
    small n p = mod-eq_of_lt p

    after_index : List ℕ
    after_index = to_bytes 2 c.args_sz ++ rest

    after_client : List ℕ
    after_client = to_bytes 2 c.cb_index ++ after_index

    after_method : List ℕ
    after_method = to_bytes 2 c.client_id ++ after_client

    after_id : List ℕ
    after_id = to_bytes 2 c.method_id ++ after_method

    split : drop offset m ≡ to_bytes 8 c.call_id ++ after_id
    split = simp append_assoc at h

    id : (read_field 8 m offset ≡ (c.call_id, 8)) × (drop (offset + 8) m ≡ after_id)
    id = read_field_lem 8 m offset c.call_id after_id split v.id_fits

    method :
        (read_field 2 m (offset + 8) ≡ (c.method_id, 2)) × (drop (offset + 8 + 2) m ≡ after_method)
    method = read_field_lem 2 m (offset + 8) c.method_id after_method id.1 v.method_fits

    client :
        (read_field 2 m (offset + 8 + 2) ≡ (c.client_id, 2))
        × (drop (offset + 8 + 2 + 2) m ≡ after_client)
    client = read_field_lem 2 m (offset + 8 + 2) c.client_id after_client method.1 v.client_fits

    index :
        (read_field 2 m (offset + 8 + 2 + 2) ≡ (c.cb_index, 2))
        × (drop (offset + 8 + 2 + 2 + 2) m ≡ after_index)
    index = read_field_lem 2 m (offset + 8 + 2 + 2) c.cb_index after_index client.1 v.index_fits

    size :
        (read_field 2 m (offset + 8 + 2 + 2 + 2) ≡ (c.args_sz, 2))
        × (drop (offset + 8 + 2 + 2 + 2 + 2) m ≡ rest)
    size = read_field_lem 2 m (offset + 8 + 2 + 2 + 2) c.args_sz rest index.1 hs

-- A call that was serialized with arguments is deserialized with the same fields and the size of
-- the arguments, checked against the size of a slot, and the result is 16 more than that size, if
-- the fields are in their ranges, the arguments fit a SIZE_TYPE, and all of it lies inside the
-- memory.
pub deserialize-serialize_with_args :
    (slot_sz : ℕ) (ts : List Ty) (args : Args ts) (c : IpcCall) (buffer : ℕ) (m : Memory)
    → InRange c
    → AreValues ts args
    → length (encode_args ts args) < 2 ^ 16
    → buffer + 16 < 2 ^ 32
    → buffer + 16 + length (encode_args ts args) ≤ length m
    → let (c', m', sz) = serialize_with_args ts args c buffer m in
      (deserialize slot_sz m' buffer ≡ checked slot_sz c') × (sz ≡ 16 + c'.args_sz)
deserialize-serialize_with_args slot_sz ts args c buffer m v a h hb fits =
    rw (serialize_with_args_lem ts args c buffer m a h) (
      deserialize_lem slot_sz _ buffer (record c { args_sz = length bytes }) (bytes ++ after)
          (record {
            id_fits = v.id_fits;
            method_fits = v.method_fits;
            client_fits = v.client_fits;
            index_fits = v.index_fits;
          })
          h hb stands,
      refl,
    )
  where
    bytes : List ℕ
    bytes = encode_args ts args

    after : List ℕ
    after = drop (buffer + length (call_bytes c bytes)) m

    stands :
        drop buffer (write_at m buffer (call_bytes c bytes))
        ≡ head_bytes c ++ (to_bytes 2 (length bytes) ++ (bytes ++ after))
    stands =
        drop-write_at m buffer (call_bytes c bytes) (omega (arith, length-call_bytes c bytes))
        ∙ append_assoc (head_bytes c) (to_bytes 2 (length bytes) ++ bytes) after
        ∙ ap (λ t. head_bytes c ++ t) (append_assoc (to_bytes 2 (length bytes)) bytes after)

-- A call that was serialized without arguments, with 16 bytes, is deserialized with the same
-- fields, the size of its arguments checked against the size of a slot, if its fields are in
-- their ranges and the 16 bytes lie inside the memory.
pub deserialize-serialize :
    (slot_sz : ℕ) (c : IpcCall) (buffer : ℕ) (m : Memory)
    → InRange c
    → c.args_sz < 2 ^ 16
    → buffer + 16 < 2 ^ 32
    → buffer + 16 ≤ length m
    → let (m', sz) = serialize c buffer m in
      (deserialize slot_sz m' buffer ≡ checked slot_sz c) × (sz ≡ 16)
deserialize-serialize slot_sz c buffer m v hs hb fits = rw (serialize_lem c buffer m) (
  deserialize_lem slot_sz _ buffer c _ v hs hb (
      drop-write_at m buffer (head_bytes c ++ to_bytes 2 c.args_sz) (omega (arith, size))
      ∙ append_assoc (head_bytes c) (to_bytes 2 c.args_sz) _),
  refl,
)
  where
    size : length (head_bytes c ++ to_bytes 2 c.args_sz) ≡ 16
    size = omega (
      arith,
      length-append (head_bytes c) (to_bytes 2 c.args_sz),
      length-head_bytes c,
      length-to_bytes 2 c.args_sz,
    )
