-- ===== src/Call.antt =====
-- psi/include/psi/shared/ipc/IPCCall.h, with `write` and `read` of
-- psi/include/psi/shared/ipc/protocol/Serializable.h: the header in front of a call's arguments.
pub mod Message
pub mod RoundTrip
mod Tests
use psi_shared.Base.{
  ℕ, ◌+◌, ◌-◌, ◌^◌, ltb, if◌then◌else◌, List, write_at, read_at, u16, u32, to_bytes, of_bytes,
}
use psi_shared.Protocol.{Ty, Args}
use psi_shared.Protocol.Serializer.{Memory, serialize_tuples}

pub record IpcCall : Type 0 where
  pub call_id : ℕ
  pub method_id : ℕ
  pub client_id : ℕ
  pub cb_index : ℕ
  pub args_sz : ℕ

-- `HEAD_SZ`: the header without the size of the arguments.
abbrev pub head_sz : ℕ
head_sz = 14

-- `MAX_ARGS_SZ`, which wraps for a slot too small to hold a header.
abbrev pub max_args_sz : ℕ → ℕ
max_args_sz slot_sz = u16 (slot_sz + 2 ^ 16 - head_sz - 2)

-- `serializable::write` of an unsigned integer of so many bytes.
unfoldable pub write_field : ℕ → ℕ → ℕ → Memory → Memory × ℕ
write_field size buffer v m = (write_at m buffer (to_bytes size v), size)

-- `serializable::read`
unfoldable pub read_field : ℕ → Memory → ℕ → ℕ × ℕ
read_field size m buffer = (of_bytes (read_at m buffer size), size)

-- The first four writes of both `serialize` functions, and the offset behind them.
unfoldable pub write_head : IpcCall → ℕ → Memory → Memory × ℕ
unfolding write_field
write_head c buffer m =
    let (m1, n1) = write_field 8 (buffer + 0) c.call_id m in
    let (m2, n2) = write_field 2 (buffer + n1) c.method_id m1 in
    let (m3, n3) = write_field 2 (buffer + (n1 + n2)) c.client_id m2 in
    let (m4, n4) = write_field 2 (buffer + (n1 + n2 + n3)) c.cb_index m3 in (m4, n1 + n2 + n3 + n4)

unfoldable pub serialize : IpcCall → ℕ → Memory → Memory × ℕ
unfolding write_field
serialize c buffer m =
    let (m', offset) = write_head c buffer m in
    let (m'', n) = write_field 2 (buffer + offset) c.args_sz m' in (m'', u16 (offset + n))

-- The arguments are written behind the place of their size, then the size. The call keeps the size.
unfoldable pub serialize_with_args :
    (ts : List Ty) → Args ts → IpcCall → ℕ → Memory → IpcCall × Memory × ℕ
unfolding write_field
serialize_with_args ts args c buffer m =
    let (m', offset) = write_head c buffer m in
    let (m'', args_sz) = serialize_tuples ts (buffer + offset + 2) args 0 m' in
    let (m''', n) = write_field 2 (buffer + offset) args_sz m'' in
    (record c { args_sz = args_sz }, m''', u32 (offset + 2 + args_sz))

unfoldable pub deserialize : ℕ → Memory → ℕ → IpcCall
deserialize slot_sz m offset =
    let (call_id, n1) = read_field 8 m offset in
    let (method_id, n2) = read_field 2 m (u32 (offset + n1)) in
    let (client_id, n3) = read_field 2 m (u32 (offset + n1 + n2)) in
    let (cb_index, n4) = read_field 2 m (u32 (offset + n1 + n2 + n3)) in
    let (args_sz, n5) = read_field 2 m (u32 (offset + n1 + n2 + n3 + n4)) in
    record {
      call_id = call_id;
      method_id = method_id;
      client_id = client_id;
      cb_index = cb_index;
      args_sz = if ltb (max_args_sz slot_sz) args_sz then 0 else args_sz;
    }
