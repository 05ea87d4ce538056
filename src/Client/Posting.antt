-- ===== src/Client/Posting.antt =====
-- IClientIPC.hpp: `pushCallWithNoArgs` and `pushCallWithArgs`, on the log of calls.
use psi_shared.Base.{
  ℕ, ◌+◌, ◌≤◌, ◌≡◌, sym, ap, ◌∙◌, List, [], ◌++◌, append-nil, some, arith, length, length-append,
  length-replicate, length-write_at, replicate, write_at, read_at-write_at, to_bytes,
  length-to_bytes,
}
use psi_shared.Protocol.{Ty, Args}
use psi_shared.Protocol.Encoding.{encode_args, AreValues}
use psi_shared.Call.{IpcCall}
use psi_shared.Call.Message.{
  head_bytes, call_bytes, length-head_bytes, length-call_bytes, serialize_lem,
  serialize_with_args_lem,
}
use psi_shared.CallSpace.{CallSpace, data_length, push}
use psi_shared.CallSpace.Refine.{Layout, IsValid, contents, append_call, push_refines}
use psi_shared.Client.{Config, Spaces, Client}
use psi_shared.Client.Sender.{push_call_with_no_args, push_call_with_args}

-- The header of a client's call.
abbrev pub call_of : {F : Type 0} → Client F → ℕ → ℕ → IpcCall
call_of c method_id cb_index = record {
  call_id = c.call_id;
  method_id = method_id;
  client_id = c.client_id;
  cb_index = cb_index;
  args_sz = 0;
}

-- The log after a call was appended to it, or left out for want of room.
abbrev pub log_after : Config → IpcCall → List ℕ → List ℕ → List ℕ
log_after k call args log =
    (append_call k.call_sz (data_length k.call_queue k.call_sz) (call_bytes call args) log).0

module _ (k : Config) (l : Layout k.call_queue k.call_sz) where
  -- A push of what was written at the start of an array of `MAX_CALL_SZ` bytes.
  push_whole :
      (bytes : List ℕ) (n : ℕ) {s : CallSpace}
      → IsValid k.call_queue k.call_sz s
      → length bytes ≡ n
      → n ≤ k.call_sz
      → contents
          (push k.call_queue k.call_sz (some (write_at (replicate k.call_sz 0) 0 bytes)) n s).0
        ≡ (append_call k.call_sz (data_length k.call_queue k.call_sz) bytes (contents s)).0
  push_whole bytes n {s} v e fits =
      ap (λ r. r.0)
        (push_refines l (write_at zeros 0 bytes) n v
          (omega (arith, fits, length-write_at zeros 0 bytes, room)))
      ∙ ap (λ b. (append_call k.call_sz (data_length k.call_queue k.call_sz) b (contents s)).0)
          (rw (← e) (read_at-write_at zeros 0 bytes (omega (arith, room, e, fits))))
    where
      zeros : List ℕ
      zeros = replicate k.call_sz 0

      room : length zeros ≡ k.call_sz
      room = length-replicate k.call_sz (let z : ℕ = 0 in z)

  module _ {F : Type 0} (c : Client F) (method_id cb_index : ℕ) (s : Spaces)
      (v : IsValid k.call_queue k.call_sz s.calls) where
    pub push_call_with_no_args_lem :
        16 ≤ k.call_sz
        → contents (push_call_with_no_args k method_id c.call_id cb_index c s).calls
          ≡ log_after k (call_of c method_id cb_index) [] (contents s.calls)
    unfolding push_call_with_no_args
    push_call_with_no_args_lem fits =
        rw (serialize_lem (call_of c method_id cb_index) 0 (replicate k.call_sz 0)) (
          push_whole (head_bytes call ++ to_bytes 2 0) 16 v size fits
          ∙ ap
              (λ b.
                (append_call k.call_sz (data_length k.call_queue k.call_sz) (head_bytes call ++ b)
                  (contents s.calls)).0)
              (sym (append-nil (to_bytes 2 0))))
      where
        call : IpcCall
        call = call_of c method_id cb_index

        size : length (head_bytes call ++ to_bytes 2 0) ≡ 16
        size = omega (
          arith,
          length-append (head_bytes call) (to_bytes 2 0),
          length-head_bytes call,
          length-to_bytes 2 0,
        )

    pub push_call_with_args_lem :
        (ts : List Ty) (args : Args ts)
        → AreValues ts args
        → 16 + length (encode_args ts args) ≤ k.call_sz
        → contents (push_call_with_args k ts args method_id c.call_id cb_index c s).calls
          ≡ log_after k (call_of c method_id cb_index) (encode_args ts args) (contents s.calls)
    unfolding push_call_with_args
    push_call_with_args_lem ts args a fits =
        rw
          (serialize_with_args_lem ts args (call_of c method_id cb_index) 0 (replicate k.call_sz 0)
            a (omega (arith, fits, l.data_fits)))
          (push_whole (call_bytes call (encode_args ts args)) (16 + length (encode_args ts args)) v
            (length-call_bytes call (encode_args ts args)) fits)
      where
        call : IpcCall
        call = call_of c method_id cb_index
