-- ===== src/Call/Tests.antt =====
-- IPCCall.h: the theorems at a call with a number and a string.
use psi_shared.Base.{
  ◌+◌, ◌≡◌, refl, List, [], ◌∷◌, ◌++◌, arith, replicate, to_bytes, write_at, of_bytes,
}
use psi_shared.Protocol.{Ty, trivial, string, Args}
use psi_shared.Protocol.Serializer.{Memory}
use psi_shared.Protocol.Encoding.{encode, encode_args}
use psi_shared.Call.{
  IpcCall, serialize, serialize_with_args, deserialize, write_head, write_field, read_field,
}
use psi_shared.Call.RoundTrip.{InRange, checked, deserialize-serialize_with_args}

abbrev call : IpcCall
call = record { call_id = 70000; method_id = 300; client_id = 2; cb_index = 1; args_sz = 0 }

call-InRange : InRange call
call-InRange = record {
  id_fits = omega arith;
  method_fits = omega arith;
  client_fits = omega arith;
  index_fits = omega arith;
}

abbrev types : List Ty
types = trivial 2 ∷ string ∷ []

abbrev values : Args types
values = (7 ∷ 1 ∷ [], (65 ∷ 66 ∷ [], tt))

abbrev memory : Memory
memory = replicate 40 0

serialize-call :
    (serialize call 0 (replicate 18 9)).0
    ≡ 112 ∷ 17 ∷ 1 ∷ 0 ∷ 0 ∷ 0 ∷ 0 ∷ 0 ∷ 44 ∷ 1 ∷ 2 ∷ 0 ∷ 1 ∷ 0 ∷ 0 ∷ 0 ∷ 9 ∷ 9 ∷ []
unfolding serialize write_head write_field write_at to_bytes
serialize-call = refl

-- With slots of 20 bytes, arguments of five bytes are taken for none.
too_large : (deserialize 20 (to_bytes 8 1 ++ (to_bytes 6 0 ++ to_bytes 2 5)) 0).args_sz ≡ 0
unfolding deserialize read_field to_bytes of_bytes
too_large = refl

deserialize-serialize_with_args_example :
    let (c, m, sz) = serialize_with_args types values call 3 memory in
    (deserialize 64 m 3 ≡ checked 64 c) × (sz ≡ 16 + c.args_sz)
unfolding encode_args encode to_bytes
deserialize-serialize_with_args_example =
    deserialize-serialize_with_args 64 types values call 3 memory call-InRange (refl, (tt, tt))
      (omega arith) (omega arith) (omega arith)
