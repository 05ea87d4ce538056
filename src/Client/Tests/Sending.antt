-- ===== src/Client/Tests/Sending.antt =====
-- IClientIPC.hpp: the theorems on connections and calls at concrete clients.
use psi_shared.Base.{
  ℕ, ◌-◌, ◌<◌, List, length, write_at, ◌≡◌, refl, [], ◌∷◌, none, some, true, false, arith,
  replicate, to_bytes, u64,
}
use psi_shared.Protocol.{trivial}
use psi_shared.Protocol.Encoding.{encode, encode_args}
use psi_shared.Callback.{fail, invalid_payload}
use psi_shared.Client.{replies, Client}
use psi_shared.Client.Sender.{validate_call, call_server}
use psi_shared.Client.Requests.{counted, Called, call_server_refuses, call_server_waits}
use psi_shared.Client.Arrival.{Arrived, request_arrives}
use psi_shared.Client.Oversize.{validate_call-serialize_with_args}
use psi_shared.Call.{IpcCall, serialize_with_args}
use psi_shared.Call.Message.{call_bytes}
use psi_shared.CallSpace.{CallSpace, push}
use psi_shared.CallSpace.ClientIds.{counting}
use psi_shared.Client.Session.{connect_all, connect_all_lem}
use psi_shared.Client.Tests.{
  config, sizes, texts, layout, answers-IsValid, spaces, spaces-AreValid, types, arguments,
  callback, client, methods,
}

request_arrives_example :
    Arrived config sizes texts methods types arguments callback 300 1000 20 70 client
      (call_server config sizes texts types arguments (some callback) 300 1000 20 client spaces)
unfolding encode_args encode to_bytes
request_arrives_example =
    request_arrives config sizes texts methods types arguments callback 300 1000 20 client spaces 70
      1 layout (omega arith) (omega arith) spaces-AreValid tt (tt, (refl, tt)) (omega arith) refl
      (omega arith) refl (omega arith) (omega arith) refl

call_server_refuses_example :
    (call_server config sizes texts
        (trivial 51 ∷ [])
        (replicate 51 0, tt)
        none
        300
        1000
        20
        client
        spaces
      ≡ (counted client, spaces, []))
    × (call_server config sizes texts
          (trivial 51 ∷ [])
          (replicate 51 0, tt)
          (some callback)
          300
          1000
          20
          client
          spaces
        ≡ (
          counted client,
          spaces,
          replies 50
              (trivial 2 ∷ [])
              (fail (trivial 2 ∷ []) true invalid_payload (texts.too_big 300 6 (u64 10) 51)),
        ))
unfolding encode_args encode
call_server_refuses_example =
    call_server_refuses config sizes texts (trivial 51) [] (replicate 51 0, tt) callback 300 1000 20
      client spaces tt (refl, tt) (omega arith) (omega arith)

call_server_waits_example :
    Called config sizes texts
      (encode_args types arguments)
      callback
      300
      1000
      20
      client
      spaces
      (call_server config sizes texts types arguments (some callback) 300 1000 20 client spaces)
unfolding encode_args encode to_bytes
call_server_waits_example =
    call_server_waits config sizes texts types arguments callback 300 1000 20 client spaces layout
      spaces-AreValid.calls_valid answers-IsValid tt (tt, (refl, tt)) (omega arith)

abbrev long_call : IpcCall
long_call = record { call_id = 1; method_id = 300; client_id = 6; cb_index = 0; args_sz = 0 }

validate_call-serialize_with_args_example :
    let (call', m', n) =
      serialize_with_args (trivial 49 ∷ []) (replicate 49 0, tt) long_call 0 (replicate 64 0) in
    ((validate_call config sizes (trivial 49 ∷ []) (replicate 49 0, tt)).0 ≡ true)
    × (m'
        ≡ write_at
            (replicate 64 0)
            0
            (call_bytes long_call (encode_args (trivial 49 ∷ []) (replicate 49 0, tt))))
    × (64 < length (call_bytes long_call (encode_args (trivial 49 ∷ []) (replicate 49 0, tt))))
    × ((b : List ℕ) (s : CallSpace) → push 4 64 (some b) n s ≡ (s, false))
unfolding encode_args encode
validate_call-serialize_with_args_example =
    validate_call-serialize_with_args config sizes (trivial 49 ∷ []) (replicate 49 0, tt) long_call
      (replicate 64 0) (omega arith) tt (refl, tt) (omega arith) (omega arith)

abbrev newcomers : List (Client ℕ)
newcomers = record client { is_active = false } ∷ record client { is_active = false } ∷ []

connect_all_lem_example :
    connect_all newcomers spaces
    ≡ counting 2 spaces.calls.last_client_id (65535 - spaces.calls.last_client_id)
connect_all_lem_example = connect_all_lem newcomers spaces (refl, (refl, tt)) (omega arith)
