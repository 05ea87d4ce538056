-- ===== src/Server/Tests.antt =====
-- IServerIPC.h and IServerIPCBase.h: the theorems at two calls, of which one has a method.
use psi_shared.Base.{
  ℕ, ◌≡◌, ap, refl, List, [], ◌∷◌, Option, none, some, true, arith, length, to_bytes, ◌==◌,
  if◌then◌else◌, replicate,
}
use psi_shared.CallSpace.{CallSpace}
use psi_shared.CallSpace.Refine.{Layout, IsValid, contents, push_all}
use psi_shared.EventSpace
use psi_shared.EventSpace.Valid
use psi_shared.EventSpace.Valid.{queue_of, empty_space-IsValid, register_client-IsValid}
use psi_shared.Server.{Effect, runs, unsupported, on_read_call_memory, read_memory, effect}
use psi_shared.Server.Dispatch.{
  Sent, wire, effects_of, AllInRange, on_read_call_memory_lem, on_read_call_memory_total,
}
use psi_shared.Server.Delivery.{packets, server_receives}

-- Method 300 is function 5.
abbrev methods : ℕ → Option ℕ
methods id = if id == 300 then some 5 else none

abbrev calls : List Sent
calls =
    (record { call_id = 1; method_id = 300; client_id = 2; cb_index = 4; args_sz = 0 }, 8 ∷ 9 ∷ [])
    ∷ (record { call_id = 2; method_id = 301; client_id = 2; cb_index = 0; args_sz = 0 }, [])
    ∷ []

calls-AllInRange : AllInRange calls
calls-AllInRange = (
  (
    record {
      id_fits = omega arith;
      method_fits = omega arith;
      client_fits = omega arith;
      index_fits = omega arith;
    },
    omega arith,
  ),
  (
    (
      record {
        id_fits = omega arith;
        method_fits = omega arith;
        client_fits = omega arith;
        index_fits = omega arith;
      },
      omega arith,
    ),
    tt,
  ),
)

on_read_call_memory_lem_example :
    on_read_call_memory 64 methods (wire calls) (length (wire calls))
    ≡ some (runs 5 (8 ∷ 9 ∷ []) 4 ∷ unsupported 301 ∷ [])
unfolding effect to_bytes
on_read_call_memory_lem_example =
    on_read_call_memory_lem 64 methods calls calls-AllInRange (omega arith)

-- A header that is cut off.
on_read_call_memory_total_example :
    (effects : List (Effect ℕ)) × (on_read_call_memory 64 methods (1 ∷ 2 ∷ 3 ∷ []) 3 ≡ some effects)
on_read_call_memory_total_example =
    on_read_call_memory_total 64 methods (1 ∷ 2 ∷ 3 ∷ [])
      (omega arith, (omega arith, (omega arith, tt))) (omega arith)

small : Layout 4 32
small = record { queue_fits = omega arith; data_fits = omega arith }

abbrev space : CallSpace
space = record { bytes = replicate 128 0; is_available = true; write_index = 0; last_client_id = 0 }

space-IsValid : IsValid 4 32 space
space-IsValid = omega arith

server_receives_example :
    let s' = push_all 4 32 (packets calls) space in
    let (s'', taken) = read_memory s' s' in
    (contents s'' ≡ [])
    × (taken ≡ some (wire calls))
    × (on_read_call_memory 32 methods (wire calls) (length (wire calls))
        ≡ some (effects_of methods calls))
unfolding to_bytes
server_receives_example =
    server_receives small methods calls space-IsValid refl
      (λ e. absurd (omega (arith, ap length e))) calls-AllInRange (omega arith, (omega arith, tt))
      (omega arith)

abbrev open_space : EventSpace.EventSpace
open_space = record (EventSpace.empty_space 2) { is_available = true }

open_space-IsValid : EventSpace.Valid.IsValid 2 open_space
open_space-IsValid = record {
  rings = (empty_space-IsValid {max_clients = 2}).rings;
  bits = (empty_space-IsValid {max_clients = 2}).bits;
  rings_valid = (empty_space-IsValid {max_clients = 2}).rings_valid;
}

abbrev one_client : EventSpace.EventSpace
one_client = (EventSpace.register_client 2 open_space).0
