-- ===== src/Server.antt =====
-- psi/include/psi/shared/ipc/server/IServerIPC.h, IServerIPCBase.h and
-- psi/src/psi/shared/ipc/server/ServerIPCBase.cpp: the server takes the calls from the call space,
-- finds their methods, and puts answers and events into the other two spaces.
pub mod Dispatch
pub mod Delivery
pub mod Events
mod Tests
use psi_shared.Base.{
  ℕ, zero, suc, ◌+◌, List, [], ◌∷◌, Option, none, some, Bool, true, false, ltb, ◌==◌, if◌then◌else◌,
  replicate, read_at, u32, of_bytes,
}
use psi_shared.Protocol.{Ty, Args}
use psi_shared.Protocol.Serializer.{Memory, serialize_pack}
use psi_shared.Call
use psi_shared.Call.{IpcCall, head_sz}
use psi_shared.CallSpace
use psi_shared.CallSpace.{CallSpace}
use psi_shared.CallbackSpace
use psi_shared.CallbackSpace.{CallbackSpace}
use psi_shared.EventSpace
use psi_shared.EventSpace.{EventSpace}

-- What one call in the buffer leads to: the method that is found is run on a copy of the arguments,
-- with the index for its answer, or the id is reported as unsupported.
pub data Effect (F : Type 0) : Type 0 where
  runs : F → List ℕ → ℕ → Effect F
  unsupported : ℕ → Effect F

-- An effect in front of those of the calls that follow.
abbrev pub prepend : {F : Type 0} → Effect F → Option (List (Effect F)) → Option (List (Effect F))
prepend e none = none
prepend e (some effects) = some (e ∷ effects)

-- `find_method` is the lookup in the map of the service's methods.
module _ {F : Type 0} (find_method : ℕ → Option F) where
  unfoldable pub effect : ℕ → List ℕ → ℕ → Effect F
  effect method_id call_data cb_index = elim (find_method method_id) [
    | none ↦ unsupported method_id
    | some fn ↦ runs fn call_data cb_index
  ]

-- `call_sz` is `CALL_SZ` of the call space.
module _ {F : Type 0} (call_sz : ℕ) (find_method : ℕ → Option F) where
  -- The loop of `onReadCallMemory` at index `i`, with fuel; `none` means that the fuel ran out.
  unfoldable pub read_from : ℕ → Memory → ℕ → ℕ → Option (List (Effect F))
  unfolding effect
  read_from zero queue queue_sz i = none
  read_from (suc fuel) queue queue_sz i =
      let call = Call.deserialize call_sz queue i in
      let i1 = u32 (i + head_sz) in
      let size = of_bytes (read_at queue i1 2) in
      let i2 = u32 (i1 + 2) in
      let done = effect find_method call.method_id (read_at queue i2 size) call.cb_index in
      let later = read_from fuel queue queue_sz (u32 (i2 + size)) in
      if ltb i queue_sz
      then (if ltb queue_sz (u32 (i + head_sz))
          then some []
          else (if ltb queue_sz (i1 + 2)
              then some []
              else (if ltb queue_sz (u32 (i2 + size)) then some [] else prepend done later)))
      else some []

  -- Every round but the last takes 16 bytes at least, so the size of the buffer is fuel enough.
  unfoldable pub on_read_call_memory : Memory → ℕ → Option (List (Effect F))
  on_read_call_memory queue queue_sz = read_from (suc queue_sz) queue queue_sz 0

-- The part of `readMemory` under the lock: a copy of the data, if there is some.
unfoldable pub take_calls : CallSpace → CallSpace × Option (List ℕ)
take_calls s =
    let (data_sz, pointer) = CallSpace.pop s in
    elim pointer [
      | none ↦ (s, none)
      | some p ↦ if data_sz == 0 then (s, none) else (CallSpace.clear s, some (read_at p 0 data_sz))
    ]

-- `readMemory` looks first, without the lock, at the space as it is at that time, `seen`.
unfoldable pub read_memory : CallSpace → CallSpace → CallSpace × Option (List ℕ)
read_memory seen s = if CallSpace.is_data_available seen then take_calls s else (s, none)

unfoldable pub on_callback : ℕ → ℕ → Option ℕ → List ℕ → ℕ → CallbackSpace → CallbackSpace
on_callback max_queue max_data none cb_data cb_len s = s
on_callback max_queue max_data (some cb_index) cb_data cb_len s =
    CallbackSpace.update_callback max_queue max_data cb_index cb_data cb_len s

-- `notifyEvent`: the arguments are serialized into an array of `EVENT_SZ` zeros.
unfoldable pub notify_event : ℕ → ℕ → (ts : List Ty) → Args ts → EventSpace → EventSpace × Bool
notify_event max_clients event_id ts args s =
    let (event_data, n) = serialize_pack ts 0 args (replicate EventSpace.max_data_length 0) in
    EventSpace.push max_clients event_id event_data n s
