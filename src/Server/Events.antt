-- ===== src/Server/Events.antt =====
-- IServerIPCBase.h and EventSpace.h together: an event on its way into the queues of the clients.
use psi_shared.Base.{
  ℕ, ◌≤◌, ◌<◌, ◌^◌, ◌≡◌, List, true, arith, length, length-replicate, length-write_at, read_at,
  write_at, read_at-write_at, replicate,
}
use psi_shared.Protocol.{Ty, Args}
use psi_shared.Protocol.Encoding.{encode_args, AreValues}
use psi_shared.Protocol.Write.{serialize_pack_lem}
use psi_shared.EventSpace.{EventSpace, max_data_length}
use psi_shared.EventSpace.Valid.{IsValid, queue_of}
use psi_shared.EventSpace.Deliver.{offered, any_from, push_lem, Fits}
use psi_shared.Server.{notify_event}

-- `notifyEvent` offers the event with its encoded arguments to every registered client, if they fit
-- the array of `EVENT_SZ` bytes into which they are serialized; the flag says if one took it.
pub notify_event_lem :
    (max_clients event_id : ℕ) (ts : List Ty) (args : Args ts) {s : EventSpace}
    → IsValid max_clients s
    → s.is_available ≡ true
    → event_id < 2 ^ 16
    → AreValues ts args
    → length (encode_args ts args) ≤ max_data_length
    → let (s', any) = notify_event max_clients event_id ts args s in
      ((j : ℕ) → queue_of j s' ≡ offered (event_id, encode_args ts args) (queue_of j s))
      × (any ≡ any_from (event_id, encode_args ts args) (λ j. queue_of j s) max_clients 0)
unfolding notify_event
notify_event_lem max_clients event_id ts args {s} v on hid a h =
    rw (serialize_pack_lem ts 0 args (replicate max_data_length 0) a (omega (arith, h)))
      (rw sent at (push_lem max_clients event_id (write_at zeros 0 bytes) (length bytes) fits v on))
  where
    bytes : List ℕ
    bytes = encode_args ts args

    zeros : List ℕ
    zeros = replicate max_data_length 0

    sent : read_at (write_at zeros 0 bytes) 0 (length bytes) ≡ bytes
    sent =
        read_at-write_at zeros 0 bytes
          (omega (arith, h, length-replicate max_data_length (let z : ℕ = 0 in z)))

    fits : Fits event_id (write_at zeros 0 bytes) (length bytes)
    fits = record {
      id_fits = hid;
      size_fits = omega (arith, h);
      bytes_there = omega (
        arith,
        h,
        length-write_at zeros 0 bytes,
        length-replicate max_data_length (let z : ℕ = 0 in z),
      );
    }
