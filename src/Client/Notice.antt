-- ===== src/Client/Notice.antt =====
-- An event on its way from the server to a listener: IServerIPCBase.h, EventSpace.h and ClientIPC.cpp
-- together.
use psi_shared.Base.{
  ℕ, ◌≤◌, ◌<◌, ◌^◌, ◌≡◌, ap, ◌∙◌, List, [], ◌∷◌, some, true, arith, length, drop-write_at,
  length-replicate, replicate, ==_refl,
}
use psi_shared.Protocol.{Ty, Args, Sizes}
use psi_shared.Protocol.Deserializer.{deserialize_tuples}
use psi_shared.Protocol.Encoding.{encode_args, AreValues, AreReadable}
use psi_shared.Protocol.Read.{deserialize_tuples_lem}
use psi_shared.EventQueue
use psi_shared.EventSpace.{EventSpace, max_data_length}
use psi_shared.EventSpace.Valid.{IsValid, queue_of, push-IsValid}
use psi_shared.EventSpace.Deliver.{offered}
use psi_shared.Server.{notify_event}
use psi_shared.Server.Events.{notify_event_lem}
use psi_shared.Client.{Config, Client}
use psi_shared.Client.Reader.{notified, local_copy, read_ev_data}
use psi_shared.Client.Drain.{told, Drained, read_ev_data_lem}

-- A listener's function reads the values that were encoded.
local_copy_lem :
    (z : Sizes) (ts : List Ty) (args : Args ts)
    → AreReadable z ts args
    → length (encode_args ts args) ≤ max_data_length
    → (deserialize_tuples z ts (local_copy (encode_args ts args)) 0).0 ≡ args
local_copy_lem z ts args r fits =
    ap (λ p. p.0)
      (deserialize_tuples_lem z ts (local_copy (encode_args ts args)) 0 args _ r
        (drop-write_at (replicate max_data_length 0) 0 (encode_args ts args)
          (omega (arith, fits, length-replicate max_data_length (let n : ℕ = 0 in n))))
        (omega (arith, fits)))

notify_event-IsValid :
    (max_clients event_id : ℕ) (ts : List Ty) (args : Args ts) {s : EventSpace}
    → IsValid max_clients s
    → IsValid max_clients (notify_event max_clients event_id ts args s).0
unfolding notify_event
notify_event-IsValid max_clients event_id ts args v = push-IsValid event_id _ _ v

-- An event that the empty queue of a client takes.
offered-empty :
    (event_id : ℕ) (bytes : List ℕ)
    → length bytes ≤ max_data_length
    → offered (event_id, bytes) (some []) ≡ some ((event_id, bytes) ∷ [])
unfolding EventQueue.push
offered-empty event_id bytes h = ground arith

-- An event with values reaches a listener: when the server announces it, and the client, active and
-- registered, has read all earlier ones, the client's next round calls its one listener, which is for
-- this event and these types, once, with exactly these values, and the client's queue is empty again.
pub event_arrives :
    {F : Type 0} (z : Sizes) (k : Config) (c : Client F) (id event_id : ℕ) (ts : List Ty)
    (args : Args ts) (fn : F) {s : EventSpace}
    → c.is_active ≡ true
    → c.ev_client_id ≡ some id
    → c.listeners ≡ record { event_id = event_id; types = ts; fn = fn } ∷ []
    → IsValid k.max_clients s
    → s.is_available ≡ true
    → queue_of id s ≡ some []
    → event_id < 2 ^ 16
    → AreValues ts args
    → AreReadable z ts args
    → length (encode_args ts args) ≤ max_data_length
    → let s' = (notify_event k.max_clients event_id ts args s).0 in
      (s'' : EventSpace) × (read_ev_data z k c s' ≡ some (s'', notified fn ts args ∷ []))
      × Drained k.max_clients id s' s''
event_arrives z k c id event_id ts args fn {s} active registered listens v on empty he a r fits =
    let (s'', run, left) =
      read_ev_data_lem z k c id ((event_id, bytes) ∷ []) active registered
        (notify_event-IsValid k.max_clients event_id ts args v) queued in
    (s'', run ∙ ap (λ ns. some (s'', ns)) heard, left)
  where
    bytes : List ℕ
    bytes = encode_args ts args

    queued :
        queue_of id (notify_event k.max_clients event_id ts args s).0
        ≡ some ((event_id, bytes) ∷ [])
    queued =
        (notify_event_lem k.max_clients event_id ts args v on he a fits).0 id
        ∙ ap (offered (event_id, bytes)) empty
        ∙ offered-empty event_id bytes fits

    heard : told z c.listeners ((event_id, bytes) ∷ []) ≡ notified fn ts args ∷ []
    heard = rw (listens, ==_refl event_id, local_copy_lem z ts args r fits)
