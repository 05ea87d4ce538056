-- ===== src/EventSpace/Deliver.antt =====
-- EventSpace.h: `push` and `pop` on the queues of the clients.
use psi_shared.Base.{
  ℕ, zero, suc, ◌+◌, ◌-◌, ◌≤◌, ◌<◌, ◌^◌, ◌≡◌, ◌≢◌, refl, ap₂, List, Option, none, some, Bool, true,
  false, ◌||◌, arith, length, set, get_or-set_self, get_or-set_ne, get_or_past, read_at, leb, ◌==◌,
  if◌then◌else◌,
}
use psi_shared.EventQueue
use psi_shared.EventQueue.{Message, Queue}
use psi_shared.EventRing
use psi_shared.EventRing.{Ring, BufferView}
use psi_shared.EventRing.Refine
use psi_shared.EventRing.Refine.{contents, seen}
use psi_shared.EventSpace.{
  EventSpace, max_queue_size, max_data_length, client, no_ring, is_registered, deliver, push_from,
  push, pop,
}
use psi_shared.EventSpace.Valid.{layout, IsValid, client-IsRing, deliver-IsValid, queue_of}

-- A client's queue after an event was offered to it, and whether it took the event.
abbrev pub offered : Message → Option Queue → Option Queue
offered m none = none
offered m (some q) = some (EventQueue.push (max_queue_size - 1) max_data_length m q).0

abbrev pub accepts : Message → Option Queue → Bool
accepts m none = false
accepts m (some q) = (EventQueue.push (max_queue_size - 1) max_data_length m q).1

-- Whether a client in the range takes the event.
pub any_from : Message → (ℕ → Option Queue) → ℕ → ℕ → Bool
any_from m queues zero i = false
any_from m queues (suc rounds) i = accepts m (queues i) || any_from m queues rounds (i + 1)

any_from_eq :
    (m : Message) (f g : ℕ → Option Queue) (rounds i : ℕ)
    → ((j : ℕ) → i ≤ j → f j ≡ g j)
    → any_from m f rounds i ≡ any_from m g rounds i
unfolding any_from
any_from_eq m f g zero i h = refl
any_from_eq m f g (suc rounds) i h =
    ap₂ (λ q b. accepts m q || b) (h i (omega arith))
      (any_from_eq m f g rounds (i + 1) (λ j p. h j (omega arith)))

-- A ring that is replaced is another client's ring, or the one that is asked for.
queue_of-set :
    (i j : ℕ) (r : Ring) (s : EventSpace)
    → i < length s.clients
    → queue_of j (record s { clients = set s.clients i r }) ≡ (
        if j == i
        then (if is_registered j s then some (contents max_queue_size r) else none)
        else queue_of j s)
queue_of-set i j r s h =
    ground (arith, get_or-set_self s.clients i r no_ring h, get_or-set_ne s.clients i j r no_ring)

pub queue_of_past :
    {max_clients : ℕ} (j : ℕ) {s : EventSpace}
    → IsValid max_clients s
    → max_clients ≤ j
    → queue_of j s ≡ none
queue_of_past j {s} v h = ground (arith, get_or_past s.registered j false (omega (arith, v.bits)))

abbrev pub event : ℕ → List ℕ → ℕ → Message
event event_id bytes sz = (event_id, read_at bytes 0 sz)

-- What a caller of `push` keeps to: 16-bit numbers, and memory with the bytes it announces.
pub record Fits (event_id : ℕ) (bytes : List ℕ) (sz : ℕ) : Type 0 where
  pub id_fits : event_id < 2 ^ 16
  pub size_fits : sz < 2 ^ 16
  pub bytes_there : sz ≤ length bytes

module _ (max_clients event_id : ℕ) (bytes : List ℕ) (sz : ℕ) (f : Fits event_id bytes sz) where
  deliver_lem :
      (i j : ℕ) {s : EventSpace}
      → IsValid max_clients s
      → i < max_clients
      → (queue_of j (deliver i event_id bytes sz s).0
          ≡ (if j == i then offered (event event_id bytes sz) (queue_of j s) else queue_of j s))
        × ((deliver i event_id bytes sz s).1 ≡ accepts (event event_id bytes sz) (queue_of i s))
  unfolding deliver
  deliver_lem i j {s} v hi =
      ground (arith, queue_of-set i j pushed.0 s (omega (arith, v.rings)), refined)
    where
      pushed : Ring × Bool
      pushed = EventRing.push max_queue_size max_data_length event_id bytes sz (client i s)

      refined :
          (contents max_queue_size pushed.0, pushed.1)
          ≡ EventQueue.push
              (max_queue_size - 1)
              max_data_length
              (event event_id bytes sz)
              (contents max_queue_size (client i s))
      refined =
          EventRing.Refine.push_refines layout event_id bytes sz (client-IsRing i v hi) f.id_fits
            f.size_fits f.bytes_there

  push_from-queue_of :
      (rounds i : ℕ) (any : Bool) (j : ℕ) {s : EventSpace}
      → IsValid max_clients s
      → i + rounds ≡ max_clients
      → queue_of j (push_from rounds i any event_id bytes sz s).0
        ≡ (if leb i j then offered (event event_id bytes sz) (queue_of j s) else queue_of j s)
  unfolding push_from
  push_from-queue_of zero i any j {s} v h = ground (arith, queue_of_past j v)
  push_from-queue_of (suc rounds) i any j {s} v h = ground (
    arith,
    deliver_lem i j v (omega arith),
    push_from-queue_of rounds (i + 1) (any || (deliver i event_id bytes sz s).1) j
        (deliver-IsValid i event_id bytes sz v) (omega arith),
  )

  push_from-flag :
      (rounds i : ℕ) (any : Bool) {s : EventSpace}
      → IsValid max_clients s
      → i + rounds ≡ max_clients
      → (push_from rounds i any event_id bytes sz s).1
        ≡ any || any_from (event event_id bytes sz) (λ j. queue_of j s) rounds i
  unfolding push_from any_from
  push_from-flag zero i any v h = ground arith
  push_from-flag (suc rounds) i any {s} v h = ground (
    arith,
    (deliver_lem i i v (omega arith)).1,
    push_from-flag rounds (i + 1) (any || (deliver i event_id bytes sz s).1)
        (deliver-IsValid i event_id bytes sz v) (omega arith),
    any_from_eq (event event_id bytes sz) (λ j. queue_of j (deliver i event_id bytes sz s).0)
        (λ j. queue_of j s) rounds (i + 1) (λ j p. later j (omega arith)),
  )
    where
      later : (j : ℕ) → i ≢ j → queue_of j (deliver i event_id bytes sz s).0 ≡ queue_of j s
      later j ne = ground (arith, (deliver_lem i j v (omega arith)).0)

  -- `push` on an available space offers the event to the queue of every registered client, and
  -- reports whether one took it. Clients that are not registered get nothing.
  pub push_lem :
      {s : EventSpace}
      → IsValid max_clients s
      → s.is_available ≡ true
      → let (s', any) = push max_clients event_id bytes sz s in
        ((j : ℕ) → queue_of j s' ≡ offered (event event_id bytes sz) (queue_of j s))
        × (any ≡ any_from (event event_id bytes sz) (λ j. queue_of j s) max_clients 0)
  unfolding push
  push_lem {s} v on = (
    λ j. ground (arith, push_from-queue_of max_clients 0 false j v (omega arith)),
    ground (arith, push_from-flag max_clients 0 false v (omega arith)),
  )

-- The oldest message of a client's queue, and the queue without it.
abbrev pub front : Option Queue → Option Message
front none = none
front (some q) = (EventQueue.pop q).0

abbrev pub rest : Option Queue → Option Queue
rest none = none
rest (some q) = some (EventQueue.pop q).1

-- `pop` gives a client the oldest event of its own queue, through a view into its ring, and leaves
-- the queue of every other client alone; who is not registered gets nothing.
pub pop_lem :
    {max_clients : ℕ} (i : ℕ) {s : EventSpace}
    → IsValid max_clients s
    → let (s', view) = pop max_clients i s in
      (seen (client i s') view ≡ front (queue_of i s))
      × ((j : ℕ) → queue_of j s' ≡ (if j == i then rest (queue_of j s) else queue_of j s))
unfolding pop
pop_lem {max_clients} i {s} v = (
  ground (arith, served, queue_of_past i v, get_or-set_self s.clients i popped.0 no_ring),
  λ j. ground (arith, served, queue_of_past i v, queue_of-set i j popped.0 s),
)
  where
    popped : Ring × Option BufferView
    popped = EventRing.pop max_queue_size (client i s)

    served :
        i < max_clients
        → ((seen popped.0 popped.1, contents max_queue_size popped.0)
            ≡ EventQueue.pop (contents max_queue_size (client i s)))
          × (i < length s.clients)
    served h = (EventRing.Refine.pop_refines layout (client-IsRing i v h), omega (arith, v.rings))
