-- ===== src/EventSpace.antt =====
-- psi/include/psi/shared/ipc/space/EventSpace.h: one ring of events for each registered client.
pub mod Valid
pub mod Deliver
pub mod Register
mod Tests
use psi_shared.Base.{
  ℕ, zero, suc, ◌+◌, List, [], ◌∷◌, Option, none, some, Bool, true, false, ◌||◌, ◌&&◌, leb,
  if◌then◌else◌, get_or, set, replicate,
}
use psi_shared.EventRing
use psi_shared.EventRing.{Ring, BufferView}

abbrev pub max_queue_size : ℕ
max_queue_size = 1024

abbrev pub max_data_length : ℕ
max_data_length = 512

pub record EventSpace : Type 0 where
  pub clients : List Ring
  pub registered : List Bool
  pub is_available : Bool

unfoldable pub empty_space : ℕ → EventSpace
empty_space max_clients = record {
  clients = replicate max_clients (EventRing.empty_ring max_queue_size max_data_length);
  registered = replicate max_clients false;
  is_available = false;
}

-- What stands for a client out of range, which the code never asks for.
abbrev pub no_ring : Ring
no_ring = record { storage = []; read = 0; write = 0 }

abbrev pub client : ℕ → EventSpace → Ring
client i s = get_or s.clients i no_ring

abbrev pub is_registered : ℕ → EventSpace → Bool
is_registered i s = get_or s.registered i false

unfoldable pub set_available : Bool → EventSpace → EventSpace
set_available value s = record s { is_available = value }

unfoldable pub is_available : EventSpace → Bool
is_available s = s.is_available

-- `std::bitset::all`
unfoldable pub all_set : List Bool → Bool
all_set [] = true
all_set (b ∷ bits) = b && all_set bits

-- The loop of `registerClient` at `bit`, with so many rounds to go.
unfoldable pub register_from : ℕ → ℕ → EventSpace → EventSpace × Option ℕ
register_from zero bit s = (s, none)
register_from (suc rounds) bit s =
    let later = register_from rounds (bit + 1) s in
    if is_registered bit s then later else (
      record s {
        registered = set s.registered bit true;
        clients = set s.clients bit (EventRing.reset (client bit s));
      },
      some bit,
    )

unfoldable pub register_client : ℕ → EventSpace → EventSpace × Option ℕ
register_client max_clients s =
    if all_set s.registered then (s, none) else register_from max_clients 0 s

unfoldable pub unregister_client : ℕ → ℕ → EventSpace → EventSpace
unregister_client max_clients i s = if leb max_clients i then s else record s {
  registered = set s.registered i false;
  clients = set s.clients i (EventRing.reset (client i s));
}

-- One round of the loop of `push`: the client's ring, and whether it took the event.
unfoldable pub deliver : ℕ → ℕ → List ℕ → ℕ → EventSpace → EventSpace × Bool
deliver i event_id bytes sz s =
    let (ring, accepted) =
      EventRing.push max_queue_size max_data_length event_id bytes sz (client i s) in
    if is_registered i s
    then (record s { clients = set s.clients i ring }, accepted)
    else (s, false)

unfoldable pub push_from : ℕ → ℕ → Bool → ℕ → List ℕ → ℕ → EventSpace → EventSpace × Bool
push_from zero i any event_id bytes sz s = (s, any)
push_from (suc rounds) i any event_id bytes sz s =
    let (s', accepted) = deliver i event_id bytes sz s in
    push_from rounds (i + 1) (any || accepted) event_id bytes sz s'

unfoldable pub push : ℕ → ℕ → List ℕ → ℕ → EventSpace → EventSpace × Bool
push max_clients event_id bytes sz s =
    if s.is_available then push_from max_clients 0 false event_id bytes sz s else (s, false)

-- The view of the client's ring, with the same three fields.
unfoldable pub pop : ℕ → ℕ → EventSpace → EventSpace × Option BufferView
pop max_clients i s =
    let (ring, view) = EventRing.pop max_queue_size (client i s) in
    if leb max_clients i
    then (s, none)
    else (if is_registered i s
        then (record s { clients = set s.clients i ring }, view)
        else (s, none))
