-- ===== src/EventSpace/Valid.antt =====
-- EventSpace.h: the invariant on rings and bits.
use psi_shared.Base.{
  ℕ, zero, suc, ◌+◌, ◌<◌, ◌≡◌, ◌∙◌, List, [], ◌∷◌, Option, none, some, Bool, true, false, arith,
  length, set, get_or, replicate, length-set, length-replicate, if◌then◌else◌,
}
use psi_shared.EventQueue.{Queue}
use psi_shared.EventRing
use psi_shared.EventRing.{Ring}
use psi_shared.EventRing.Valid
use psi_shared.EventRing.Valid.{Layout}
use psi_shared.EventRing.Refine.{contents}
use psi_shared.EventSpace.{
  EventSpace, max_queue_size, max_data_length, empty_space, client, no_ring, is_registered,
  register_from, register_client, unregister_client, deliver, push_from, push, pop,
}

pub layout : Layout max_queue_size max_data_length
layout = record { some_queue = omega arith; queue_fits = omega arith; data_fits = omega arith }

abbrev pub IsRing : Ring → Type 0
IsRing = EventRing.Valid.IsValid max_queue_size max_data_length

abbrev pub AllRings : List Ring → Type 0
AllRings [] = Unit {0}
AllRings (r ∷ rs) = IsRing r × AllRings rs

pub get_or-IsRing :
    (rs : List Ring) (i : ℕ) → AllRings rs → i < length rs → IsRing (get_or rs i no_ring)
get_or-IsRing [] i a h = absurd (omega arith)
get_or-IsRing (r ∷ rs) zero a h = a.0
get_or-IsRing (r ∷ rs) (suc i) a h = get_or-IsRing rs i a.1 (omega arith)

pub set-AllRings :
    (rs : List Ring) (i : ℕ) (r : Ring)
    → AllRings rs
    → (i < length rs → IsRing r)
    → AllRings (set rs i r)
set-AllRings [] i r a h = tt
set-AllRings (x ∷ rs) zero r a h = (h (omega arith), a.1)
set-AllRings (x ∷ rs) (suc i) r a h = (a.0, set-AllRings rs i r a.1 (λ p. h (omega arith)))

replicate-AllRings : (n : ℕ) (r : Ring) → IsRing r → AllRings (replicate n r)
replicate-AllRings zero r v = tt
replicate-AllRings (suc n) r v = (v, replicate-AllRings n r v)

pub record IsValid (max_clients : ℕ) (s : EventSpace) : Type 0 where
  pub rings : length s.clients ≡ max_clients
  pub bits : length s.registered ≡ max_clients
  pub rings_valid : AllRings s.clients

-- What a client may still read: nothing if it is not registered.
abbrev pub queue_of : ℕ → EventSpace → Option Queue
queue_of i s = if is_registered i s then some (contents max_queue_size (client i s)) else none

module _ {max_clients : ℕ} where
  pub empty_space-IsValid : IsValid max_clients (empty_space max_clients)
  unfolding empty_space
  empty_space-IsValid = record {
    rings = length-replicate max_clients _;
    bits = length-replicate max_clients false;
    rings_valid = replicate-AllRings max_clients _ (EventRing.Valid.empty_ring-IsValid layout);
  }

  pub client-IsRing :
      (i : ℕ) {s : EventSpace} → IsValid max_clients s → i < max_clients → IsRing (client i s)
  client-IsRing i {s} v h = get_or-IsRing s.clients i v.rings_valid (omega (arith, v.rings))

  pub set-IsValid :
      (i : ℕ) (r : Ring) (bits : List Bool) {s : EventSpace}
      → IsValid max_clients s
      → (i < max_clients → IsRing r)
      → length bits ≡ max_clients
      → IsValid max_clients (record s { clients = set s.clients i r; registered = bits })
  set-IsValid i r bits {s} v h e = record {
    rings = length-set s.clients i r ∙ v.rings;
    bits = e;
    rings_valid = set-AllRings s.clients i r v.rings_valid (λ p. h (omega (arith, v.rings)));
  }

  pub deliver-IsValid :
      (i event_id : ℕ) (bytes : List ℕ) (sz : ℕ) {s : EventSpace}
      → IsValid max_clients s
      → IsValid max_clients (deliver i event_id bytes sz s).0
  unfolding deliver
  deliver-IsValid i event_id bytes sz {s} v = ground (
    arith,
    set-IsValid i (EventRing.push max_queue_size max_data_length event_id bytes sz (client i s)).0
        s.registered v
        (λ h. EventRing.Valid.push-IsValid layout event_id bytes sz (client-IsRing i v h)) v.bits,
  )

  pub push_from-IsValid :
      (rounds i : ℕ) (any : Bool) (event_id : ℕ) (bytes : List ℕ) (sz : ℕ) {s : EventSpace}
      → IsValid max_clients s
      → IsValid max_clients (push_from rounds i any event_id bytes sz s).0
  unfolding push_from
  push_from-IsValid zero i any event_id bytes sz v = v
  push_from-IsValid (suc rounds) i any event_id bytes sz v =
      push_from-IsValid rounds (i + 1) _ event_id bytes sz (deliver-IsValid i event_id bytes sz v)

  pub push-IsValid :
      (event_id : ℕ) (bytes : List ℕ) (sz : ℕ) {s : EventSpace}
      → IsValid max_clients s
      → IsValid max_clients (push max_clients event_id bytes sz s).0
  unfolding push
  push-IsValid event_id bytes sz {s} v =
      ground (arith, push_from-IsValid max_clients 0 false event_id bytes sz v)

  pub pop-IsValid :
      (i : ℕ) {s : EventSpace} → IsValid max_clients s → IsValid max_clients (pop max_clients i s).0
  unfolding pop
  pop-IsValid i {s} v = ground (
    arith,
    set-IsValid i (EventRing.pop max_queue_size (client i s)).0 s.registered v
        (λ h. EventRing.Valid.pop-IsValid layout (client-IsRing i v h)) v.bits,
  )

  reset_slot-IsValid :
      (i : ℕ) (b : Bool) {s : EventSpace}
      → IsValid max_clients s
      → IsValid max_clients (record s {
        registered = set s.registered i b;
        clients = set s.clients i (EventRing.reset (client i s));
      })
  reset_slot-IsValid i b {s} v =
      set-IsValid i (EventRing.reset (client i s)) (set s.registered i b) v
        (λ h. EventRing.Valid.reset-IsValid layout (client-IsRing i v h))
        (length-set s.registered i b ∙ v.bits)

  pub register_from-IsValid :
      (rounds bit : ℕ) {s : EventSpace}
      → IsValid max_clients s
      → IsValid max_clients (register_from rounds bit s).0
  unfolding register_from
  register_from-IsValid zero bit v = v
  register_from-IsValid (suc rounds) bit v =
      ground (arith, register_from-IsValid rounds (bit + 1) v, reset_slot-IsValid bit true v)

  pub register_client-IsValid :
      {s : EventSpace}
      → IsValid max_clients s
      → IsValid max_clients (register_client max_clients s).0
  unfolding register_client
  register_client-IsValid v = ground (arith, register_from-IsValid max_clients 0 v)

  pub unregister_client-IsValid :
      (i : ℕ) {s : EventSpace}
      → IsValid max_clients s
      → IsValid max_clients (unregister_client max_clients i s)
  unfolding unregister_client
  unregister_client-IsValid i v = ground (arith, reset_slot-IsValid i false v)
