-- ===== src/EventSpace/Register.antt =====
-- EventSpace.h: the queues of clients that are registered and unregistered.
use native.Mathlib.Decide.{ℕ_discrete}
use psi_shared.Base.{
  ℕ, zero, suc, ◌+◌, ◌≤◌, ◌<◌, ◌≡◌, ◌⊎◌, inl, inr, refl, List, [], ◌∷◌, Option, none, some, Bool,
  true, false, arith, length, set, get_or, get_or-set_self, get_or-set_ne, Bool-cases, subst,
  if◌then◌else◌, ◌==◌,
}
use psi_shared.EventRing
use psi_shared.EventRing.Refine.{contents-reset}
use psi_shared.EventSpace.{
  EventSpace, client, no_ring, is_registered, all_set, register_from, register_client,
  unregister_client,
}
use psi_shared.EventSpace.Valid.{layout, IsValid, queue_of}
use psi_shared.EventSpace.Deliver.{queue_of_past}

all_set_lem :
    (bits : List Bool) (j : ℕ) → all_set bits ≡ true → j < length bits → get_or bits j false ≡ true
unfolding all_set
all_set_lem [] j h p = absurd (omega arith)
all_set_lem (b ∷ bits) zero h p = ground arith
all_set_lem (b ∷ bits) (suc j) h p = all_set_lem bits j (ground arith) (omega arith)

-- A client whose bit is set or cleared, and whose ring is reset.
queue_of-reset :
    (i j : ℕ) (b : Bool) (s : EventSpace)
    → i < length s.clients
    → i < length s.registered
    → queue_of j (record s {
      registered = set s.registered i b;
      clients = set s.clients i (EventRing.reset (client i s));
    })
      ≡ (if j == i then (if b then some [] else none) else queue_of j s)
queue_of-reset i j b s hc hr = ground (
  arith,
  get_or-set_self s.clients i (EventRing.reset (client i s)) no_ring hc,
  get_or-set_ne s.clients i j (EventRing.reset (client i s)) no_ring,
  get_or-set_self s.registered i b false hr,
  get_or-set_ne s.registered i j b false,
  contents-reset layout (client i s),
)

-- The outcome of `registerClient` from `bit` on: every client in the range is registered already and
-- nothing changes, or the first one that is not gets an empty queue, and nobody else is affected.
abbrev pub Outcome : ℕ → ℕ → EventSpace → EventSpace × Option ℕ → Type 0
Outcome max_clients bit s (s', out) =
    ((out ≡ none) × (s' ≡ s) × ((j : ℕ) → bit ≤ j → j < max_clients → is_registered j s ≡ true))
    ⊎ ((k : ℕ) × (out ≡ some k)
        × (bit ≤ k)
        × (k < max_clients)
        × (queue_of k s ≡ none)
        × ((j : ℕ) → bit ≤ j → j < k → is_registered j s ≡ true)
        × ((j : ℕ) → queue_of j s' ≡ (if j == k then some [] else queue_of j s)))

registered_from :
    (i top : ℕ) (s : EventSpace)
    → is_registered i s ≡ true
    → ((j : ℕ) → i + 1 ≤ j → j < top → is_registered j s ≡ true)
    → (j : ℕ) → i ≤ j
    → j < top
    → is_registered j s ≡ true
registered_from i top s here above j hi hj = elim (ℕ_discrete i j) [
  | yes e ↦ subst (λ k. is_registered k s ≡ true) e here
  | no ne ↦ above j (omega arith) hj
]

extend :
    (max_clients i : ℕ) (s : EventSpace) (r : EventSpace × Option ℕ)
    → is_registered i s ≡ true
    → Outcome max_clients (i + 1) s r
    → Outcome max_clients i s r
extend max_clients i s r here (inl (a, b, c)) = inl (a, b, registered_from i max_clients s here c)
extend max_clients i s r here (inr (k, a, b, c, d, e, f)) =
    inr (k, a, omega arith, c, d, registered_from i k s here e, f)

module _ {max_clients : ℕ} where
  register_from_lem :
      (rounds bit : ℕ) {s : EventSpace}
      → IsValid max_clients s
      → bit + rounds ≡ max_clients
      → Outcome max_clients bit s (register_from rounds bit s)
  unfolding register_from
  register_from_lem zero bit v h = inl (refl, refl, λ j hi hj. absurd (omega arith))
  register_from_lem (suc rounds) bit {s} v h = elim (Bool-cases (is_registered bit s)) [
    | inl e ↦
        rw (e, register_from)
          (extend max_clients bit s (register_from rounds (bit + 1) s) e
            (register_from_lem rounds (bit + 1) v (omega arith)))
    | inr e ↦
        rw (e, register_from)
          (inr (
            bit,
            refl,
            omega arith,
            omega arith,
            ground arith,
            (λ j hi hj. absurd (omega arith)),
            λ j. queue_of-reset bit j true s (omega (arith, v.rings)) (omega (arith, v.bits)),
          ))
  ]

  -- `registerClient` gives the first client that is not registered an empty queue and returns its
  -- number, nobody else's queue changing; it fails, and changes nothing, only if all are registered.
  pub register_client_lem :
      {s : EventSpace}
      → IsValid max_clients s
      → Outcome max_clients 0 s (register_client max_clients s)
  unfolding register_client
  register_client_lem {s} v = elim (Bool-cases (all_set s.registered)) [
    | inl e ↦
        rw (e, register_client)
          (inl (refl, refl, λ j hi hj. all_set_lem s.registered j e (omega (arith, v.bits))))
    | inr e ↦ rw (e, register_client) (register_from_lem max_clients 0 v (omega arith))
  ]

  -- After `unregisterClient` the client has no queue; the queues of the others stay.
  pub unregister_client_lem :
      (i j : ℕ) {s : EventSpace}
      → IsValid max_clients s
      → queue_of j (unregister_client max_clients i s) ≡ (if j == i then none else queue_of j s)
  unfolding unregister_client
  unregister_client_lem i j {s} v =
      ground (arith, v.rings, v.bits, queue_of_past i v, queue_of-reset i j false s)
