-- ===== src/Client/Session.antt =====
-- IClientIPC.hpp and ClientIPC.cpp: connections, subscriptions, and the status of the server.
use psi_shared.Base.{
  ap, ap₂, ◌-◌, Option, Option-cases, [], ◌∷◌, length, if◌then◌else◌, ℕ, ◌≤◌, ◌≡◌, ◌↔◌, inl, inr,
  Bool-cases, ==_refl, refl, ◌∙◌, List, none, some, Bool, false, ◌&&◌, arith, u16_max,
}
use psi_shared.Protocol.{Ty}
use psi_shared.CallSpace.{generate_client_id}
use psi_shared.CallSpace as Calls
use psi_shared.CallSpace.ClientIds.{generate_all, counting, generate_all_lem}
use psi_shared.CallbackSpace as Callbacks
use psi_shared.EventSpace as Events
use psi_shared.EventSpace.Valid.{IsValid, queue_of}
use psi_shared.EventSpace.Register.{unregister_client_lem}
use psi_shared.Client.{
  Config, Spaces, Client, connect, update_connection_status, subscribe_to_event_updates,
  unsubscribe_from_event_updates,
}

module _ {F : Type 0} where
  -- Clients that connect one after the other, and the ids of those that are connected then.
  pub connect_all : List (Client F) → Spaces → List (Option ℕ)
  connect_all [] s = []
  connect_all (c ∷ cs) s =
      let (c', s', connected) = connect c s in
      (if connected then some c'.client_id else none) ∷ connect_all cs s'

  abbrev pub AreInactive : List (Client F) → Type 0
  AreInactive [] = Unit {0}
  AreInactive (c ∷ cs) = (c.is_active ≡ false) × AreInactive cs

  connect_step :
      (c : Client F) (s : Spaces)
      → c.is_active ≡ false
      → let (c', s', connected) = connect c s in
        ((if connected then some c'.client_id else none) ≡ (generate_client_id s.calls).1)
        × (s'.calls ≡ (generate_client_id s.calls).0)
  unfolding connect
  connect_step c s h = elim (Option-cases (generate_client_id s.calls).1) [
    | inl e ↦ rw (connect, h, e) (refl, refl)
    | inr (id, e) ↦ rw (connect, h, e) (refl, refl)
  ]

  connect_all-generate_all :
      (cs : List (Client F)) (s : Spaces)
      → AreInactive cs
      → connect_all cs s ≡ generate_all (length cs) s.calls
  unfolding connect_all generate_all
  connect_all-generate_all [] s h = refl
  connect_all-generate_all (c ∷ cs) s (h, hs) =
      let (c', s', connected) = connect c s in
      let (id, calls) = connect_step c s h in
      ap₂ (λ x xs. x ∷ xs) id
        (connect_all-generate_all cs s' hs ∙ ap (generate_all (length cs)) calls)

  -- Clients that are not connected, in whatever number, connect one after the other to spaces whose
  -- last id is in range: they get the ids that follow it, one by one, up to 65535, so no two get the
  -- same, and every client after that fails to connect.
  pub connect_all_lem :
      (cs : List (Client F)) (s : Spaces)
      → AreInactive cs
      → s.calls.last_client_id ≤ u16_max
      → connect_all cs s
        ≡ counting (length cs) s.calls.last_client_id (u16_max - s.calls.last_client_id)
  connect_all_lem cs s inactive h =
      connect_all-generate_all cs s inactive ∙ generate_all_lem (length cs) s.calls h

  -- The status is that all three spaces are available, and observers are told of each change of it
  -- and of nothing else.
  pub update_connection_status_lem :
      (c : Client F) (s : Spaces)
      → let (c', told) = update_connection_status c s in
        let all =
          Calls.is_available s.calls
          && (Callbacks.is_available s.callbacks && Events.is_available s.events) in
        (c' ≡ record c { server_available = all })
        × ((told ≡ none) ↔ (all ≡ c.server_available))
        × ((b : Bool) → told ≡ some b → b ≡ all)
  unfolding update_connection_status
  update_connection_status_lem c s =
      elim (Bool-cases (
        Calls.is_available s.calls
        && (Callbacks.is_available s.callbacks && Events.is_available s.events))) [
          | inl e ↦ rw e (ground arith)
          | inr e ↦ rw e (ground arith)
        ]

module _ (k : Config) {F : Type 0} where
  -- A client that was registered and unsubscribes is not registered again by its next
  -- subscription: that returns the old id, but the client has no queue.
  pub subscribe_to_event_updates-unsubscribe_from_event_updates :
      (id event_id : ℕ) (ts : List Ty) (fn : F) (c : Client F) (s : Spaces)
      → IsValid k.max_clients s.events
      → c.ev_client_id ≡ some id
      → let s' = unsubscribe_from_event_updates k id s in
        let (c', s'', returned) = subscribe_to_event_updates k event_id ts fn c s' in
        (returned ≡ some id) × (queue_of id s''.events ≡ none)
  unfolding subscribe_to_event_updates unsubscribe_from_event_updates
  subscribe_to_event_updates-unsubscribe_from_event_updates id event_id ts fn c s v e =
      rw e (refl, unregister_client_lem id id v ∙ rw (==_refl id))
