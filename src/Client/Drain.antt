-- ===== src/Client/Drain.antt =====
-- ClientIPC.cpp: a round of `readEvData`, by the client's queue.
use psi_shared.Base.{
  ℕ, zero, suc, ◌<◌, ◌≡◌, refl, ap, ◌∙◌, List, [], ◌∷◌, ◌++◌, Option, none, some, true, arith,
  length, ◌==◌, if◌then◌else◌,
}
use psi_shared.Protocol.{Sizes}
use psi_shared.EventQueue
use psi_shared.EventQueue.{Queue, Message}
use psi_shared.EventRing.{Ring, BufferView, view_data}
use psi_shared.EventRing.Refine.{seen, length-contents}
use psi_shared.EventSpace.{EventSpace, max_queue_size, pop, client}
use psi_shared.EventSpace.Valid.{IsValid, queue_of, pop-IsValid}
use psi_shared.EventSpace.Deliver.{pop_lem, front}
use psi_shared.Client.{Config, Client, Listener}
use psi_shared.Client.Reader.{Notified, targets, notify_all, local_copy, drain, read_ev_data}

-- What the listeners are told of the events of a queue, in the order of the events and, for each, of
-- the subscriptions.
abbrev pub told : {F : Type 0} → Sizes → List (Listener F) → Queue → List (Notified F)
told z listeners [] = []
told z listeners ((event_id, payload) ∷ q) =
    notify_all z (local_copy payload) (targets event_id listeners) ++ told z listeners q

-- A view that was returned shows the message.
pub shows :
    (r : Ring) (view : Option BufferView) {m : Message}
    → seen r view ≡ some m
    → (v : BufferView) × (view ≡ some v) × ((v.event_id, view_data v r) ≡ m)
shows r none e = cc e
shows r (some v) e = (v, refl, cc e)

pub shows_nothing : (r : Ring) (view : Option BufferView) → seen r view ≡ none → view ≡ none
shows_nothing r none e = refl
shows_nothing r (some v) e = cc e

-- The state after a round: the client's queue is empty, the others are as they were.
abbrev pub Drained : ℕ → ℕ → EventSpace → EventSpace → Type 0
Drained max_clients id s s' =
    IsValid max_clients s' × ((j : ℕ) → queue_of j s' ≡ (if j == id then some [] else queue_of j s))

module _ {F : Type 0} (z : Sizes) (max_clients id : ℕ) (listeners : List (Listener F)) where
  pub drain_end :
      (fuel : ℕ) (s : EventSpace)
      → (pop max_clients id s).1 ≡ none
      → drain (suc fuel) z max_clients id listeners s ≡ some ((pop max_clients id s).0, [])
  unfolding drain
  drain_end fuel s e = rw (drain, e) refl

  pub drain_next :
      (fuel : ℕ) (s : EventSpace) {s' : EventSpace} {v : BufferView} {tasks : List (Notified F)}
      → (pop max_clients id s).1 ≡ some v
      → drain fuel z max_clients id listeners (pop max_clients id s).0 ≡ some (s', tasks)
      → drain (suc fuel) z max_clients id listeners s
        ≡ some (
          s',
          notify_all z
                (local_copy (view_data v (client id (pop max_clients id s).0)))
                (targets v.event_id listeners)
              ++ tasks,
        )
  unfolding drain
  drain_next fuel s e f = rw (drain, e, f) refl

  drain_lem :
      (fuel : ℕ) (q : Queue) {s : EventSpace}
      → IsValid max_clients s
      → queue_of id s ≡ some q
      → length q < fuel
      → (s' : EventSpace) × (drain fuel z max_clients id listeners s
          ≡ some (s', told z listeners q))
        × Drained max_clients id s s'
  unfolding EventQueue.pop
  drain_lem zero q v e h = absurd (omega arith)
  drain_lem (suc fuel) [] {s} v e h =
      let (got, others) = pop_lem id v in
      (
        (pop max_clients id s).0,
        drain_end fuel s (shows_nothing _ _ (got ∙ ap front e)),
        (pop-IsValid id v, λ j. ground (arith, others j, e)),
      )
  drain_lem (suc fuel) (m ∷ q) {s} v e h =
      let (got, others) = pop_lem id v in
      let (view, popped, shown) = shows _ _ (got ∙ ap front e) in
      let (s', run, left) =
        drain_lem fuel q (pop-IsValid id v) (ground (arith, others id, e)) (omega arith) in
      (
        s',
        drain_next fuel s popped run
            ∙ ap
                (λ k.
                  some (
                    s',
                    notify_all z (local_copy k.1) (targets k.0 listeners) ++ told z listeners q,
                  ))
                shown,
        (left.0, λ j. ground (arith, others j, left.1 j)),
      )

module _ {F : Type 0} (z : Sizes) (k : Config) (c : Client F) where
  -- A round of an active, registered client comes to an end: its listeners are told of every event
  -- in its queue, in the order of the events, its queue is empty, and no other queue changes.
  pub read_ev_data_lem :
      (id : ℕ) (q : Queue) {s : EventSpace}
      → c.is_active ≡ true
      → c.ev_client_id ≡ some id
      → IsValid k.max_clients s
      → queue_of id s ≡ some q
      → (s' : EventSpace) × (read_ev_data z k c s ≡ some (s', told z c.listeners q))
        × Drained k.max_clients id s s'
  unfolding read_ev_data
  read_ev_data_lem id q {s} active registered v e =
      rw (active, registered) (drain_lem z k.max_clients id c.listeners max_queue_size q v e short)
    where
      short : length q < max_queue_size
      short = ground (arith, length-contents max_queue_size (client id s))
