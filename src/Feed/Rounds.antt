-- ===== src/Feed/Rounds.antt =====
-- EventSpace.h and ClientIPC.cpp: a round of `readEvData` among all that server and clients do.
use psi_shared.Base.{
  ℕ, zero, suc, ◌<◌, ◌≡◌, refl, ap, ◌∙◌, arith, List, [], ◌∷◌, ◌++◌, append-nil, append_assoc, some,
  true, length, ==_refl, sym, subst,
}
use psi_shared.Protocol.{Sizes}
use psi_shared.EventQueue
use psi_shared.EventQueue.{Queue}
use psi_shared.EventRing.Refine.{contents}
use psi_shared.EventSpace.{max_queue_size, is_registered, pop, client}
use psi_shared.EventSpace.Valid.{IsValid, queue_of, pop-IsValid}
use psi_shared.EventSpace.Deliver.{pop_lem, front}
use psi_shared.Client.{Config, Client, Listener}
use psi_shared.Client.Reader.{targets, notify_all, local_copy, drain, read_ev_data}
use psi_shared.Client.Drain.{shows, shows_nothing, drain_end, drain_next}
use psi_shared.Client.Drain as Drain
use psi_shared.Feed.{System, at, get, find_nothing, Reach, next}
use psi_shared.Feed.Order.{IsFedAt, Reach-IsFed}

-- The events that the client `id` gets in a round from `s` to `t`.
pub record Round (max_clients id : ℕ) (q : Queue) (s t : System) : Type 0 where
  pub reached : Reach max_clients s → Reach max_clients t
  pub got_now : t.got id ≡ s.got id ++ q
  pub kept_same : t.kept id ≡ s.kept id

module _ {F : Type 0} (z : Sizes) (max_clients id : ℕ) (listeners : List (Listener F)) where
  drain-Round :
      (fuel : ℕ) (q : Queue) {s : System}
      → IsValid max_clients s.space
      → queue_of id s.space ≡ some q
      → length q < fuel
      → (t : System) × (drain fuel z max_clients id listeners s.space
          ≡ some (t.space, Drain.told z listeners q))
        × Round max_clients id q s t
  unfolding EventQueue.pop
  drain-Round zero q v e h = absurd (omega arith)
  drain-Round (suc fuel) [] {s} v e h =
      let nothing = shows_nothing _ _ ((pop_lem id v).0 ∙ ap front e) in
      (
        record s { space = (pop max_clients id s.space).0 },
        drain_end z max_clients id listeners fuel s.space nothing,
        record {
          reached = λ r. next r (find_nothing id nothing);
          got_now = sym (append-nil (s.got id));
          kept_same = refl;
        },
      )
  drain-Round (suc fuel) (m ∷ q) {s} v e h =
      let (taken, others) = pop_lem id v in
      let (view, popped, shown) = shows _ _ (taken ∙ ap front e) in
      let (t, run, round) =
        drain-Round fuel q
          {s = record s {
            space = (pop max_clients id s.space).0;
            got = at id (s.got id ++ m ∷ []) s.got;
          }}
          (pop-IsValid id v) (ground (arith, others id, e)) (omega arith) in
      (
        t,
        drain_next z max_clients id listeners fuel s.space popped run
            ∙ ap
                (λ k. some (
                  t.space,
                  notify_all z (local_copy k.1) (targets k.0 listeners) ++ Drain.told z listeners q,
                ))
                shown,
        record {
          reached = λ r. round.reached (
              subst
                (λ k. Reach max_clients (record s {
                  space = (pop max_clients id s.space).0;
                  got = at id (s.got id ++ k ∷ []) s.got;
                }))
                shown (next r (get id view popped)));
          got_now = round.got_now ∙ rw (==_refl id) (append_assoc (s.got id) (m ∷ []) q);
          kept_same = round.kept_same;
        },
      )

module _ {F : Type 0} (z : Sizes) (k : Config) (c : Client F) where
  -- In every state that the server and its clients can reach from a new space, in whatever order
  -- they act: a round of an active, registered client comes to an end, in a state that can be
  -- reached too. Its listeners are told of the events that were kept for it since it registered and
  -- that it did not get before, in their order, and it has then got all that were kept.
  pub read_ev_data-Reach :
      (id : ℕ) {s : System}
      → Reach k.max_clients s
      → c.is_active ≡ true
      → c.ev_client_id ≡ some id
      → is_registered id s.space ≡ true
      → (t : System) × (q : Queue) × Reach k.max_clients t
        × (read_ev_data z k c s.space ≡ some (t.space, Drain.told z c.listeners q))
        × (s.kept id ≡ s.got id ++ q)
        × (t.got id ≡ s.kept id)
        × (t.kept id ≡ s.kept id)
  unfolding read_ev_data
  read_ev_data-Reach id {s} r active has registered =
      let v = Reach-IsFed k.max_clients r in
      let q = contents max_queue_size (client id s.space) in
      let here : queue_of id s.space ≡ some q = ground arith in
      let fed = subst (IsFedAt (s.kept id) (s.got id)) here (v.fed id) in
      let (t, run, round) =
        drain-Round z k.max_clients id c.listeners max_queue_size q {s = s} v.valid here
          (omega (arith, fed.1)) in
      (
        t,
        q,
        round.reached r,
        rw (active, has) run,
        fed.0,
        round.got_now ∙ sym fed.0,
        round.kept_same,
      )
