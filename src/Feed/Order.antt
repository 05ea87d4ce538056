-- ===== src/Feed/Order.antt =====
-- EventSpace.h: each client gets the events that are kept for it, once and in order.
use psi_shared.Base.{
  ℕ, ◌-◌, ◌≤◌, zero, suc, get_or, replicate, ◌≡◌, ◌≢◌, ◌⊎◌, ◌<◌, subst, refl, sym, ap, ◌∙◌, inl,
  inr, arith, List, [], ◌∷◌, ◌++◌, append-nil, append_assoc, Option, none, some, Bool, true, false,
  Bool-cases, length, length-append, ◌==◌, if◌then◌else◌,
}
use psi_shared.EventQueue
use psi_shared.EventQueue.{Message, Queue}
use psi_shared.EventRing.Refine.{contents, seen}
use psi_shared.EventRing.{BufferView}
use psi_shared.EventSpace.{
  EventSpace, max_queue_size, max_data_length, empty_space, client, is_registered, set_available,
  register_client, unregister_client, push, pop,
}
use psi_shared.EventSpace.Valid.{
  IsValid, queue_of, empty_space-IsValid, push-IsValid, pop-IsValid, register_client-IsValid,
  unregister_client-IsValid,
}
use psi_shared.EventSpace.Deliver.{event, Fits, offered, front, rest, push_lem, pop_lem}
use psi_shared.EventSpace.Register.{register_client_lem, unregister_client_lem}
use psi_shared.Feed.{
  System, at, told, add_to, noted, Step, announce, get, find_nothing, join, find_no_place, leave,
  come_and_go, Reach, start, next,
}

-- What a client has in its queue is what was kept for it and what it did not get.
abbrev pub IsFedAt : List Message → List Message → Option Queue → Type 0
IsFedAt kept got none = Unit {0}
IsFedAt kept got (some q) = (kept ≡ got ++ q) × (length q ≤ max_queue_size - 1)

pub record IsFed (max_clients : ℕ) (s : System) : Type 0 where
  pub valid : IsValid max_clients s.space
  pub fed : (j : ℕ) → IsFedAt (s.kept j) (s.got j) (queue_of j s.space)

push_cases :
    (room limit : ℕ) (m : Message) (q : Queue)
    → let (q', taken) = EventQueue.push room limit m q in
      ((q' ≡ q ++ m ∷ []) × (length m.1 ≤ limit) × (length q ≢ room))
      ⊎ ((q' ≡ q) × ((limit < length m.1) ⊎ (length q ≡ room)))
unfolding EventQueue.push
push_cases room limit m q = ground arith

add_to_lem :
    (m : Message) (kept got q : List Message)
    → IsFedAt kept got (some q)
    → IsFedAt (add_to kept got m) got (offered m (some q))
unfolding add_to
add_to_lem m kept got q (e, few) =
    let sizes = ap length e ∙ length-append got q in
    elim (push_cases (max_queue_size - 1) max_data_length m q) [
      | inl (longer, short, room) ↦ (
        ground (arith, sizes)
            ∙ ap (λ t. t ++ m ∷ []) e
            ∙ append_assoc got q (m ∷ [])
            ∙ sym (ap (λ t. got ++ t) longer),
        omega (arith, few, room, ap length longer, length-append q (m ∷ [])),
      )
      | inr (same, full) ↦ (
        ground (arith, sizes, full) ∙ e ∙ sym (ap (λ t. got ++ t) same),
        omega (arith, few, ap length same),
      )
    ]

-- A client that gets the oldest event of its queue.
rest_lem :
    (m : Message) (kept got : List Message) (o : Option Queue)
    → front o ≡ some m
    → IsFedAt kept got o
    → IsFedAt kept (got ++ m ∷ []) (rest o)
unfolding EventQueue.pop
rest_lem m kept got none h fed = tt
rest_lem m kept got (some []) h fed = absurd (cc)
rest_lem m kept got (some (x ∷ q)) h (e, few) =
    (e ∙ sym (append_assoc got (m ∷ []) q ∙ ap (λ t. got ++ t ∷ q) (cc)), omega (arith, few))

rest_empty :
    (kept got : List Message) (o : Option Queue)
    → front o ≡ none
    → IsFedAt kept got o
    → IsFedAt kept got (rest o)
unfolding EventQueue.pop
rest_empty kept got none h fed = tt
rest_empty kept got (some []) h fed = fed
rest_empty kept got (some (x ∷ q)) h fed = absurd (cc)

caught_up :
    (kept got : List Message) (q : Queue)
    → front (some q) ≡ none
    → IsFedAt kept got (some q)
    → got ≡ kept
unfolding EventQueue.pop
caught_up kept got [] h (e, few) = sym (append-nil got) ∙ sym e
caught_up kept got (x ∷ q) h fed = absurd (cc)

-- A client is the one that something happens to, or another.
by_case : (P : Bool → Type 0) (b : Bool) → (b ≡ true → P true) → P false → P b
by_case P true h f = h refl
by_case P false h f = f

same_client : (j i : ℕ) → (j == i) ≡ true → i ≡ j
same_client j i h = ground arith

none_registered : (n j : ℕ) → get_or (replicate n false) j false ≡ false
none_registered zero j = refl
none_registered (suc n) zero = refl
none_registered (suc n) (suc j) = none_registered n j

module _ (max_clients : ℕ) where
  push_closed :
      (event_id : ℕ) (bytes : List ℕ) (sz : ℕ) (s : EventSpace)
      → s.is_available ≡ false
      → (push max_clients event_id bytes sz s).0 ≡ s
  unfolding push
  push_closed event_id bytes sz s h = ground arith

  noted_lem :
      (m : Message) (s : System) (j : ℕ)
      → s.space.is_available ≡ true
      → IsFedAt (s.kept j) (s.got j) (queue_of j s.space)
      → IsFedAt (noted m s j) (s.got j) (offered m (queue_of j s.space))
  unfolding noted
  noted_lem m s j on fed = elim (Bool-cases (is_registered j s.space)) [
    | inl e ↦
        rw (on, e)
          (add_to_lem m (s.kept j) (s.got j) (contents max_queue_size (client j s.space)) (
            subst
              (λ b.
                IsFedAt (s.kept j) (s.got j)
                  (if b then some (contents max_queue_size (client j s.space)) else none))
              e fed))
    | inr e ↦ rw e tt
  ]

  announce-IsFed :
      (event_id : ℕ) (bytes : List ℕ) (sz : ℕ) {s : System}
      → Fits event_id bytes sz
      → IsFed max_clients s
      → IsFed max_clients (record s {
        space = (push max_clients event_id bytes sz s.space).0;
        kept = noted (event event_id bytes sz) s;
      })
  unfolding noted
  announce-IsFed event_id bytes sz {s} f v = record {
    valid = push-IsValid event_id bytes sz v.valid;
    fed = λ j. elim (Bool-cases s.space.is_available) [
      | inl on ↦
          rw ((push_lem max_clients event_id bytes sz f v.valid on).0 j)
            (noted_lem (event event_id bytes sz) s j on (v.fed j))
      | inr off ↦ rw (push_closed event_id bytes sz s.space off, off) (v.fed j)
    ];
  }

  get-IsFed :
      (i : ℕ) (w : BufferView) {s : System}
      → (pop max_clients i s.space).1 ≡ some w
      → IsFed max_clients s
      → IsFed max_clients (record s {
        space = (pop max_clients i s.space).0;
        got = at i (s.got i ++ told w (client i (pop max_clients i s.space).0) ∷ []) s.got;
      })
  get-IsFed i w {s} h v =
      let message = told w (client i (pop max_clients i s.space).0) in
      record {
        valid = pop-IsValid i v.valid;
        fed = λ j. rw ((pop_lem i v.valid).1 j) (
            by_case
              (λ b.
                IsFedAt (s.kept j) (if b then s.got i ++ message ∷ [] else s.got j)
                  (if b then rest (queue_of j s.space) else queue_of j s.space))
              (j == i)
              (λ e.
                subst
                  (λ n. IsFedAt (s.kept n) (s.got i ++ message ∷ []) (rest (queue_of n s.space)))
                  (same_client j i e)
                  (rest_lem message (s.kept i) (s.got i) (queue_of i s.space)
                    (sym (pop_lem i v.valid).0
                      ∙ ap (seen (client i (pop max_clients i s.space).0)) h)
                    (v.fed i)))
              (v.fed j));
      }

  find_nothing-IsFed :
      (i : ℕ) {s : System}
      → (pop max_clients i s.space).1 ≡ none
      → IsFed max_clients s
      → IsFed max_clients (record s { space = (pop max_clients i s.space).0 })
  find_nothing-IsFed i {s} h v = record {
    valid = pop-IsValid i v.valid;
    fed = λ j. rw ((pop_lem i v.valid).1 j) (
        by_case
          (λ b.
            IsFedAt (s.kept j) (s.got j)
              (if b then rest (queue_of j s.space) else queue_of j s.space))
          (j == i)
          (λ e.
            subst (λ n. IsFedAt (s.kept n) (s.got n) (rest (queue_of n s.space)))
              (same_client j i e)
              (rest_empty (s.kept i) (s.got i) (queue_of i s.space)
                (sym (pop_lem i v.valid).0 ∙ ap (seen (client i (pop max_clients i s.space).0)) h)
                (v.fed i)))
          (v.fed j));
  }

  join-IsFed :
      (i : ℕ) {s : System}
      → (register_client max_clients s.space).1 ≡ some i
      → IsFed max_clients s
      → IsFed max_clients (record {
        space = (register_client max_clients s.space).0;
        kept = at i [] s.kept;
        got = at i [] s.got;
      })
  join-IsFed i {s} h v = elim (register_client_lem v.valid) [
    | inl (out, same, full) ↦ absurd (cc)
    | inr (k, out, lo, hi, fresh, first, queues) ↦
        let same_place : i ≡ k = (cc) in
        record {
          valid = register_client-IsValid v.valid;
          fed = λ j.
              rw (queues j, same_place)
                (by_case
                  (λ b.
                    IsFedAt (if b then [] else s.kept j) (if b then [] else s.got j)
                      (if b then some [] else queue_of j s.space))
                  (j == k) (λ e. (refl, omega arith)) (v.fed j));
        }
  ]

  leave-IsFed :
      (i : ℕ) {s : System}
      → IsFed max_clients s
      → IsFed max_clients (record s { space = unregister_client max_clients i s.space })
  leave-IsFed i {s} v = record {
    valid = unregister_client-IsValid i v.valid;
    fed = λ j. rw (unregister_client_lem i j v.valid) (
        by_case (λ b. IsFedAt (s.kept j) (s.got j) (if b then none else queue_of j s.space))
          (j == i) (λ e. tt) (v.fed j));
  }

  Step-IsFed : {s t : System} → Step max_clients s t → IsFed max_clients s → IsFed max_clients t
  unfolding set_available
  Step-IsFed (announce event_id bytes sz f) v = announce-IsFed event_id bytes sz f v
  Step-IsFed (get i w h) v = get-IsFed i w h v
  Step-IsFed (find_nothing i h) v = find_nothing-IsFed i h v
  Step-IsFed (join i h) v = join-IsFed i h v
  Step-IsFed (find_no_place h) v = elim (register_client_lem v.valid) [
    | inl (out, same, full) ↦ rw same v
    | inr (k, out, lo, hi, fresh, first, queues) ↦ absurd (cc)
  ]
  Step-IsFed (leave i) v = leave-IsFed i v
  Step-IsFed (come_and_go value) v = record {
    valid = record {
      rings = v.valid.rings;
      bits = v.valid.bits;
      rings_valid = v.valid.rings_valid;
    };
    fed = v.fed;
  }

  new_is_empty : (j : ℕ) → queue_of j (empty_space max_clients) ≡ none
  unfolding empty_space
  new_is_empty j = ground (arith, none_registered max_clients j)

  pub Reach-IsFed : {s : System} → Reach max_clients s → IsFed max_clients s
  Reach-IsFed start = record { valid = empty_space-IsValid; fed = λ j. rw (new_is_empty j) tt }
  Reach-IsFed (next r st) = Step-IsFed st (Reach-IsFed r)

  -- In every state that the server and its clients can reach from a new space, in whatever order
  -- they act: what a registered client got since it registered, with what is in its queue behind
  -- that, are the events that were kept for it, each once, in the order of the announcements, and
  -- when it finds nothing more, it has got them all. An event is kept if its payload fits and the
  -- client has fewer than 1023 that it did not get.
  pub queue_of-Reach :
      (j : ℕ) (q : Queue) {s : System}
      → Reach max_clients s
      → queue_of j s.space ≡ some q
      → (s.kept j ≡ s.got j ++ q) × ((pop max_clients j s.space).1 ≡ none → s.got j ≡ s.kept j)
  queue_of-Reach j q {s} r h =
      let v = Reach-IsFed r in
      let fed = subst (IsFedAt (s.kept j) (s.got j)) h (v.fed j) in
      (
        fed.0,
        λ nothing.
            caught_up (s.kept j) (s.got j) q
              (ap front (sym h)
                ∙ sym (pop_lem j v.valid).0
                ∙ ap (seen (client j (pop max_clients j s.space).0)) nothing)
              fed,
      )
