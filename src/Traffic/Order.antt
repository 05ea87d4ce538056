-- ===== src/Traffic/Order.antt =====
-- CallSpace.h and ServerIPCBase.cpp: the server takes every call that was accepted, once and whole, in
-- the order of the pushes.
use psi_shared.Base.{
  ℕ, ◌≤◌, ◌≡◌, ◌≢◌, ◌⊎◌, refl, sym, ap, ap₂, ◌∙◌, inl, inr, arith, List, [], ◌∷◌, ◌++◌, append-nil,
  append_assoc, map, none, some, true, false, length, read_at,
}
use psi_shared.CallSpace.{CallSpace, data_length, empty_space, push, generate_client_id}
use psi_shared.CallSpace.Refine.{
  Layout, IsValid, contents, append_call, push_refines, push-IsValid, clear-IsValid,
  empty_space-IsValid, joined, is_data_available_lem,
}
use psi_shared.Server.{read_memory, take_calls}
use psi_shared.Server.Delivery.{take_calls_lem}
use psi_shared.Traffic.{
  System, Step, send, turn_away, gives_id, take_all, find_none, Reach, start, next,
}

joined-append : (xs ys : List (List ℕ)) → joined (xs ++ ys) ≡ joined xs ++ joined ys
joined-append [] ys = refl
joined-append (x ∷ xs) ys =
    ap (λ t. x ++ t) (joined-append xs ys) ∙ sym (append_assoc x (joined xs) (joined ys))

-- All the calls of some groups of calls.
abbrev pub flat : List (List (List ℕ)) → List (List ℕ)
flat [] = []
flat (g ∷ groups) = g ++ flat groups

flat-append : (gs : List (List (List ℕ))) (g : List (List ℕ)) → flat (gs ++ g ∷ []) ≡ flat gs ++ g
flat-append [] g = append-nil g
flat-append (h ∷ gs) g = ap (λ t. h ++ t) (flat-append gs g) ∙ sym (append_assoc h (flat gs) g)

map-joined-append :
    (gs : List (List (List ℕ))) (g : List (List ℕ))
    → map joined (gs ++ g ∷ []) ≡ map joined gs ++ joined g ∷ []
map-joined-append [] g = refl
map-joined-append (h ∷ gs) g = ap (λ t. joined h ∷ t) (map-joined-append gs g)

-- The calls that were accepted are those in the buffers that were taken, each buffer with the whole
-- of its calls, and behind them those that stand in the space.
pub record IsInOrder (max_queue max_data : ℕ) (s : System) : Type 0 where
  pub valid : IsValid max_queue max_data s.space
  pub groups : List (List (List ℕ))
  pub in_space : List (List ℕ)
  pub buffers : s.taken ≡ map joined groups
  pub standing : contents s.space ≡ joined in_space
  pub order : flat groups ++ in_space ≡ s.sent

append_call_cases :
    (max_data limit : ℕ) (call log : List ℕ)
    → let (log', accepted) = append_call max_data limit call log in
      ((accepted ≡ true) × (log' ≡ log ++ call)) ⊎ ((accepted ≡ false) × (log' ≡ log))
unfolding append_call
append_call_cases max_data limit call log = ground arith

pub read_memory-IsValid :
    {max_queue max_data : ℕ}
    → Layout max_queue max_data
    → (seen : CallSpace) {s : CallSpace} → IsValid max_queue max_data s
    → IsValid max_queue max_data (read_memory seen s).0
unfolding read_memory take_calls
read_memory-IsValid l seen {s} v = ground (arith, clear-IsValid l v)

nil_of_length : (xs : List ℕ) → length xs ≡ 0 → xs ≡ []
nil_of_length [] h = refl
nil_of_length (x ∷ xs) h = absurd (omega arith)

-- A round takes all that stands in the space, or nothing.
read_memory_cases :
    {max_queue max_data : ℕ} (seen : CallSpace) (s : CallSpace)
    → IsValid max_queue max_data s
    → let (s', bytes) = read_memory seen s in
      ((bytes ≡ some (contents s)) × (contents s' ≡ []))
      ⊎ ((bytes ≡ none) × (contents s' ≡ contents s))
unfolding read_memory
read_memory_cases seen s v = ground (arith, take_calls_lem s v, nil_of_length (contents s))

contents-generate_client_id : (s : CallSpace) → contents (generate_client_id s).0 ≡ contents s
unfolding generate_client_id
contents-generate_client_id s = ground arith

pub generate_client_id-IsValid :
    {max_queue max_data : ℕ} {s : CallSpace}
    → IsValid max_queue max_data s
    → IsValid max_queue max_data (generate_client_id s).0
unfolding generate_client_id
generate_client_id-IsValid {s} v = ground arith

joined-flat : (gs : List (List (List ℕ))) → joined (flat gs) ≡ joined (map joined gs)
joined-flat [] = refl
joined-flat (g ∷ gs) = joined-append g (flat gs) ∙ ap (λ t. joined g ++ t) (joined-flat gs)

module _ (max_queue max_data : ℕ) (l : Layout max_queue max_data) where
  new_is_empty : contents (empty_space max_queue max_data) ≡ []
  unfolding empty_space
  new_is_empty = refl

  send-IsInOrder :
      (call : List ℕ) (sz : ℕ) {s : System}
      → sz ≤ length call
      → (push max_queue max_data (some call) sz s.space).1 ≡ true
      → IsInOrder max_queue max_data s
      → IsInOrder max_queue max_data (record s {
        space = (push max_queue max_data (some call) sz s.space).0;
        sent = s.sent ++ read_at call 0 sz ∷ [];
      })
  send-IsInOrder call sz {s} h accepted o =
      let pushed = push_refines l call sz o.valid h in
      elim (append_call_cases max_data (data_length max_queue max_data) (read_at call 0 sz)
        (contents s.space)) [
          | inr (left, same) ↦ absurd (ground (arith, ap (λ r. r.1) pushed))
          | inl (took, longer) ↦ record {
            valid = push-IsValid l (some call) sz o.valid;
            groups = o.groups;
            in_space = o.in_space ++ read_at call 0 sz ∷ [];
            buffers = o.buffers;
            standing =
                ap (λ r. r.0) pushed
                ∙ longer
                ∙ ap₂ (λ a b. a ++ b) o.standing (sym (append-nil (read_at call 0 sz)))
                ∙ sym (joined-append o.in_space (read_at call 0 sz ∷ []));
            order =
                sym (append_assoc (flat o.groups) o.in_space (read_at call 0 sz ∷ []))
                ∙ ap (λ t. t ++ read_at call 0 sz ∷ []) o.order;
          }
        ]

  turn_away-IsInOrder :
      (call : List ℕ) (sz : ℕ) {s : System}
      → sz ≤ length call
      → (push max_queue max_data (some call) sz s.space).1 ≡ false
      → IsInOrder max_queue max_data s
      → IsInOrder max_queue max_data
          (record s { space = (push max_queue max_data (some call) sz s.space).0 })
  turn_away-IsInOrder call sz {s} h refused o =
      let pushed = push_refines l call sz o.valid h in
      elim (append_call_cases max_data (data_length max_queue max_data) (read_at call 0 sz)
        (contents s.space)) [
          | inl (took, longer) ↦ absurd (ground (arith, ap (λ r. r.1) pushed))
          | inr (left, same) ↦ record {
            valid = push-IsValid l (some call) sz o.valid;
            groups = o.groups;
            in_space = o.in_space;
            buffers = o.buffers;
            standing = ap (λ r. r.0) pushed ∙ same ∙ o.standing;
            order = o.order;
          }
        ]

  take_all-IsInOrder :
      (seen : CallSpace) (bytes : List ℕ) {s : System}
      → (read_memory seen s.space).1 ≡ some bytes
      → IsInOrder max_queue max_data s
      → IsInOrder max_queue max_data
          (record s { space = (read_memory seen s.space).0; taken = s.taken ++ bytes ∷ [] })
  take_all-IsInOrder seen bytes {s} e o = elim (read_memory_cases seen s.space o.valid) [
    | inr (none_taken, same) ↦ absurd (ground arith)
    | inl (all, empty) ↦ record {
      valid = read_memory-IsValid l seen o.valid;
      groups = o.groups ++ o.in_space ∷ [];
      in_space = [];
      buffers =
          ap₂ (λ a b. a ++ b ∷ []) o.buffers (ground arith ∙ o.standing)
          ∙ sym (map-joined-append o.groups o.in_space);
      standing = empty;
      order = append-nil _ ∙ flat-append o.groups o.in_space ∙ o.order;
    }
  ]

  find_none-IsInOrder :
      (seen : CallSpace) {s : System}
      → (read_memory seen s.space).1 ≡ none
      → IsInOrder max_queue max_data s
      → IsInOrder max_queue max_data (record s { space = (read_memory seen s.space).0 })
  find_none-IsInOrder seen {s} e o = elim (read_memory_cases seen s.space o.valid) [
    | inl (all, empty) ↦ absurd (ground arith)
    | inr (none_taken, same) ↦ record {
      valid = read_memory-IsValid l seen o.valid;
      groups = o.groups;
      in_space = o.in_space;
      buffers = o.buffers;
      standing = same ∙ o.standing;
      order = o.order;
    }
  ]

  Step-IsInOrder :
      {s t : System}
      → Step max_queue max_data s t
      → IsInOrder max_queue max_data s
      → IsInOrder max_queue max_data t
  Step-IsInOrder (send call sz h e) o = send-IsInOrder call sz h e o
  Step-IsInOrder (turn_away call sz h e) o = turn_away-IsInOrder call sz h e o
  Step-IsInOrder {s} gives_id o = record {
    valid = generate_client_id-IsValid o.valid;
    groups = o.groups;
    in_space = o.in_space;
    buffers = o.buffers;
    standing = contents-generate_client_id s.space ∙ o.standing;
    order = o.order;
  }
  Step-IsInOrder (take_all seen bytes e) o = take_all-IsInOrder seen bytes e o
  Step-IsInOrder (find_none seen e) o = find_none-IsInOrder seen e o

  -- In every state that clients and server can reach from a new space, in whatever order they act:
  -- the buffers that the server took consist of whole calls, and these, with the calls that stand in
  -- the space behind them, are the calls that were accepted, each once, in the order of the pushes.
  pub Reach-IsInOrder : {s : System} → Reach max_queue max_data s → IsInOrder max_queue max_data s
  Reach-IsInOrder start = record {
    valid = empty_space-IsValid l;
    groups = [];
    in_space = [];
    buffers = refl;
    standing = new_is_empty;
    order = refl;
  }
  Reach-IsInOrder (next r st) = Step-IsInOrder st (Reach-IsInOrder r)

  -- In every state that clients and server can reach from a new space, in whatever order they act:
  -- when something stands in the space, a round of the server takes all of it and leaves nothing, and
  -- this, behind the bytes that were taken before, makes up all the calls ever accepted, in order.
  pub read_memory-Reach :
      {s : System}
      → Reach max_queue max_data s
      → contents s.space ≢ []
      → let (space', bytes) = read_memory s.space s.space in
        (contents space' ≡ [])
        × (bytes ≡ some (contents s.space))
        × (joined s.taken ++ contents s.space ≡ joined s.sent)
  unfolding read_memory
  read_memory-Reach {s} r ne =
      let o = Reach-IsInOrder r in
      let some_bytes =
        λ (h : length (contents s.space) ≡ 0). ne (nil_of_length (contents s.space) h) in
      (
        ground (
          arith,
          is_data_available_lem s.space o.valid,
          take_calls_lem s.space o.valid,
          some_bytes,
        ),
        ground (
          arith,
          is_data_available_lem s.space o.valid,
          take_calls_lem s.space o.valid,
          some_bytes,
        ),
        ap₂ (λ a b. joined a ++ b) o.buffers o.standing
            ∙ ap (λ t. t ++ joined o.in_space) (sym (joined-flat o.groups))
            ∙ sym (joined-append (flat o.groups) o.in_space)
            ∙ ap joined o.order,
      )
