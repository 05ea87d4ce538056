-- ===== src/EventRing/View.antt =====
-- EventRingBuffer.h and the event loop of psi/src/psi/shared/ipc/client/ClientIPC.cpp: the client
-- copies from the view that `pop` gave it after the lock is released, while the server may push.
use psi_shared.Base.{
  ℕ, ◌≡◌, refl, ap, ◌∙◌, List, [], ◌∷◌, some, arith, get_or, read_at, get_or-set_ne,
}
use psi_shared.EventRing.{header, Ring, BufferView, fill_slot, next_index, view_data, push, pop}

-- The pushes that come between two pops: event id, memory and size of each.
abbrev pub Pushes : Type 0
Pushes = List (ℕ × List ℕ × ℕ)

pub push_all : ℕ → ℕ → Pushes → Ring → Ring
push_all max_queue max_data [] r = r
push_all max_queue max_data ((event_id, bytes, sz) ∷ ps) r =
    push_all max_queue max_data ps (push max_queue max_data event_id bytes sz r).0

module _ (max_queue max_data : ℕ) where
  pop_next :
      (r : Ring) {r' : Ring} {v : BufferView}
      → pop max_queue r ≡ (r', some v)
      → next_index max_queue v.slot ≡ r'.read
  unfolding pop
  pop_next r {r'} {v} e = ground arith

  -- The slot just behind `read` is the one that `push` keeps free.
  pub push_keeps :
      (event_id : ℕ) (bytes : List ℕ) (sz slot : ℕ) (r : Ring)
      → next_index max_queue slot ≡ r.read
      → let r' = (push max_queue max_data event_id bytes sz r).0 in
        (get_or r'.storage slot [] ≡ get_or r.storage slot [])
        × (next_index max_queue slot ≡ r'.read)
  unfolding push
  push_keeps event_id bytes sz slot r h = ground (
    arith,
    get_or-set_ne r.storage r.write slot (fill_slot event_id bytes sz (get_or r.storage r.write []))
        [],
    ap (next_index max_queue) {x = r.write} {y = slot},
  )

  push_all_keeps :
      (ps : Pushes) (slot : ℕ) (r : Ring)
      → next_index max_queue slot ≡ r.read
      → get_or (push_all max_queue max_data ps r).storage slot [] ≡ get_or r.storage slot []
  unfolding push_all
  push_all_keeps [] slot r h = refl
  push_all_keeps ((event_id, bytes, sz) ∷ ps) slot r h =
      let kept = push_keeps event_id bytes sz slot r h in
      push_all_keeps ps slot (push max_queue max_data event_id bytes sz r).0 kept.1 ∙ kept.0

  -- What a view that `pop` returned shows stays the same through any pushes that follow, as long
  -- as nothing else is popped: no push writes into the slot that was just popped.
  pub view_data-push_all :
      (ps : Pushes) (r : Ring) {r' : Ring} {v : BufferView}
      → pop max_queue r ≡ (r', some v)
      → view_data v (push_all max_queue max_data ps r') ≡ view_data v r'
  unfolding view_data
  view_data-push_all ps r {r'} {v} e =
      ap (λ slot. read_at slot header v.sz) (push_all_keeps ps v.slot r' (pop_next r e))
