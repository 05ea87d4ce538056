-- ===== src/CallSpace/Refine.antt =====
-- CallSpace.h: the buffer as a log of bounded size.
use native.Mathlib.Nat.{mod-eq_of_lt}
use psi_shared.Base.{
  ℕ, ◌+◌, ◌*◌, ◌≤◌, ◌<◌, ◌^◌, ◌≡◌, ◌⊎◌, inl, inr, refl, sym, ap, ◌∙◌, append_assoc, Bool-cases,
  length-append, ◌∷◌, List, [], ◌++◌, append-nil, Option, none, some, Bool, true, false, ◌&&◌,
  arith, ltb, leb, ◌==◌, if◌then◌else◌, length, take, length-take, length-write_at,
  length-replicate, read_at, write_at, take-write_at, u32, take_all,
}
use psi_shared.CallSpace.{CallSpace, data_length, empty_space, push, pop, clear, is_data_available}

-- The calls that the server has not taken, as the bytes that they are.
abbrev pub contents : CallSpace → List ℕ
contents s = take s.write_index s.bytes

-- The template arguments are uint16_t.
pub record Layout (max_queue max_data : ℕ) : Type 0 where
  pub queue_fits : max_queue < 2 ^ 16
  pub data_fits : max_data < 2 ^ 16

pub record IsValid (max_queue max_data : ℕ) (s : CallSpace) : Type 0 where
  pub sized : length s.bytes ≡ data_length max_queue max_data
  pub within : s.write_index ≤ data_length max_queue max_data

-- What the buffer promises: append if the call is there and fits, else leave the log alone.
unfoldable pub append_call : ℕ → ℕ → List ℕ → List ℕ → List ℕ × Bool
append_call limit room call log =
    if ltb 0 (length call) && leb (length call) limit && leb (length log + length call) room
    then (log ++ call, true)
    else (log, false)

module _ {max_queue max_data : ℕ} (l : Layout max_queue max_data) where
  -- The uint32_t sum of the index and a size that was let through does not wrap.
  no_wrap :
      (sz : ℕ) {s : CallSpace}
      → IsValid max_queue max_data s
      → sz ≤ max_data
      → u32 (s.write_index + sz) ≡ s.write_index + sz
  no_wrap sz {s} v h = mod-eq_of_lt small
    where
      product : max_data * max_queue ≤ 65535 * 65535
      product = grind (arith, l.queue_fits, l.data_fits)

      small : s.write_index + sz < 2 ^ 32
      small = omega (arith, product, v.within, l.data_fits)

  pub empty_space-IsValid : IsValid max_queue max_data (empty_space max_queue max_data)
  unfolding empty_space
  empty_space-IsValid = record {
    sized = length-replicate (max_data * max_queue) 0;
    within = omega arith;
  }

  pub push-IsValid :
      (data_bytes : Option (List ℕ)) (sz : ℕ) {s : CallSpace}
      → IsValid max_queue max_data s
      → IsValid max_queue max_data (push max_queue max_data data_bytes sz s).0
  unfolding push
  push-IsValid none sz v = v
  push-IsValid (some b) sz {s} v =
      ground (arith, length-write_at s.bytes s.write_index (read_at b 0 sz))

  pub clear-IsValid :
      {s : CallSpace} → IsValid max_queue max_data s → IsValid max_queue max_data (clear s)
  unfolding clear
  clear-IsValid v = ground arith

  -- A push from memory of at least `sz` bytes appends those bytes exactly when they are some, no
  -- more than a call may have, and fit behind the calls in the buffer; else it changes nothing.
  pub push_refines :
      (b : List ℕ) (sz : ℕ) {s : CallSpace}
      → IsValid max_queue max_data s
      → sz ≤ length b
      → let (s', accepted) = push max_queue max_data (some b) sz s in
        (contents s', accepted)
        ≡ append_call max_data (data_length max_queue max_data) (read_at b 0 sz) (contents s)
  unfolding push append_call
  push_refines b sz {s} v h =
      ground (arith, no_wrap sz v, length-take sz b, length-take s.write_index s.bytes, appended)
    where
      size : length (read_at b 0 sz) ≡ sz
      size = omega (arith, length-take sz b)

      appended :
          s.write_index + sz ≤ data_length max_queue max_data
          → take (s.write_index + sz) (write_at s.bytes s.write_index (read_at b 0 sz))
            ≡ contents s ++ read_at b 0 sz
      appended fits =
          ap (λ n. take (s.write_index + n) (write_at s.bytes s.write_index (read_at b 0 sz)))
            {x = sz} {y = length (read_at b 0 sz)} (omega (arith, size))
          ∙ take-write_at s.bytes s.write_index (read_at b 0 sz) (omega (arith, size, v.sized))

-- What the server sees: a null pointer if nothing is there, else the size of the whole log and
-- memory that begins with it.
pub pop_lem :
    {max_queue max_data : ℕ} (s : CallSpace)
    → IsValid max_queue max_data s
    → ((contents s ≡ []) × (pop s ≡ (0, none)))
      ⊎ ((0 < length (contents s))
          × (pop s ≡ (length (contents s), some s.bytes))
          × (read_at s.bytes 0 (length (contents s)) ≡ contents s))
unfolding pop
pop_lem s v = elim (Bool-cases (s.write_index == 0)) [
  | inl e ↦ inl (ground arith, ground arith)
  | inr e ↦ inr (ground (arith, size), ground (arith, size), ap (λ n. take n s.bytes) size)
]
  where
    size : length (contents s) ≡ s.write_index
    size = omega (arith, length-take s.write_index s.bytes, v.sized, v.within)

-- The server's look at the space tells whether the log has any bytes.
pub is_data_available_lem :
    {max_queue max_data : ℕ} (s : CallSpace)
    → IsValid max_queue max_data s
    → is_data_available s ≡ ltb 0 (length (contents s))
unfolding is_data_available
is_data_available_lem s v =
    ap (ltb 0) {x = s.write_index} {y = length (contents s)}
      (omega (arith, length-take s.write_index s.bytes, v.sized, v.within))

pub contents-clear : (s : CallSpace) → contents (clear s) ≡ []
unfolding clear
contents-clear s = refl

-- Pushes one after the other, each of a whole array; how many bytes they make together.
pub push_all : ℕ → ℕ → List (List ℕ) → CallSpace → CallSpace
push_all max_queue max_data [] s = s
push_all max_queue max_data (call ∷ calls) s =
    push_all max_queue max_data calls (push max_queue max_data (some call) (length call) s).0

abbrev pub joined : List (List ℕ) → List ℕ
joined [] = []
joined (call ∷ calls) = call ++ joined calls

-- Every call has some bytes and at most `limit`.
abbrev pub AllCalls : ℕ → List (List ℕ) → Type 0
AllCalls limit [] = Unit {0}
AllCalls limit (call ∷ calls) = ((0 < length call) × (length call ≤ limit)) × AllCalls limit calls

module _ {max_queue max_data : ℕ} (l : Layout max_queue max_data) where
  push_fits :
      (call : List ℕ) {s : CallSpace}
      → IsValid max_queue max_data s
      → 0 < length call
      → length call ≤ max_data
      → length (contents s) + length call ≤ data_length max_queue max_data
      → contents (push max_queue max_data (some call) (length call) s).0 ≡ contents s ++ call
  unfolding append_call
  push_fits call {s} v some_bytes few_bytes room =
      ground (arith, push_refines l call (length call) v, take_all (length call) call)

  -- Calls of some bytes each, none longer than a call may be, that all fit, stand in the buffer
  -- whole, in the order of the pushes, behind what was there.
  pub contents-push_all :
      (calls : List (List ℕ)) {s : CallSpace}
      → IsValid max_queue max_data s
      → AllCalls max_data calls
      → length (contents s) + length (joined calls) ≤ data_length max_queue max_data
      → contents (push_all max_queue max_data calls s) ≡ contents s ++ joined calls
  unfolding push_all
  contents-push_all [] v a room = sym (append-nil _)
  contents-push_all (call ∷ calls) {s} v (a, rest) room =
      contents-push_all calls (push-IsValid l (some call) (length call) v) rest (
        omega (
          arith,
          ap length here,
          length-append (contents s) call,
          length-append call (joined calls),
        ))
      ∙ ap (λ log. log ++ joined calls) here
      ∙ append_assoc (contents s) call (joined calls)
    where
      here : contents (push max_queue max_data (some call) (length call) s).0 ≡ contents s ++ call
      here = push_fits call v a.0 a.1 (omega (arith, room, length-append call (joined calls)))

  pub push_all-IsValid :
      (calls : List (List ℕ)) {s : CallSpace}
      → IsValid max_queue max_data s
      → IsValid max_queue max_data (push_all max_queue max_data calls s)
  unfolding push_all
  push_all-IsValid [] v = v
  push_all-IsValid (call ∷ calls) v =
      push_all-IsValid calls (push-IsValid l (some call) (length call) v)
