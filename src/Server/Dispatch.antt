-- ===== src/Server/Dispatch.antt =====
-- IServerIPC.h: the calls in the buffer, and what is done for each of them.
use native.Mathlib.Nat.{mod-eq_of_lt}
use psi_shared.Base.{
  ℕ, zero, suc, ◌+◌, ◌≤◌, ◌<◌, ◌^◌, ◌≡◌, ◌≢◌, inl, inr, Option-cases, refl, ap, ◌∙◌, List, [], ◌∷◌,
  ◌++◌, append_assoc, Option, none, some, arith, length, length-append, drop, read_at,
  read_at_front, drop_front, u32, to_bytes, of_bytes, length-to_bytes, of_bytes-to_bytes, lt→ltb,
  le→ltb,
}
use psi_shared.Protocol.Serializer.{Memory}
use psi_shared.Call
use psi_shared.Call.{IpcCall, head_sz}
use psi_shared.Call.Message.{head_bytes, call_bytes, length-head_bytes, length-call_bytes}
use psi_shared.Call.RoundTrip.{InRange, checked, deserialize_lem}
use psi_shared.Server.{Effect, prepend, effect, read_from, on_read_call_memory}

-- A call and the bytes of its arguments.
abbrev pub Sent : Type 0
Sent = IpcCall × List ℕ

abbrev pub wire : List Sent → List ℕ
wire [] = []
wire ((c, args) ∷ calls) = call_bytes c args ++ wire calls

abbrev pub AllInRange : List Sent → Type 0
AllInRange [] = Unit {0}
AllInRange ((c, args) ∷ calls) = (InRange c × (length args < 2 ^ 16)) × AllInRange calls

module _ {F : Type 0} (find_method : ℕ → Option F) where
  abbrev pub effect_of : Sent → Effect F
  effect_of (c, args) = effect find_method c.method_id args c.cb_index

  abbrev pub effects_of : List Sent → List (Effect F)
  effects_of [] = []
  effects_of (call ∷ calls) = effect_of call ∷ effects_of calls

-- The memory of a program holds bytes.
abbrev pub AllBytes : List ℕ → Type 0
AllBytes [] = Unit {0}
AllBytes (b ∷ bs) = (b < 256) × AllBytes bs

size_lt : (queue : List ℕ) (i : ℕ) → AllBytes queue → of_bytes (read_at queue i 2) < 2 ^ 16
unfolding of_bytes
size_lt [] zero b = omega arith
size_lt [] (suc i) b = omega arith
size_lt (x ∷ []) zero b = omega arith
size_lt (x ∷ y ∷ queue) zero b = omega arith
size_lt (x ∷ queue) (suc i) b = size_lt queue i b.1

module _ {F : Type 0} (call_sz : ℕ) (find_method : ℕ → Option F) where
  -- One round at a call that stands in the buffer whole.
  read_from_step :
      (fuel : ℕ) (queue : Memory) (queue_sz i : ℕ) (c : IpcCall) (args rest : List ℕ)
      → InRange c
      → length args < 2 ^ 16
      → queue_sz < 2 ^ 32
      → i + 14 + 2 + length args ≤ queue_sz
      → drop i queue ≡ call_bytes c args ++ rest
      → read_from call_sz find_method (suc fuel) queue queue_sz i
        ≡ prepend
            (effect_of find_method (c, args))
            (read_from call_sz find_method fuel queue queue_sz (i + 14 + 2 + length args))
  unfolding read_from
  read_from_step fuel queue queue_sz i c args rest v ha hq fits h = rw (
    read,
    small (i + 14) (omega (arith, fits, hq)),
    size,
    small (i + 14 + 2) (omega (arith, fits, hq)),
    small (i + 14 + 2 + length args) (omega (arith, fits, hq)),
    arguments,
    lt→ltb i queue_sz (omega (arith, fits)),
    le→ltb queue_sz (i + 14) (omega (arith, fits)),
    le→ltb queue_sz (i + 14 + 2) (omega (arith, fits)),
    le→ltb queue_sz (i + 14 + 2 + length args) fits,
  )
    where
      small : (n : ℕ) → n < 2 ^ 32 → u32 n ≡ n
      small n p = mod-eq_of_lt p

      n : List ℕ
      n = to_bytes 2 (length args)

      split : drop i queue ≡ head_bytes c ++ (n ++ (args ++ rest))
      split =
          h
          ∙ append_assoc (head_bytes c) (n ++ args) rest
          ∙ ap (λ t. head_bytes c ++ t) (append_assoc n args rest)

      sent : IpcCall
      sent = record c { args_sz = length args }

      read : Call.deserialize call_sz queue i ≡ checked call_sz sent
      read =
          deserialize_lem call_sz queue i sent (args ++ rest)
            (record {
              id_fits = v.id_fits;
              method_fits = v.method_fits;
              client_fits = v.client_fits;
              index_fits = v.index_fits;
            })
            ha (omega (arith, fits, hq)) split

      after_head : drop (i + 14) queue ≡ n ++ (args ++ rest)
      after_head =
          drop_front queue i (i + 14) (head_bytes c) (n ++ (args ++ rest))
            (ap (λ k. i + k) (length-head_bytes c)) split

      size : of_bytes (read_at queue (i + 14) 2) ≡ length args
      size =
          ap of_bytes (
            read_at_front queue (i + 14) 2 n (args ++ rest) (length-to_bytes 2 (length args))
              after_head)
          ∙ of_bytes-to_bytes 2 (length args) ha

      after_size : drop (i + 14 + 2) queue ≡ args ++ rest
      after_size =
          drop_front queue (i + 14) (i + 14 + 2) n (args ++ rest)
            (ap (λ k. i + 14 + k) (length-to_bytes 2 (length args))) after_head

      arguments : read_at queue (i + 14 + 2) (length args) ≡ args
      arguments = read_at_front queue (i + 14 + 2) (length args) args rest refl after_size

  read_from_lem :
      (calls : List Sent) (fuel : ℕ) (queue : Memory) (queue_sz i : ℕ)
      → AllInRange calls
      → queue_sz < 2 ^ 32
      → i + length (wire calls) ≡ queue_sz
      → length (wire calls) < fuel
      → drop i queue ≡ wire calls
      → read_from call_sz find_method fuel queue queue_sz i ≡ some (effects_of find_method calls)
  read_from_lem calls zero queue queue_sz i v hq e hf h = absurd (omega arith)
  read_from_lem [] (suc fuel) queue queue_sz i v hq e hf h =
      unfold read_from in (rw (le→ltb i queue_sz (omega (arith, e))))
  read_from_lem ((c, args) ∷ calls) (suc fuel) queue queue_sz i v hq e hf h =
      read_from_step fuel queue queue_sz i c args (wire calls) v.0.0 v.0.1 hq
        (omega (arith, sizes, e)) h
      ∙ ap (prepend (effect_of find_method (c, args))) (
          read_from_lem calls fuel queue queue_sz (i + 14 + 2 + length args) v.1 hq
            (omega (arith, sizes, e)) (omega (arith, sizes, hf))
            (drop_front queue i (i + 14 + 2 + length args) (call_bytes c args) (wire calls)
              (omega (arith, length-call_bytes c args)) h))
    where
      sizes : length (call_bytes c args ++ wire calls) ≡ 16 + length args + length (wire calls)
      sizes =
          omega (arith, length-append (call_bytes c args) (wire calls), length-call_bytes c args)

  -- A buffer that holds calls one after the other, and nothing else, with fields in their ranges
  -- and fewer than 2^32 bytes in all, is read to its end: the methods
  -- are run, or reported, for all of these calls, in their order, each with its own arguments and
  -- the index for its answer.
  pub on_read_call_memory_lem :
      (calls : List Sent)
      → AllInRange calls
      → length (wire calls) < 2 ^ 32
      → on_read_call_memory call_sz find_method (wire calls) (length (wire calls))
        ≡ some (effects_of find_method calls)
  unfolding on_read_call_memory
  on_read_call_memory_lem calls v h =
      read_from_lem calls (suc (length (wire calls))) (wire calls) (length (wire calls)) 0 v h
        (omega arith) (omega arith) refl

  read_from_ends :
      (fuel : ℕ) (queue : Memory) (queue_sz i : ℕ)
      → AllBytes queue
      → queue_sz + 2 ^ 17 < 2 ^ 32
      → i ≤ queue_sz
      → queue_sz < fuel + i
      → read_from call_sz find_method fuel queue queue_sz i ≢ none
  unfolding read_from
  read_from_ends zero queue queue_sz i b hq hi hf = absurd (omega arith)
  read_from_ends (suc fuel) queue queue_sz i b hq hi hf = ground (
    arith,
    size_lt queue (u32 (i + head_sz)) b,
    read_from_ends fuel queue queue_sz
        (u32 (u32 (u32 (i + head_sz) + 2) + of_bytes (read_at queue (u32 (i + head_sz)) 2))) b hq,
  )

  -- Whatever bytes the clients left in the buffer, the loop comes to an end, with some list of
  -- effects, if the buffer has fewer than 2^32 - 2^17 bytes.
  pub on_read_call_memory_total :
      (queue : Memory)
      → AllBytes queue
      → length queue + 2 ^ 17 < 2 ^ 32
      → (effects : List (Effect F)) × (on_read_call_memory call_sz find_method queue (length queue)
          ≡ some effects)
  unfolding on_read_call_memory
  on_read_call_memory_total queue b hq =
      elim (Option-cases
        (read_from call_sz find_method (suc (length queue)) queue (length queue) 0)) [
          | inl e ↦ absurd (
              read_from_ends (suc (length queue)) queue (length queue) 0 b hq (omega arith)
                (omega arith) e)
          | inr (effects, e) ↦ (effects, e)
        ]
