-- ===== src/Server/Delivery.antt =====
-- ServerIPCBase.cpp and CallSpace.h together: from the clients' pushes to the server's round.
use psi_shared.Base.{
  ℕ, ◌+◌, ◌*◌, ◌≤◌, ◌<◌, ◌≡◌, ◌≢◌, refl, ap, ◌∙◌, List, [], ◌∷◌, ◌++◌, Option, none, some, arith,
  length, length-append, ◌==◌, if◌then◌else◌,
}
use psi_shared.Call.Message.{call_bytes, length-call_bytes}
use psi_shared.CallSpace.{CallSpace, data_length}
use psi_shared.CallSpace.Refine.{
  Layout, IsValid, contents, pop_lem, push_all, push_all-IsValid, joined, AllCalls,
  contents-push_all, contents-clear, is_data_available_lem,
}
use psi_shared.Server.{take_calls, read_memory, on_read_call_memory}
use psi_shared.Server.Dispatch.{Sent, wire, AllInRange, effects_of, on_read_call_memory_lem}

-- What is taken under the lock: all of the calls that are there, and the space is left empty.
pub take_calls_lem :
    {max_queue max_data : ℕ} (s : CallSpace)
    → IsValid max_queue max_data s
    → let (s', taken) = take_calls s in
      (contents s' ≡ []) × (taken ≡ (if length (contents s) == 0 then none else some (contents s)))
unfolding take_calls
take_calls_lem s v = ground (arith, pop_lem s v, contents-clear s)

-- The bytes of each call by itself, as it is pushed.
abbrev pub packets : List Sent → List (List ℕ)
packets [] = []
packets ((c, args) ∷ calls) = call_bytes c args ∷ packets calls

joined-packets : (calls : List Sent) → joined (packets calls) ≡ wire calls
joined-packets [] = refl
joined-packets ((c, args) ∷ calls) = ap (λ t. call_bytes c args ++ t) (joined-packets calls)

-- Every call fits a slot of the space.
abbrev pub AllFit : ℕ → List Sent → Type 0
AllFit max_data [] = Unit {0}
AllFit max_data ((c, args) ∷ calls) = (16 + length args ≤ max_data) × AllFit max_data calls

packets-AllCalls :
    (max_data : ℕ) (calls : List Sent) → AllFit max_data calls → AllCalls max_data (packets calls)
packets-AllCalls max_data [] f = tt
packets-AllCalls max_data ((c, args) ∷ calls) f = (
  (omega (arith, length-call_bytes c args), omega (arith, length-call_bytes c args, f.0)),
  packets-AllCalls max_data calls f.1,
)

some_bytes : (calls : List Sent) → calls ≢ [] → 0 < length (wire calls)
some_bytes [] ne = absurd (ne refl)
some_bytes ((c, args) ∷ calls) ne =
    omega (arith, length-append (call_bytes c args) (wire calls), length-call_bytes c args)

module _ {max_queue max_data : ℕ} (l : Layout max_queue max_data) {F : Type 0}
    (find_method : ℕ → Option F) where
  -- Calls that clients pushed into an empty space, in whatever number, are taken by the server's next
  -- round as they are, the space is empty again, and exactly these calls are run or reported, in the
  -- order of the pushes, if each fits a slot and all fit the space.
  pub server_receives :
      (calls : List Sent) {s : CallSpace}
      → IsValid max_queue max_data s
      → contents s ≡ []
      → calls ≢ []
      → AllInRange calls
      → AllFit max_data calls
      → length (wire calls) ≤ data_length max_queue max_data
      → let s' = push_all max_queue max_data (packets calls) s in
        let (s'', taken) = read_memory s' s' in
        (contents s'' ≡ [])
        × (taken ≡ some (wire calls))
        × (on_read_call_memory max_data find_method (wire calls) (length (wire calls))
            ≡ some (effects_of find_method calls))
  unfolding read_memory
  server_receives calls {s} v e ne r f room = ground (
    arith,
    is_data_available_lem pushed valid,
    take_calls_lem pushed valid,
    here,
    some_bytes calls ne,
    on_read_call_memory_lem max_data find_method calls r (omega (arith, small, room)),
  )
    where
      pushed : CallSpace
      pushed = push_all max_queue max_data (packets calls) s

      valid : IsValid max_queue max_data pushed
      valid = push_all-IsValid l (packets calls) v

      small : max_data * max_queue ≤ 65535 * 65535
      small = grind (arith, l.queue_fits, l.data_fits)

      here : contents pushed ≡ wire calls
      here =
          contents-push_all l (packets calls) v (packets-AllCalls max_data calls f)
            (rw (e, joined-packets calls) (omega (arith, room)))
          ∙ rw (e, joined-packets calls)
