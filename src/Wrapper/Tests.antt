-- ===== src/Wrapper/Tests.antt =====
-- MemberFnWrapper.h: the theorem at a service whose state is a number.
use psi_shared.Base.{ℕ, ◌+◌, ◌≡◌, refl, List, [], ◌∷◌, none, some, arith, length, map}
use psi_shared.Protocol.{trivial, string, vector, Args, Sizes}
use psi_shared.Protocol.Encoding.{encode, encode_args}
use psi_shared.Callback.{Answer, error_none}
use psi_shared.Wrapper.{Method, plain, calls_back, returns, pack_answer, invoke}
use psi_shared.Wrapper.Unpack.{invoke_lem}

abbrev sizes : Sizes
sizes = record { string_size = 32; vector_size = 24 }

abbrev add : Args (trivial 2 ∷ []) → ℕ → ℕ
add (v, rest) state = length v + state

abbrev add_and_answer : Args (trivial 2 ∷ []) → ℕ → ℕ × List (Answer (string ∷ []))
add_and_answer (v, rest) state =
    (length v + state, record { error_code = 0; error_msg = []; args = (v, tt) } ∷ [])

abbrev add_and_return : Args (trivial 2 ∷ []) → ℕ → ℕ × List ℕ
add_and_return (v, rest) state = (length v + state, v)

-- No function is made of a method that returns a value and has a vector among its parameters.
abbrev with_vector : Method ℕ
with_vector = returns (vector (trivial 1) ∷ []) (trivial 1) (λ args state. (state, 1 ∷ []))

invoke-with_vector : invoke sizes 16 with_vector [] 5 ≡ none
unfolding invoke
invoke-with_vector = refl

invoke_lem_example :
    let bytes = encode_args (trivial 2 ∷ []) (7 ∷ 1 ∷ [], tt) in
    (invoke sizes 16 (plain (trivial 2 ∷ []) add) bytes 5 ≡ some (7, []))
    × (invoke sizes 16 (calls_back (trivial 2 ∷ []) (string ∷ []) add_and_answer) bytes 5
        ≡ some (
          7,
          map
              (pack_answer 16 (string ∷ []))
              (record { error_code = 0; error_msg = []; args = (7 ∷ 1 ∷ [], tt) } ∷ []),
        ))
    × (invoke sizes 16 (returns (trivial 2 ∷ []) (trivial 2) add_and_return) bytes 5
        ≡ some (
          7,
          pack_answer 16
                (trivial 2 ∷ [])
                (record { error_code = error_none; error_msg = []; args = (7 ∷ 1 ∷ [], tt) })
              ∷ [],
        ))
unfolding encode_args encode
invoke_lem_example =
    invoke_lem sizes 16 (trivial 2 ∷ []) (7 ∷ 1 ∷ [], tt) 5 (string ∷ []) (trivial 2) add
      add_and_answer add_and_return (refl, tt) (omega arith)
