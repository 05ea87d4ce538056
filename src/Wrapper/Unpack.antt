-- ===== src/Wrapper/Unpack.antt =====
-- MemberFnWrapper.h: the arguments that a method gets.
use psi_shared.Base.{
  Bool, true, false, ◌||◌, not, ℕ, ◌<◌, ◌^◌, ◌≡◌, refl, sym, ap, List, [], ◌∷◌, append-nil, some,
  none, arith, length, map, if◌then◌else◌,
}
use psi_shared.Protocol.{Ty, trivial, string, vector, Val, Args, Sizes}
use psi_shared.Protocol.Encoding.{encode_args, AreReadable}
use psi_shared.Protocol.Read.{deserialize_tuples_lem}
use psi_shared.Callback.{Answer, error_none, success}
use psi_shared.Wrapper.{plain, calls_back, returns, pack_answer, unpack, no_other, invoke}

-- Arguments are unpacked from their own encoding.
pub unpack_lem :
    (z : Sizes) (ts : List Ty) (args : Args ts)
    → AreReadable z ts args
    → length (encode_args ts args) < 2 ^ 16
    → unpack z ts (encode_args ts args) ≡ args
unfolding unpack
unpack_lem z ts args r h =
    ap (λ p. p.0)
      (deserialize_tuples_lem z ts (encode_args ts args) 0 args [] r
        (sym (append-nil (encode_args ts args))) (omega (arith, h)))

abbrev pub is_vector : Ty → Bool
is_vector (trivial n) = false
is_vector string = false
is_vector (vector t) = true

abbrev pub has_vector : List Ty → Bool
has_vector [] = false
has_vector (t ∷ ts) = is_vector t || has_vector ts

no_other-has_vector : (ts : List Ty) → no_other ts ≡ not (has_vector ts)
no_other-has_vector [] = refl
no_other-has_vector (trivial n ∷ ts) = no_other-has_vector ts
no_other-has_vector (string ∷ ts) = no_other-has_vector ts
no_other-has_vector (vector t ∷ ts) = refl

-- The answer to a call that is run, or none where there is no function to run.
by_kind :
    {A : Type 0} (b : Bool) (a : A)
    → (if not b then some a else none) ≡ (if b then none else some a)
by_kind true a = refl
by_kind false a = refl

module _ (z : Sizes) (data_size : ℕ) {T : Type 0} (ts : List Ty) (args : Args ts) (caller : T) where
  -- On the encoding of its arguments, of fewer than 2^16 bytes, where each vector among them has at
  -- most `65535 / sizeof(T)` elements: a wrapped method is run once on these arguments, in each of its
  -- three kinds, and `cb` gets one packed answer for each call of its callback, or the one value that
  -- it returns, with error code 0. Only a method that returns a value and has a vector among its
  -- parameters is not run: there is no function to call, and the call throws.
  pub invoke_lem :
      (rs : List Ty) (r : Ty) (f : Args ts → T → T) (g : Args ts → T → T × List (Answer rs))
      (h : Args ts → T → T × Val r)
      → AreReadable z ts args
      → length (encode_args ts args) < 2 ^ 16
      → let bytes = encode_args ts args in
        (invoke z data_size (plain ts f) bytes caller ≡ some (f args caller, []))
        × (invoke z data_size (calls_back ts rs g) bytes caller
            ≡ some ((g args caller).0, map (pack_answer data_size rs) (g args caller).1))
        × (invoke z data_size (returns ts r h) bytes caller ≡ (
            if has_vector ts
            then none
            else some (
              (h args caller).0,
              pack_answer data_size (r ∷ []) (record {
                error_code = error_none;
                error_msg = [];
                args = ((h args caller).1, tt);
              })
                  ∷ [],
            )))
  unfolding invoke success
  invoke_lem rs r f g h readable fits =
      rw (unpack_lem z ts args readable fits, no_other-has_vector ts)
        (refl, refl, by_kind (has_vector ts) _)
