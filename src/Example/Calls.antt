-- ===== src/Example/Calls.antt =====
-- TestServer.h, TestClient.h and EntryPoint.cpp: which method of the service a call of the client runs,
-- and what the service answers.
use psi_shared.Base.{
  ℕ, ◌+◌, ◌≤◌, ◌<◌, ◌^◌, ◌≡◌, ◌≢◌, refl, arith, List, [], ◌∷◌, some, true, length,
}
use psi_shared.Protocol.{Ty, Args, Sizes}
use psi_shared.Protocol.Serializer.{Memory}
use psi_shared.Protocol.Encoding.{encode_args, AreValues}
use psi_shared.Protocol.Arguments.{NoVectors}
use psi_shared.Callback
use psi_shared.CallSpace.Refine as Log
use psi_shared.CallbackSpace.Reserve.{IsFreeAt}
use psi_shared.Wrapper.{invoke}
use psi_shared.Client.{Config, Texts, Spaces, Client}
use psi_shared.Client.Valid.{AreValid}
use psi_shared.Client.Arrival.{Arrived, request_arrives}
use psi_shared.SharedMemory.Managers.{Fits}
use psi_shared.Example.{
  TestMethod, call_no_args_no_cb, call_args_no_cb, call_no_args_void_cb, call_no_args_complex_cb,
  call_args_cb, call_vector_cb, call_vector_string_cb, string_call_args, vector_call_args,
  parameters, answer_types, find_fn, method_id, invoke_method, test_service,
}

-- The method that the service runs for a call of the client: its own, but for `vectorCallArgs`.
abbrev pub served : TestMethod → TestMethod
served vector_call_args = string_call_args
served m = m

find_fn-method_id : (m : TestMethod) → find_fn (method_id m) ≡ some (served m)
unfolding method_id
find_fn-method_id call_no_args_no_cb = refl
find_fn-method_id call_args_no_cb = refl
find_fn-method_id call_no_args_void_cb = refl
find_fn-method_id call_no_args_complex_cb = refl
find_fn-method_id call_args_cb = refl
find_fn-method_id call_vector_cb = refl
find_fn-method_id call_vector_string_cb = refl
find_fn-method_id string_call_args = refl
find_fn-method_id vector_call_args = refl

parameters-NoVectors : (ld : ℕ) (m : TestMethod) → NoVectors (parameters ld m)
parameters-NoVectors ld call_no_args_no_cb = tt
parameters-NoVectors ld call_args_no_cb = tt
parameters-NoVectors ld call_no_args_void_cb = tt
parameters-NoVectors ld call_no_args_complex_cb = tt
parameters-NoVectors ld call_args_cb = tt
parameters-NoVectors ld call_vector_cb = tt
parameters-NoVectors ld call_vector_string_cb = tt
parameters-NoVectors ld string_call_args = tt
parameters-NoVectors ld vector_call_args = tt

method_id_fits : (m : TestMethod) → method_id m < 2 ^ 16
unfolding method_id
method_id_fits m = ground arith

module _ (k : Config) (z : Sizes) (texts : Texts) {F : Type 0} where
  -- Each call of the example's client with a callback or a result, that fits a slot and finds an
  -- empty log and a free slot, is run by the example's server as the method that was called, on the
  -- encoded arguments, but for `vectorCallArgs`, which is run as `stringCallArgs`, on no arguments.
  pub invoke_method_lem :
      (ld : ℕ) (m : TestMethod) (args : Args (parameters ld m)) (fn : F) (now : ℕ) (c : Client F)
      (s : Spaces) (j : ℕ) (rs : List Ty)
      → answer_types m ≡ some rs
      → Fits k
      → 0 < k.call_queue
      → AreValid k s
      → AreValues (parameters ld m) args
      → 16 + length (encode_args (parameters ld m) args) ≤ k.call_sz
      → Log.contents s.calls ≡ []
      → j < k.callback_queue
      → IsFreeAt j s.callbacks
      → c.client_id < 2 ^ 16
      → Arrived k z texts find_fn
          (parameters ld m)
          args
          (record { types = rs; is_set = true; fn = fn })
          (method_id m)
          10000
          now
          (served m)
          c
          (invoke_method k z texts ld m args fn now c s)
  unfolding invoke_method
  invoke_method_lem ld m args fn now c s j rs has fits some_queue v a room empty hj is_free hc =
      rw (invoke_method, has)
        (request_arrives k z texts find_fn (parameters ld m) args
          (record { types = rs; is_set = true; fn = fn }) (method_id m) 10000 now c s (served m) j
          fits.calls_fit some_queue (fits.callbacks_fit.queue_fits) v (parameters-NoVectors ld m) a
          room empty hj is_free hc (method_id_fits m) (find_fn-method_id m))

-- The service answers a call of each method with a callback or a result once, but for the two with a
-- callback for a vector, which it never answers.
pub test_service_lem :
    (z : Sizes) (ld data_size : ℕ) (cb_data : Memory)
    → ((m : TestMethod) (rs : List Ty)
        → answer_types m ≡ some rs
        → m ≢ call_vector_cb
        → m ≢ call_vector_string_cb
        → (answer : Memory × ℕ) × (invoke z data_size (test_service ld m) cb_data tt
            ≡ some (tt, answer ∷ [])))
      × (invoke z data_size (test_service ld call_vector_cb) cb_data tt ≡ some (tt, []))
      × (invoke z data_size (test_service ld call_vector_string_cb) cb_data tt ≡ some (tt, []))
unfolding invoke test_service Callback.success
test_service_lem z ld data_size cb_data = (once, refl, refl)
  where
    once :
        (m : TestMethod) (rs : List Ty)
        → answer_types m ≡ some rs
        → m ≢ call_vector_cb
        → m ≢ call_vector_string_cb
        → (answer : Memory × ℕ) × (invoke z data_size (test_service ld m) cb_data tt
            ≡ some (tt, answer ∷ []))
    once call_no_args_no_cb rs has h1 h2 = absurd (cc)
    once call_args_no_cb rs has h1 h2 = absurd (cc)
    once call_no_args_void_cb rs has h1 h2 = (_, refl)
    once call_no_args_complex_cb rs has h1 h2 = (_, refl)
    once call_args_cb rs has h1 h2 = (_, refl)
    once call_vector_cb rs has h1 h2 = absurd (h1 refl)
    once call_vector_string_cb rs has h1 h2 = absurd (h2 refl)
    once string_call_args rs has h1 h2 = (_, refl)
    once vector_call_args rs has h1 h2 = (_, refl)
