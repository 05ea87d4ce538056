-- ===== src/Example.antt =====
-- psi/examples/1.0_Simple_SharedMemory/ (ITest.h, TestServer.h, TestClient.h, EntryPoint.cpp): the
-- service of the example program, its table of methods, and the calls of its client.
pub mod Calls
mod Tests
use psi_shared.Base.{
  ℕ, List, [], ◌∷◌, Option, none, some, Bool, true, false, ◌==◌, if◌then◌else◌, replicate,
}
use psi_shared.Protocol.{Ty, trivial, string, vector, Val, Args, Sizes}
use psi_shared.Callback.{Answer, error_none}
use psi_shared.Wrapper.{Method, plain, calls_back, returns}
use psi_shared.Event.{IpcEvent, notify}
use psi_shared.EventSpace.{EventSpace}
use psi_shared.Client.{Config, Texts, Spaces, UserCallback, Reply, Client}
use psi_shared.Client.Sender.{call_server}

-- The methods of `ITest`.
pub data TestMethod : Type 0 where
  call_no_args_no_cb : TestMethod
  call_args_no_cb : TestMethod
  call_no_args_void_cb : TestMethod
  call_no_args_complex_cb : TestMethod
  call_args_cb : TestMethod
  call_vector_cb : TestMethod
  call_vector_string_cb : TestMethod
  string_call_args : TestMethod
  vector_call_args : TestMethod

-- The types on the platform: `double`, `bool`, `int8_t`, `int32_t`, `uint64_t`, `uint16_t`.
abbrev pub double : Ty
double = trivial 8

abbrev pub bool : Ty
bool = trivial 1

-- `ld` is `sizeof(long double)`.
abbrev pub parameters : ℕ → TestMethod → List Ty
parameters ld call_no_args_no_cb = []
parameters ld call_args_no_cb = double ∷ bool ∷ string ∷ trivial 1 ∷ []
parameters ld call_no_args_void_cb = []
parameters ld call_no_args_complex_cb = []
parameters ld call_args_cb = trivial ld ∷ bool ∷ string ∷ trivial 8 ∷ []
parameters ld call_vector_cb = []
parameters ld call_vector_string_cb = []
parameters ld string_call_args = trivial ld ∷ bool ∷ string ∷ trivial 2 ∷ []
parameters ld vector_call_args = []

-- `ComplexCb` and `ComplexEv`
abbrev pub complex : List Ty
complex = double ∷ bool ∷ string ∷ trivial 4 ∷ []

-- What a callback or a result holds, for the methods that have one.
abbrev pub answer_types : TestMethod → Option (List Ty)
answer_types call_no_args_no_cb = none
answer_types call_args_no_cb = none
answer_types call_no_args_void_cb = some []
answer_types call_no_args_complex_cb = some complex
answer_types call_args_cb = some complex
answer_types call_vector_cb = some (vector (trivial 8) ∷ [])
answer_types call_vector_string_cb = some (vector string ∷ [])
answer_types string_call_args = some (string ∷ [])
answer_types vector_call_args = some (vector string ∷ [])

-- `TestServer::generateFnMap`
abbrev pub fn_map : List (ℕ × TestMethod)
fn_map =
    (1, call_no_args_no_cb)
    ∷ (2, call_args_no_cb)
    ∷ (3, call_no_args_void_cb)
    ∷ (4, call_no_args_complex_cb)
    ∷ (5, call_args_cb)
    ∷ (6, call_vector_cb)
    ∷ (7, call_vector_string_cb)
    ∷ (8, string_call_args)
    ∷ (9, vector_call_args)
    ∷ []

-- `m_fnServiceMap.find`
abbrev pub find_in : ℕ → List (ℕ × TestMethod) → Option TestMethod
find_in id [] = none
find_in id ((k, m) ∷ rest) = if k == id then some m else find_in id rest

abbrev pub find_fn : ℕ → Option TestMethod
find_fn id = find_in id fn_map

-- The ids that `TestClient` sends.
unfoldable pub method_id : TestMethod → ℕ
method_id call_no_args_no_cb = 1
method_id call_args_no_cb = 2
method_id call_no_args_void_cb = 3
method_id call_no_args_complex_cb = 4
method_id call_args_cb = 5
method_id call_vector_cb = 6
method_id call_vector_string_cb = 7
method_id string_call_args = 8
method_id vector_call_args = 8

-- The callback of a call, where the method has one, or the lambda of a call with a result.
abbrev pub callback_of : {F : Type 0} → Option (List Ty) → F → Option (UserCallback F)
callback_of none fn = none
callback_of (some rs) fn = some (record { types = rs; is_set = true; fn = fn })

-- The calls of `TestClient`, up to the wait for a result; `fn` is the function of the callback.
unfoldable pub invoke_method :
    {F : Type 0}
    → Config
    → Sizes
    → Texts
    → (ld : ℕ) (m : TestMethod) → Args (parameters ld m)
    → F
    → ℕ
    → Client F
    → Spaces
    → Client F × Spaces × List (Reply F)
invoke_method k z texts ld m args fn now c s =
    call_server k z texts (parameters ld m) args (callback_of (answer_types m) fn) (method_id m)
      10000 now c s

-- An answer with values, as `success` makes it.
abbrev succeeds : (rs : List Ty) → Args rs → Answer rs
succeeds rs args = record { error_code = error_none; error_msg = []; args = args }

-- `TestService`, over the methods of `TestServer` that it leaves as they are, which do nothing; what
-- they print is left out. 15.7 and 7.15 are doubles in the format of IEEE 754.
unfoldable pub test_service : (ld : ℕ) → TestMethod → Method (Unit {0})
test_service ld call_no_args_no_cb = plain [] (λ args t. t)
test_service ld call_args_no_cb = plain (parameters ld call_args_no_cb) (λ args t. t)
test_service ld call_no_args_void_cb = calls_back [] [] (λ args t. (t, succeeds [] tt ∷ []))
test_service ld call_no_args_complex_cb = calls_back [] complex (λ args t. (
  t,
  succeeds complex (
    102 ∷ 102 ∷ 102 ∷ 102 ∷ 102 ∷ 102 ∷ 47 ∷ 64 ∷ [],
    (
      1 ∷ [],
      (
        99 ∷ 97 ∷ 108 ∷ 108 ∷ 78 ∷ 111 ∷ 65 ∷ 114 ∷ 103 ∷ 115 ∷ 67 ∷ 111 ∷ 109 ∷ 112 ∷ 108 ∷ 101
            ∷ 120 ∷ 67 ∷ 98 ∷ [],
        (246 ∷ 255 ∷ 255 ∷ 255 ∷ [], tt),
      ),
    ),
  )
      ∷ [],
))
test_service ld call_args_cb = calls_back (parameters ld call_args_cb) complex (λ args t. (
  t,
  succeeds complex (
    154 ∷ 153 ∷ 153 ∷ 153 ∷ 153 ∷ 153 ∷ 28 ∷ 64 ∷ [],
    (
      1 ∷ [],
      (99 ∷ 97 ∷ 108 ∷ 108 ∷ 65 ∷ 114 ∷ 103 ∷ 115 ∷ 67 ∷ 98 ∷ [], (249 ∷ 255 ∷ 255 ∷ 255 ∷ [], tt)),
    ),
  )
      ∷ [],
))
test_service ld call_vector_cb = calls_back [] (vector (trivial 8) ∷ []) (λ args t. (t, []))
test_service ld call_vector_string_cb = calls_back [] (vector string ∷ []) (λ args t. (t, []))
test_service ld string_call_args = returns (parameters ld string_call_args) string (λ args t.
    (t, 115 ∷ 116 ∷ 114 ∷ 105 ∷ 110 ∷ 103 ∷ 67 ∷ 97 ∷ 108 ∷ 108 ∷ 65 ∷ 114 ∷ 103 ∷ 115 ∷ []))
test_service ld vector_call_args = returns [] (vector string) (λ args t. (t, []))

-- `VoidEv` and its like, with the ids of the enumeration.
abbrev pub void_event : IpcEvent
void_event = record { event_id = 0; types = [] }

abbrev pub complex_event : IpcEvent
complex_event = record { event_id = 1; types = complex }

abbrev pub vector_event : IpcEvent
vector_event = record { event_id = 2; types = vector (trivial 8) ∷ [] }

abbrev pub vector_string_event : IpcEvent
vector_string_event = record { event_id = 3; types = vector string ∷ [] }

-- `notify_VoidEvent` and its like.
unfoldable pub notify_void_event : ℕ → EventSpace → EventSpace × Bool
notify_void_event max_clients s = notify max_clients void_event tt s

unfoldable pub notify_complex_event : ℕ → Args complex_event.types → EventSpace → EventSpace × Bool
notify_complex_event max_clients args s = notify max_clients complex_event args s

unfoldable pub notify_vector_event : ℕ → Args vector_event.types → EventSpace → EventSpace × Bool
notify_vector_event max_clients args s = notify max_clients vector_event args s

unfoldable pub notify_vector_string_event :
    ℕ → Args vector_string_event.types → EventSpace → EventSpace × Bool
notify_vector_string_event max_clients args s = notify max_clients vector_string_event args s
