-- ===== src/Example/Tests.antt =====
-- TestClient.h and TestServer.h: `vectorCallArgs` over new spaces of the default configuration.
use psi_shared.Base.{ℕ, ◌≡◌, refl, arith, [], ◌∷◌, none, true, false}
use psi_shared.Protocol.{Sizes, string, vector}
use psi_shared.CallSpace.{empty_space}
use psi_shared.CallSpace.Refine as Log
use psi_shared.CallbackSpace as Callbacks
use psi_shared.CallbackSpace.Reserve.{IsFreeAt}
use psi_shared.Client.{Config, Texts, Client}
use psi_shared.Client.Arrival.{Arrived}
use psi_shared.SharedMemory.Managers.{
  new_spaces, config_of-Fits, config_of, queue_default, clients_default, queue_size, data_size,
}
use psi_shared.Protocol.Encoding.{encode_args}
use psi_shared.Example.{vector_call_args, string_call_args, find_fn, method_id, invoke_method}
use psi_shared.Example.Calls.{invoke_method_lem}

abbrev sizes : Sizes
sizes = record { string_size = 32; vector_size = 24 }

abbrev texts : Texts
texts = record { too_big = λ a b c d. []; no_space = λ a. []; timed_out = λ a b c d. [] }

abbrev config : Config
config = config_of queue_default queue_default clients_default

abbrev caller : Client ℕ
caller = record {
  client_id = 1;
  call_id = 0;
  is_active = true;
  subs = [];
  listeners = [];
  ev_client_id = none;
  server_available = false;
}

empty_log : Log.contents (new_spaces config).calls ≡ []
unfolding config_of new_spaces empty_space
empty_log = refl

first_free : IsFreeAt 0 (new_spaces config).callbacks
unfolding config_of new_spaces Callbacks.empty_space queue_size data_size
first_free = refl

invoke_method_lem_example :
    Arrived config sizes texts find_fn [] tt
      (record { types = vector string ∷ []; is_set = true; fn = 3 })
      8
      10000
      20
      string_call_args
      caller
      (invoke_method config sizes texts 16 vector_call_args tt 3 20 caller (new_spaces config))
unfolding config_of queue_size data_size encode_args method_id
invoke_method_lem_example =
    invoke_method_lem config sizes texts 16 vector_call_args tt 3 20 caller (new_spaces config) 0
      (vector string ∷ []) refl (config_of-Fits queue_default queue_default clients_default).0
      (omega arith) (config_of-Fits queue_default queue_default clients_default).1 tt (omega arith)
      empty_log (omega arith) first_free (omega arith)
