-- ===== src/InFlight/Tests.antt =====
-- ClientIPC.cpp, IClientIPC.hpp and CallbackSpace.h: calls over a space with two slots.
use psi_shared.Base.{
  ◌+◌, ◌↔◌, length, map, ℕ, ◌≡◌, refl, arith, [], ◌∷◌, ◌++◌, none, some, true, false,
}
use psi_shared.Protocol.{Sizes}
use psi_shared.CallbackSpace.{CallbackSpace, empty_space, push_callback, push_from}
use psi_shared.CallbackSpace.Refine.{Layout}
use psi_shared.CallbackSpace.Reserve.{IsFreeAt}
use psi_shared.Server.{on_callback}
use psi_shared.Client.{Config, Texts, Sub, Client, disconnect}
use psi_shared.Client.Lifecycle.{destroy_client}
use psi_shared.InFlight.{listed, System, reserve, enlist, answer, Reach, start, next}
use psi_shared.InFlight.Count.{holders}
use psi_shared.InFlight.Progress.{slot_of_call, push_callback-Reach}
use psi_shared.InFlight.Runs.{Steps, done, more}
use psi_shared.Client.Rounds.{read_cb_data}
use psi_shared.InFlight.Rounds.{read_cb_data-Reach}
use psi_shared.InFlight.Ended.{gone, destroy_client-IsFreeAt}

abbrev config : Config
config = record {
  call_queue = 4;
  call_sz = 64;
  callback_queue = 2;
  callback_sz = 4;
  max_clients = 2;
}

abbrev sizes : Sizes
sizes = record { string_size = 32; vector_size = 24 }

abbrev texts : Texts
texts = record { too_big = λ a b c d. []; no_space = λ a. []; timed_out = λ a b c d. [] }

layout : Layout 2 4
layout = record { queue_fits = omega arith; data_fits = omega arith }

-- A call that waits at the slot 0.
abbrev waiter : Sub ℕ
waiter = record {
  cb_index = 0;
  deadline = 10;
  timeout = 5;
  method_id = 1;
  call_id = 1;
  callback = record { types = []; is_set = true; fn = 7 };
}

abbrev one_taken : CallbackSpace
one_taken = record {
  slots = (1 ∷ 0 ∷ 0 ∷ 0 ∷ 0 ∷ 0 ∷ 0 ∷ []) ∷ (0 ∷ 0 ∷ 0 ∷ 0 ∷ 0 ∷ 0 ∷ 0 ∷ []) ∷ [];
  is_available = false;
}

abbrev one_waits : System ℕ
one_waits = record { space = one_taken; entries = listed waiter ∷ [] }

one_waits_reached : Reach config sizes texts one_waits
unfolding empty_space push_callback push_from
one_waits_reached = next (next start (reserve 0 refl)) (enlist [] [] waiter refl)

slot_of_call_example : ¬ IsFreeAt 0 one_taken × (holders {F = ℕ} 0 [] ≡ 0)
slot_of_call_example =
    slot_of_call config sizes texts layout one_waits_reached [] [] (listed waiter) refl

push_callback-Reach_example : (i : ℕ) × ((push_callback 2 one_taken).1 ≡ some i)
push_callback-Reach_example =
    push_callback-Reach config sizes texts layout one_waits_reached (omega arith)

abbrev waiting_client : Client ℕ
waiting_client = record {
  client_id = 1;
  call_id = 1;
  is_active = true;
  subs = waiter ∷ [];
  listeners = [];
  ev_client_id = none;
  server_available = true;
}

-- The server still answers, when the client is gone.
abbrev answered_late : System ℕ
answered_late = record {
  space = on_callback 2 4 (some 0) (0 ∷ 0 ∷ []) 2 one_taken;
  entries = [] ++ gone config sizes texts (destroy_client waiting_client).subs;
}

answered_late-Steps :
    Steps config sizes texts
      (record {
        space = one_taken;
        entries = [] ++ gone config sizes texts (destroy_client waiting_client).subs;
      })
      answered_late
answered_late-Steps = more done (answer (some 0) (0 ∷ 0 ∷ []) 2 (omega arith) (omega arith))

destroy_client-IsFreeAt_example : ¬ IsFreeAt 0 answered_late.space
unfolding destroy_client disconnect
destroy_client-IsFreeAt_example =
    destroy_client-IsFreeAt config sizes texts waiting_client [] [] waiter [] one_taken layout
      one_waits_reached refl answered_late-Steps

read_cb_data-Reach_example :
    let (space', kept, told) =
      read_cb_data config sizes texts (λ i. 20) (λ i. true) 1 (waiter ∷ []) one_taken in
    (length kept + length told ≡ 1)
    × ((i : ℕ) → IsFreeAt i space' ↔ (holders i ([] ++ map listed kept) ≡ 0))
read_cb_data-Reach_example =
    read_cb_data-Reach config sizes texts (λ i. 20) (λ i. true) 1 (waiter ∷ []) [] one_taken layout
      one_waits_reached (refl, tt)
