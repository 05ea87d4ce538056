-- ===== src/Client/Tests.antt =====
-- IClientIPC.hpp and ClientIPC.cpp: a small configuration, spaces and clients for the tests.
mod Sending
mod Receiving
mod Returning
use psi_shared.Base.{
  get_or, ℕ, ◌≡◌, ◌≢◌, ◌↔◌, refl, List, [], ◌∷◌, Option, none, some, Bool, true, false, ◌&&◌, inl,
  inr, arith, replicate, to_bytes, ◌==◌, if◌then◌else◌, u64, of_bytes,
}
use psi_shared.Protocol.{Ty, trivial, string, Args, Sizes}
use psi_shared.Protocol.Serializer.{size_of_args, size_of_arg}
use psi_shared.Protocol.Encoding.{encode, encode_args}
use psi_shared.Callback.{fail, invalid_payload}
use psi_shared.Callback.RoundTrip.{value_bytes}
use psi_shared.CallSpace as Calls
use psi_shared.CallSpace.Refine as Log
use psi_shared.CallbackSpace as Callbacks
use psi_shared.CallbackSpace.Slots.{free, answered}
use psi_shared.CallbackSpace.Refine as Answers
use psi_shared.CallbackSpace.Refine.{slots_of, at_slot}
use psi_shared.EventQueue
use psi_shared.EventRing.{reset}
use psi_shared.EventSpace as Events
use psi_shared.EventSpace.Deliver.{push_lem}
use psi_shared.EventSpace.Valid as Rings
use psi_shared.Server.{on_callback, notify_event}
use psi_shared.Wrapper.{pack_answer}
use psi_shared.Client.{
  Config, Texts, Spaces, UserCallback, reply, replies, Sub, Client, connect,
  update_connection_status, subscribe_to_event_updates, unsubscribe_from_event_updates,
}
use psi_shared.Client.Sender.{validate_call, call_server}
use psi_shared.Client.Reader.{arrived, look, collect, on_answer, notified, read_ev_data}
use psi_shared.Client.Answers.{collect_slots, collect_refines}
use psi_shared.Client.Posting.{call_of, log_after}
use psi_shared.Client.Requests.{
  counted, Called, call_server_appends, call_server_refuses, call_server_waits,
}
use psi_shared.Client.Valid.{AreValid, call_server-AreValid}
use psi_shared.Client.Exchange.{values, answer_arrives}
use psi_shared.Client.Arrival.{Arrived, request_arrives}
use psi_shared.Client.Late.{answer_after_timeout}
use psi_shared.Client.Drain.{told, Drained, read_ev_data_lem}
use psi_shared.Client.Notice.{event_arrives}
use psi_shared.Client.Session.{
  update_connection_status_lem, subscribe_to_event_updates-unsubscribe_from_event_updates,
}

abbrev pub config : Config
config = record {
  call_queue = 4;
  call_sz = 64;
  callback_queue = 2;
  callback_sz = 16;
  max_clients = 2;
}

abbrev pub sizes : Sizes
sizes = record { string_size = 32; vector_size = 24 }

-- Texts that show the number of the call.
abbrev pub texts : Texts
texts = record {
  too_big = λ method_id client_id call_id args_sz. call_id ∷ [];
  no_space = λ call_id. call_id ∷ [];
  timed_out = λ timeout method_id client_id call_id. call_id ∷ [];
}

pub layout : Log.Layout 4 64
layout = record { queue_fits = omega arith; data_fits = omega arith }

-- The callback space has an answer in its first slot, and the second one is free.
abbrev pub answers : Callbacks.CallbackSpace
answers = record {
  slots = (3 ∷ 1 ∷ 0 ∷ 42 ∷ replicate 15 0) ∷ replicate 19 0 ∷ [];
  is_available = true;
}

pub answers-IsValid : Answers.IsValid 2 16 answers
answers-IsValid = record {
  queue = refl;
  slots_valid = (
    record { sized = refl; has_status = inr (inr refl) },
    (record { sized = refl; has_status = inl refl }, tt),
  );
}

abbrev pub one_client : Events.EventSpace
one_client = (Events.register_client 2 (record (Events.empty_space 2) { is_available = true })).0

pub one_client-IsValid : Rings.IsValid 2 one_client
one_client-IsValid = Rings.register_client-IsValid (record {
  rings = (Rings.empty_space-IsValid {max_clients = 2}).rings;
  bits = (Rings.empty_space-IsValid {max_clients = 2}).bits;
  rings_valid = (Rings.empty_space-IsValid {max_clients = 2}).rings_valid;
})

abbrev pub spaces : Spaces
spaces = record {
  calls = record {
    bytes = replicate 256 0;
    is_available = true;
    write_index = 0;
    last_client_id = 6;
  };
  callbacks = answers;
  events = one_client;
}

pub spaces-AreValid : AreValid config spaces
spaces-AreValid = record {
  calls_valid = record { sized = refl; within = omega arith };
  callbacks_valid = answers-IsValid;
  events_valid = one_client-IsValid;
}

abbrev pub types : List Ty
types = string ∷ trivial 2 ∷ []

abbrev pub arguments : Args types
arguments = (65 ∷ 66 ∷ [], (7 ∷ 1 ∷ [], tt))

abbrev pub callback : UserCallback ℕ
callback = record { types = trivial 2 ∷ []; is_set = true; fn = 50 }

abbrev pub sub : Sub ℕ
sub = record {
  cb_index = 0;
  deadline = 100;
  timeout = 60;
  method_id = 300;
  call_id = 4;
  callback = record { types = trivial 1 ∷ []; is_set = true; fn = 51 };
}

abbrev pub client : Client ℕ
client = record {
  client_id = 6;
  call_id = 9;
  is_active = true;
  subs = sub ∷ [];
  listeners = record { event_id = 5; types = types; fn = 60 } ∷ [];
  ev_client_id = some 0;
  server_available = false;
}

-- Method 300 is function 70.
abbrev pub methods : ℕ → Option ℕ
methods id = if id == 300 then some 70 else none

-- A space whose second slot waits.
abbrev pub pending_answers : Callbacks.CallbackSpace
pending_answers = record { slots = replicate 19 0 ∷ (1 ∷ replicate 18 0) ∷ []; is_available = true }

pub pending_answers-IsValid : Answers.IsValid 2 16 pending_answers
pending_answers-IsValid = record {
  queue = refl;
  slots_valid = (
    record { sized = refl; has_status = inl refl },
    (record { sized = refl; has_status = inr (inl refl) }, tt),
  );
}

abbrev pub pending_sub : Sub ℕ
pending_sub = record {
  cb_index = 1;
  deadline = 100;
  timeout = 60;
  method_id = 300;
  call_id = 4;
  callback = record { types = trivial 2 ∷ []; is_set = true; fn = 51 };
}

-- A space whose first slot waits.
abbrev pub first_waits : Callbacks.CallbackSpace
first_waits = record { slots = (1 ∷ replicate 18 0) ∷ replicate 19 0 ∷ []; is_available = true }

pub first_waits-IsValid : Answers.IsValid 2 16 first_waits
first_waits-IsValid = record {
  queue = refl;
  slots_valid = (
    record { sized = refl; has_status = inr (inl refl) },
    (record { sized = refl; has_status = inl refl }, tt),
  );
}
