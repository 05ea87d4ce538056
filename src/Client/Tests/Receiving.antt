-- ===== src/Client/Tests/Receiving.antt =====
-- ClientIPC.cpp: the theorems on answers and events at concrete clients.
use psi_shared.Base.{get_or, ◌≡◌, refl, [], ◌∷◌, none, some, true, arith, to_bytes, of_bytes}
use psi_shared.Protocol.{trivial}
use psi_shared.Protocol.Encoding.{encode, encode_args}
use psi_shared.Callback.RoundTrip.{value_bytes}
use psi_shared.CallbackSpace as Callbacks
use psi_shared.CallbackSpace.Slots.{free, answered}
use psi_shared.CallbackSpace.Refine.{slots_of, at_slot}
use psi_shared.EventRing.{reset}
use psi_shared.EventSpace as Events
use psi_shared.Server.{on_callback, notify_event}
use psi_shared.Wrapper.{pack_answer}
use psi_shared.Client.{reply}
use psi_shared.Client.Reader.{arrived, look, collect, on_answer, notified, read_ev_data}
use psi_shared.Client.Answers.{collect_slots, collect_refines}
use psi_shared.Client.Exchange.{values, answer_arrives}
use psi_shared.Client.Late.{answer_after_timeout}
use psi_shared.Client.Drain.{Drained}
use psi_shared.Client.Notice.{event_arrives}
use psi_shared.Client.Tests.{
  config, sizes, texts, answers, answers-IsValid, one_client, one_client-IsValid, types, arguments,
  sub, client, pending_answers, pending_answers-IsValid, pending_sub, first_waits,
  first_waits-IsValid,
}

answer_arrives_example :
    let (bytes, n) = pack_answer 16 (trivial 2 ∷ []) (values (trivial 2 ∷ []) (7 ∷ 1 ∷ [], tt)) in
    let s' = on_callback 2 16 (some 1) bytes n pending_answers in
    let (s'', seen) = look config 99 true pending_sub s' in
    (slots_of s'' ≡ at_slot 1 (λ slot. free) (slots_of pending_answers))
    × (seen ≡ arrived (value_bytes (trivial 2 ∷ []) (7 ∷ 1 ∷ [], tt)))
    × (on_answer config sizes texts 6 pending_sub
          (some (value_bytes (trivial 2 ∷ []) (7 ∷ 1 ∷ [], tt)))
          s''
        ≡ (s'', reply 51 (trivial 2 ∷ []) (values (trivial 2 ∷ []) (7 ∷ 1 ∷ [], tt)) ∷ []))
unfolding encode_args encode
answer_arrives_example =
    answer_arrives config sizes texts (trivial 2 ∷ []) (7 ∷ 1 ∷ [], tt) 51 1 100 60 300 4 6 99
      pending_answers-IsValid (omega arith) refl (refl, tt) (refl, tt) (omega arith) (omega arith)

event_arrives_example :
    let s' = (notify_event 2 5 types arguments one_client).0 in
    (s'' : Events.EventSpace) × (read_ev_data sizes config client s'
      ≡ some (s'', notified 60 types arguments ∷ []))
    × Drained 2 0 s' s''
unfolding Events.register_client Events.register_from Events.all_set Events.empty_space reset
    encode_args encode to_bytes
event_arrives_example =
    event_arrives sizes config client 0 5 types arguments 60 refl refl refl one_client-IsValid refl
      refl (omega arith) (tt, (refl, tt)) (tt, (refl, tt)) (omega arith)

collect_refines_example :
    let (s', kept, callbacks) =
      collect config (λ i. 90) (λ i. true) 0 (sub ∷ pending_sub ∷ []) answers in
    (slots_of s', kept, callbacks)
    ≡ collect_slots (λ i. 90) (λ i. true) 0 (sub ∷ pending_sub ∷ []) (slots_of answers)
collect_refines_example =
    collect_refines config (λ i. 90) (λ i. true) 0 (sub ∷ pending_sub ∷ []) answers-IsValid

collect_slots-answers :
    collect_slots (λ i. 90) (λ i. true) 0 (sub ∷ pending_sub ∷ []) (slots_of answers)
    ≡ (free ∷ free ∷ [], pending_sub ∷ [], (sub, some (42 ∷ [])) ∷ [])
unfolding of_bytes
collect_slots-answers = refl

answer_after_timeout_example :
    let s1 = (on_answer config sizes texts 6 sub none first_waits).0 in
    let (s2, index) = Callbacks.push_callback 2 s1 in
    let (bytes, n) = pack_answer 16 (trivial 1 ∷ []) (values (trivial 1 ∷ []) (9 ∷ [], tt)) in
    let s3 = on_callback 2 16 (some 0) bytes n s2 in
    (index ≡ some 0)
    × (get_or (slots_of s3) 0 free ≡ answered (value_bytes (trivial 1 ∷ []) (9 ∷ [], tt)))
unfolding encode_args encode
answer_after_timeout_example =
    answer_after_timeout config sizes texts sub 6 (trivial 1 ∷ []) (9 ∷ [], tt) first_waits-IsValid
      (omega arith) (omega arith) (λ j h. absurd (omega arith)) (refl, tt) (omega arith)
