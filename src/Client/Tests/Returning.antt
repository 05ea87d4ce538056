-- ===== src/Client/Tests/Returning.antt =====
-- IClientIPC.hpp: calls with a result, and new clients, at concrete spaces.
use psi_shared.Base.{ℕ, ◌≡◌, refl, Option, none, Bool, true, not, ltb, ◌||◌}
use psi_shared.Protocol.{string}
use psi_shared.Protocol.Serializer.{Memory}
use psi_shared.Client.Reader.{expired, look, on_answer}
use psi_shared.Client.Future.{
  Outcome, raised, Promise, settle, call_server_with_return, Waits, call_server_with_return_lem,
  on_answer-settles,
}
use psi_shared.Client.Tests.{config, sizes, texts, answers, spaces, types, arguments, sub, client}

call_server_with_return_lem_example :
    let (c', s', p) =
      call_server_with_return config sizes texts types arguments string 8 300 20 client spaces in
    Waits config sizes texts 8 string client.subs c'.subs p
call_server_with_return_lem_example =
    call_server_with_return_lem config sizes texts types arguments string 8 300 20 client spaces

on_answer-settles_example :
    ((cb_data : Option Memory)
      → (o : Outcome) × (settle (on_answer config sizes texts 6 sub cb_data answers).1 Promise.unset
          ≡ Promise.fulfilled o))
    × ((now : ℕ) (is_active : Bool)
        → ltb 100 now || not is_active ≡ true
        → ((look config now is_active sub answers).1 ≡ expired)
          × (settle (on_answer config sizes texts 6 sub none answers).1 Promise.unset
              ≡ Promise.fulfilled (raised (texts.timed_out 60 300 6 4))))
on_answer-settles_example = on_answer-settles config sizes texts 6 sub answers refl
