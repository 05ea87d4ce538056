-- ===== src/InFlight/Rounds.antt =====
-- ClientIPC.cpp: a whole round of `readCbData` among all that clients and server do.
use psi_shared.Base.{
  ℕ, ◌+◌, ◌≡◌, ◌↔◌, refl, ap, subst, arith, List, [], ◌∷◌, ◌++◌, map, append_assoc, Option, none,
  some, Bool, length, get_or,
}
use psi_shared.Protocol.{Sizes}
use psi_shared.Protocol.Serializer.{Memory}
use psi_shared.CallbackSpace.{CallbackSpace}
use psi_shared.CallbackSpace.Slots.{Slot, free, waiting, answered}
use psi_shared.CallbackSpace.Refine.{Layout, slots_of}
use psi_shared.CallbackSpace.Reserve.{IsFreeAt}
use psi_shared.Client.{Config, Texts, Sub}
use psi_shared.Client.Reader.{collect, on_answer}
use psi_shared.Client.Rounds.{run_all, read_cb_data, AreSet, read_cb_data_lem}
use psi_shared.InFlight.{Entry, reserved, listed, overdue, left, time_out, Reach}
use psi_shared.InFlight.Count.{busy, holders}
use psi_shared.InFlight.Progress.{busy_le}
use psi_shared.InFlight.Owners.{Reach-IsBalanced}
use psi_shared.InFlight.Runs.{
  Steps, done, more, Steps-trans, Reach-Steps, at_client, kept_of, overdue_of, without_data,
  AreLooked, collect-Steps,
}

not_busy : (slot : Slot) → busy slot ≡ 0 → slot ≡ free
not_busy free h = refl
not_busy waiting h = absurd (omega arith)
not_busy (answered b) h = absurd (omega arith)

module _ (k : Config) (z : Sizes) (texts : Texts) {F : Type 0} where
  run_all-Steps :
      (client_id : ℕ) (after front : List (Entry F)) (callbacks : List (Sub F × Option Memory))
      (space : CallbackSpace)
      → AreLooked k z texts after
      → overdue_of k z texts after ≡ without_data k z texts callbacks
      → Steps k z texts
          (record { space = space; entries = front ++ after })
          (record {
            space = (run_all k z texts client_id callbacks space).0;
            entries = front ++ map listed (kept_of k z texts after);
          })
  unfolding run_all on_answer
  run_all-Steps client_id (reserved i ∷ after) front callbacks space h e = absurd h
  run_all-Steps client_id (left i ∷ after) front callbacks space h e = absurd h
  run_all-Steps client_id (listed s ∷ after) front callbacks space h e =
      rw
        (
          ← append_assoc front (listed s ∷ []) after,
          ← append_assoc front (listed s ∷ []) (map listed (kept_of k z texts after)),
        )
        (run_all-Steps client_id after (front ++ listed s ∷ []) callbacks space h e)
  run_all-Steps client_id [] front [] space h e = done
  run_all-Steps client_id [] front ((sub, none) ∷ callbacks) space h e = absurd (cc)
  run_all-Steps client_id [] front ((sub, some d) ∷ callbacks) space h e =
      run_all-Steps client_id [] front callbacks space h e
  run_all-Steps client_id (overdue s ∷ after) front [] space h e = absurd (cc)
  run_all-Steps client_id (overdue s ∷ after) front ((sub, none) ∷ callbacks) space h e =
      let same : s ≡ sub = (cc) in
      Steps-trans k z texts
        (more done (time_out front after sub client_id (ap (λ x. front ++ overdue x ∷ after) same)))
        (run_all-Steps client_id after front callbacks
          (on_answer k z texts client_id sub none space).0 h (cc))
  run_all-Steps client_id (overdue s ∷ after) front ((sub, some d) ∷ callbacks) space h e =
      run_all-Steps client_id (overdue s ∷ after) front callbacks space h e

  read_cb_data-Steps :
      (now : ℕ → ℕ) (is_active : ℕ → Bool) (client_id : ℕ) (subs : List (Sub F))
      (others : List (Entry F)) (space : CallbackSpace)
      → let (space', kept, told) = read_cb_data k z texts now is_active client_id subs space in
        Steps k z texts
          (at_client k z texts others space subs)
          (at_client k z texts others space' kept)
  unfolding read_cb_data
  read_cb_data-Steps now is_active client_id subs others space =
      let (space', kept, callbacks) = collect k now is_active 0 subs space in
      let (after, steps, (same, called, looked)) =
        collect-Steps k z texts now is_active 0 subs others space in
      Steps-trans k z texts steps (
        subst
          (λ xs.
            Steps k z texts (record { space = space'; entries = others ++ after })
              (record {
                space = (run_all k z texts client_id callbacks space').0;
                entries = others ++ map listed xs;
              }))
          same (run_all-Steps client_id after others callbacks space' looked called))

  -- A whole round of `readCbData` of a client whose entries have callbacks, from any state that
  -- clients and server can reach from a new space: the entries that stay and the calls of
  -- callbacks that are made are together as many as the entries were, and after the round a slot
  -- is free just when no call has it, neither one of those that stay nor one of others.
  pub read_cb_data-Reach :
      (now : ℕ → ℕ) (is_active : ℕ → Bool) (client_id : ℕ) (subs : List (Sub F))
      (others : List (Entry F)) (space : CallbackSpace)
      → Layout k.callback_queue k.callback_sz
      → Reach k z texts (at_client k z texts others space subs)
      → AreSet subs
      → let (space', kept, told) = read_cb_data k z texts now is_active client_id subs space in
        (length kept + length told ≡ length subs)
        × ((i : ℕ) → IsFreeAt i space' ↔ (holders i (others ++ map listed kept) ≡ 0))
  read_cb_data-Reach now is_active client_id subs others space l r set =
      let b =
        Reach-IsBalanced k z texts l (
          Reach-Steps k z texts r (read_cb_data-Steps now is_active client_id subs others space)) in
      let (space', kept, told) = read_cb_data k z texts now is_active client_id subs space in
      (
        read_cb_data_lem k z texts now is_active client_id subs space set,
        λ i. (
          λ is_free.
              omega (arith, b.owned i, (busy_le (get_or (slots_of space') i free)).1 is_free),
          λ none_has.
              not_busy (get_or (slots_of space') i free) (omega (arith, b.owned i, none_has)),
        ),
      )
