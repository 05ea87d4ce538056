-- ===== src/InFlight/Runs.antt =====
-- IClientIPC.hpp and ClientIPC.cpp: the functions of the client, as runs of the steps.
use psi_shared.Base.{
  ℕ, ◌+◌, ◌≡◌, refl, ap, inl, inr, List, [], ◌∷◌, ◌++◌, map, append_assoc, Option, none, some, Bool,
  Option-cases, Bool-cases,
}
use psi_shared.Protocol.{Ty, Args, Sizes}
use psi_shared.Protocol.Serializer.{Memory}
use psi_shared.CallbackSpace.{CallbackSpace, push_callback}
use psi_shared.Client.{Config, Texts, Spaces, UserCallback, Sub, Client}
use psi_shared.Client.Sender.{
  push_cb, finish_call, validate_call, call_server, push_call_with_no_args, push_call_with_args,
}
use psi_shared.Client.Requests.{counted}
use psi_shared.Client.Reader.{Look, stays, expired, arrived, gather, look, collect, on_answer}
use psi_shared.InFlight.{
  Entry, reserved, listed, overdue, left, after_look, System, Step, reserve, refuse, enlist,
  look_at, time_out, Reach, next,
}

module _ {F : Type 0} where
  pub gather-space :
      (sub : Sub F) (seen : Look) (r : CallbackSpace × List (Sub F) × List (Sub F × Option Memory))
      → (gather sub seen r).0 ≡ r.0
  gather-space sub stays r = refl
  gather-space sub expired r = refl
  gather-space sub (arrived cb_data) r = refl

module _ (k : Config) (z : Sizes) (texts : Texts) {F : Type 0} where
  pub data Steps (s : System F) : System F → Type 0 where
    done : Steps s s
    more : {t u : System F} → Steps s t → Step k z texts t u → Steps s u

  pub Steps-trans : {s t u : System F} → Steps s t → Steps t u → Steps s u
  Steps-trans r done = r
  Steps-trans r (more q st) = more (Steps-trans r q) st

  pub Reach-Steps : {s t : System F} → Reach k z texts s → Steps s t → Reach k z texts t
  Reach-Steps r done = r
  Reach-Steps r (more q st) = next (Reach-Steps r q) st

  abbrev pub at_client : List (Entry F) → CallbackSpace → List (Sub F) → System F
  at_client others space subs = record { space = space; entries = others ++ map listed subs }

  map-listed-append :
      (subs : List (Sub F)) (sub : Sub F)
      → map listed (subs ++ sub ∷ []) ≡ map listed subs ++ listed sub ∷ []
  map-listed-append [] sub = refl
  map-listed-append (x ∷ subs) sub = ap (λ es. listed x ∷ es) (map-listed-append subs sub)

  -- `pushCb` is one step if it finds no slot, and two if it does.
  pub push_cb-Steps :
      (method_id call_id : ℕ) (cb : UserCallback F) (timeout now : ℕ) (c : Client F) (s : Spaces)
      (others : List (Entry F))
      → let (c', s', index) = push_cb k method_id call_id cb timeout now c s in
        Steps (at_client others s.callbacks c.subs) (at_client others s'.callbacks c'.subs)
  unfolding push_cb
  push_cb-Steps method_id call_id cb timeout now c s others =
      elim (Option-cases (push_callback k.callback_queue s.callbacks).1) [
        | inl e ↦ rw (push_cb, e) (more done (refuse e))
        | inr (i, e) ↦ rw (push_cb, e) (listed_at i e)
      ]
    where
      listed_at :
          (i : ℕ)
          → (push_callback k.callback_queue s.callbacks).1 ≡ some i
          → Steps (at_client others s.callbacks c.subs) (
              at_client others (push_callback k.callback_queue s.callbacks).0 (
                c.subs
                ++ (record {
                  cb_index = i;
                  deadline = now + timeout;
                  timeout = timeout;
                  method_id = method_id;
                  call_id = call_id;
                  callback = cb;
                })
                  ∷ []))
      listed_at i e =
          rw (map-listed-append c.subs, ← append_assoc)
            (more (more done (reserve i e)) (enlist (others ++ map listed c.subs) [] _ refl))

  -- The entries that a client keeps, and those whose functions are called without data.
  abbrev pub kept_of : List (Entry F) → List (Sub F)
  kept_of [] = []
  kept_of (reserved i ∷ es) = kept_of es
  kept_of (listed sub ∷ es) = sub ∷ kept_of es
  kept_of (overdue sub ∷ es) = kept_of es
  kept_of (left i ∷ es) = kept_of es

  abbrev pub overdue_of : List (Entry F) → List (Sub F)
  overdue_of [] = []
  overdue_of (reserved i ∷ es) = overdue_of es
  overdue_of (listed sub ∷ es) = overdue_of es
  overdue_of (overdue sub ∷ es) = sub ∷ overdue_of es
  overdue_of (left i ∷ es) = overdue_of es

  abbrev pub without_data : List (Sub F × Option Memory) → List (Sub F)
  without_data [] = []
  without_data ((sub, none) ∷ callbacks) = sub ∷ without_data callbacks
  without_data ((sub, some cb_data) ∷ callbacks) = without_data callbacks

  -- Entries that were looked at in a round, and did not get their answers.
  abbrev pub AreLooked : List (Entry F) → Type 0
  AreLooked [] = Unit {0}
  AreLooked (reserved i ∷ es) = ⊥
  AreLooked (listed sub ∷ es) = AreLooked es
  AreLooked (overdue sub ∷ es) = AreLooked es
  AreLooked (left i ∷ es) = ⊥

  -- What a round leaves: its entries that stay are those that the round keeps, its overdue ones those
  -- that it calls without data.
  abbrev pub Shows :
      List (Entry F) → CallbackSpace × List (Sub F) × List (Sub F × Option Memory) → Type 0
  Shows after (s, kept, callbacks) =
      (kept_of after ≡ kept) × (overdue_of after ≡ without_data callbacks) × AreLooked after

  Shows-gather :
      (sub : Sub F) (seen : Look) (after : List (Entry F))
      (r : CallbackSpace × List (Sub F) × List (Sub F × Option Memory))
      → Shows after r
      → Shows (after_look sub seen ++ after) (gather sub seen r)
  Shows-gather sub stays after r (a, b, c) = (ap (λ xs. sub ∷ xs) a, b, c)
  Shows-gather sub expired after r (a, b, c) = (a, ap (λ xs. sub ∷ xs) b, c)
  Shows-gather sub (arrived cb_data) after r (a, b, c) = (a, b, c)

  -- A round of `readCbData` over the subscribers of a client is a run of the system, one look
  -- at a time. It ends with the space the round leaves and with entries of which the listed ones
  -- are the subscribers the round keeps and the overdue ones are those it calls without data,
  -- both in order.
  pub collect-Steps :
      (now : ℕ → ℕ) (is_active : ℕ → Bool) (i : ℕ) (subs : List (Sub F)) (others : List (Entry F))
      (space : CallbackSpace)
      → let round = collect k now is_active i subs space in
        (after : List (Entry F)) × Steps
          (at_client others space subs)
          (record { space = round.0; entries = others ++ after })
        × Shows after round
  unfolding collect
  collect-Steps now is_active i [] others space = ([], done, (refl, refl, tt))
  collect-Steps now is_active i (sub ∷ subs) others space =
      let (space', seen) = look k (now i) (is_active i) sub space in
      let round = collect k now is_active (i + 1) subs space' in
      let (after, steps, shows) =
        collect-Steps now is_active (i + 1) subs (others ++ after_look sub seen) space' in
      (
        after_look sub seen ++ after,
        rw (gather-space sub seen round, ← append_assoc)
            (Steps-trans
              (more done (look_at others (map listed subs) sub (now i) (is_active i) refl)) steps),
        Shows-gather sub seen after round shows,
      )

  -- The function of an overdue entry, run without data, is one step.
  pub on_answer-Steps :
      (client_id : ℕ) (sub : Sub F) (front back : List (Entry F)) (space : CallbackSpace)
      → Steps
          (record { space = space; entries = front ++ overdue sub ∷ back })
          (record {
            space = (on_answer k z texts client_id sub none space).0;
            entries = front ++ back;
          })
  on_answer-Steps client_id sub front back space =
      more done (time_out front back sub client_id refl)

  finish_call-callbacks :
      (ts : List Ty) (args : Args ts) (method_id : ℕ) (cb : UserCallback F)
      (r : Client F × Spaces × Option ℕ)
      → let (c', s', answers) = finish_call k z texts ts args method_id cb r in
        (s'.callbacks ≡ r.1.callbacks) × (c'.subs ≡ r.0.subs)
  unfolding finish_call push_call_with_no_args push_call_with_args
  finish_call-callbacks [] args method_id cb (c, s, none) = (refl, refl)
  finish_call-callbacks (t ∷ ts) args method_id cb (c, s, none) = (refl, refl)
  finish_call-callbacks [] args method_id cb (c, s, some i) = (refl, refl)
  finish_call-callbacks (t ∷ ts) args method_id cb (c, s, some i) = (refl, refl)

  finished :
      (ts : List Ty) (args : Args ts) (method_id : ℕ) (cb : UserCallback F) (call_id : ℕ)
      (c : Client F) (s : Spaces) (timeout now : ℕ) (others : List (Entry F))
      → let (c', s', answers) =
          finish_call k z texts ts args method_id cb
            (push_cb k method_id call_id cb timeout now c s) in
        Steps (at_client others s.callbacks c.subs) (at_client others s'.callbacks c'.subs)
  finished ts args method_id cb call_id c s timeout now others =
      let (space, subs) =
        finish_call-callbacks ts args method_id cb
          (push_cb k method_id call_id cb timeout now c s) in
      rw (space, subs) (push_cb-Steps method_id call_id cb timeout now c s others)

  -- `callServer` leaves the callback space as a run of the steps does, whatever its arguments.
  pub call_server-Steps :
      (ts : List Ty) (args : Args ts) (cb : Option (UserCallback F)) (method_id timeout now : ℕ)
      (c : Client F) (s : Spaces) (others : List (Entry F))
      → let (c', s', answers) = call_server k z texts ts args cb method_id timeout now c s in
        Steps (at_client others s.callbacks c.subs) (at_client others s'.callbacks c'.subs)
  unfolding call_server push_call_with_no_args push_call_with_args
  call_server-Steps [] args none method_id timeout now c s others = done
  call_server-Steps (t ∷ ts) args none method_id timeout now c s others =
      elim (Bool-cases (validate_call k z (t ∷ ts) args).0) [
        | inl e ↦ rw (call_server, e) done
        | inr e ↦ rw (call_server, e) done
      ]
  call_server-Steps [] args (some cb) method_id timeout now c s others =
      finished [] args method_id cb _ (counted c) s timeout now others
  call_server-Steps (t ∷ ts) args (some cb) method_id timeout now c s others =
      elim (Bool-cases (validate_call k z (t ∷ ts) args).0) [
        | inl e ↦
            rw (call_server, e)
              (finished (t ∷ ts) args method_id cb _ (counted c) s timeout now others)
        | inr e ↦ rw (call_server, e) done
      ]
