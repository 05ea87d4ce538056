-- ===== src/Client/Rounds.antt =====
-- ClientIPC.cpp: a whole round of `readCbData`, with the calls of the callbacks.
use psi_shared.Base.{
  ℕ, suc, ◌==◌, ◌+◌, ◌≡◌, refl, inl, inr, arith, List, [], ◌∷◌, ◌++◌, Option, none, some, Bool,
  true, false, length, length-append, Bool-cases,
}
use psi_shared.Protocol.{Ty, Args, Sizes}
use psi_shared.Protocol.Serializer.{Memory}
use psi_shared.Callback
use psi_shared.Callback.{Answer, error_none, default_args}
use psi_shared.CallbackSpace.{CallbackSpace}
use psi_shared.Client.{Config, Texts, Reply, replies, Sub}
use psi_shared.Client.Reader.{Look, stays, expired, arrived, gather, look, collect, on_answer}

module _ (k : Config) (z : Sizes) (texts : Texts) {F : Type 0} where
  -- The loop over `callbacks`. `client_id` is the client's id at that time.
  unfoldable pub run_all :
      ℕ → List (Sub F × Option Memory) → CallbackSpace → CallbackSpace × List (Reply F)
  run_all client_id [] s = (s, [])
  run_all client_id ((sub, cb_data) ∷ callbacks) s =
      let (s', told) = on_answer k z texts client_id sub cb_data s in
      let (s'', later) = run_all client_id callbacks s' in (s'', told ++ later)

  -- The entries that stay, and the calls of the callbacks, where no loop is set that takes them.
  unfoldable pub read_cb_data :
      (ℕ → ℕ)
      → (ℕ → Bool)
      → ℕ
      → List (Sub F)
      → CallbackSpace
      → CallbackSpace × List (Sub F) × List (Reply F)
  read_cb_data now is_active client_id subs s =
      let (s', kept, callbacks) = collect k now is_active 0 subs s in
      let (s'', told) = run_all client_id callbacks s' in (s'', kept, told)

module _ {F : Type 0} where
  abbrev pub AreSet : List (Sub F) → Type 0
  AreSet [] = Unit {0}
  AreSet (sub ∷ subs) = (sub.callback.is_set ≡ true) × AreSet subs

  abbrev pub erased : List (Sub F × Option Memory) → List (Sub F)
  erased [] = []
  erased ((sub, cb_data) ∷ callbacks) = sub ∷ erased callbacks

  length-fail :
      (fn : F) (ts : List Ty) (is_set : Bool) (error_code : ℕ) (msg : List ℕ)
      → is_set ≡ true
      → length (replies fn ts (Callback.fail ts is_set error_code msg)) ≡ 1
  unfolding Callback.fail
  length-fail fn ts true error_code msg h = refl
  length-fail fn ts false error_code msg h = absurd (cc)

  length-success :
      (fn : F) (ts : List Ty) (is_set : Bool) (args : Args ts)
      → is_set ≡ true
      → length (replies fn ts (Callback.success ts is_set args)) ≡ 1
  unfolding Callback.success
  length-success fn ts true args h = refl
  length-success fn ts false args h = absurd (cc)

  -- Every entry stays or has its function called.
  gather_lem :
      {A : Type 0} (sub : Sub F) (seen : Look) (subs : List (Sub F))
      (r : A × List (Sub F) × List (Sub F × Option Memory))
      → sub.callback.is_set ≡ true
      → (AreSet (erased r.2) × (length r.1 + length r.2 ≡ length subs))
      → let (s, kept, callbacks) = gather sub seen r in
        AreSet (erased callbacks) × (length kept + length callbacks ≡ suc (length subs))
  gather_lem sub stays subs r h (a, b) = (a, omega (arith, b))
  gather_lem sub expired subs r h (a, b) = ((h, a), omega (arith, b))
  gather_lem sub (arrived d) subs r h (a, b) = ((h, a), omega (arith, b))

module _ (k : Config) (z : Sizes) (texts : Texts) {F : Type 0} where
  collect_lem :
      (now : ℕ → ℕ) (is_active : ℕ → Bool) (i : ℕ) (subs : List (Sub F)) (s : CallbackSpace)
      → AreSet subs
      → let (s', kept, callbacks) = collect k now is_active i subs s in
        AreSet (erased callbacks) × (length kept + length callbacks ≡ length subs)
  unfolding collect
  collect_lem now is_active i [] s set = (tt, refl)
  collect_lem now is_active i (sub ∷ subs) s (h, set) =
      let (s', seen) = look k (now i) (is_active i) sub s in
      gather_lem sub seen subs (collect k now is_active (i + 1) subs s') h
        (collect_lem now is_active (i + 1) subs s' set)

  -- The function of an entry calls the callback once.
  length-on_answer :
      (client_id : ℕ) (sub : Sub F) (cb_data : Option Memory) (s : CallbackSpace)
      → sub.callback.is_set ≡ true
      → length (on_answer k z texts client_id sub cb_data s).1 ≡ 1
  unfolding on_answer
  length-on_answer client_id sub none s h =
      length-fail sub.callback.fn sub.callback.types sub.callback.is_set _ _ h
  length-on_answer client_id sub (some cb_data) s h =
      let cb = sub.callback in
      let a : Answer cb.types =
        Callback.deserialize z cb.types cb_data
          (record { error_code = 0; error_msg = []; args = default_args cb.types }) in
      elim (Bool-cases (a.error_code == error_none)) [
        | inl ok ↦ rw ok (length-success cb.fn cb.types cb.is_set a.args h)
        | inr bad ↦ rw bad (length-fail cb.fn cb.types cb.is_set a.error_code a.error_msg h)
      ]

  pub length-run_all :
      (client_id : ℕ) (callbacks : List (Sub F × Option Memory)) (s : CallbackSpace)
      → AreSet (erased callbacks)
      → length (run_all k z texts client_id callbacks s).1 ≡ length callbacks
  unfolding run_all
  length-run_all client_id [] s set = refl
  length-run_all client_id ((sub, cb_data) ∷ callbacks) s (h, set) =
      let (s', told) = on_answer k z texts client_id sub cb_data s in
      omega (
        arith,
        length-on_answer client_id sub cb_data s h,
        length-run_all client_id callbacks s' set,
        length-append told (run_all k z texts client_id callbacks s').1,
      )

  -- Every entry of a round stays or has its callback called once.
  pub read_cb_data_lem :
      (now : ℕ → ℕ) (is_active : ℕ → Bool) (client_id : ℕ) (subs : List (Sub F)) (s : CallbackSpace)
      → AreSet subs
      → let (s', kept, told) = read_cb_data k z texts now is_active client_id subs s in
        length kept + length told ≡ length subs
  unfolding read_cb_data
  read_cb_data_lem now is_active client_id subs s set =
      let (called, all) = collect_lem now is_active 0 subs s set in
      let (s', kept, callbacks) = collect k now is_active 0 subs s in
      omega (arith, all, length-run_all client_id callbacks s' called)
