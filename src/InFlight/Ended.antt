-- ===== src/InFlight/Ended.antt =====
-- ClientIPC.cpp: what the calls in flight of a client leave behind when it ends.
use psi_shared.Base.{
  ℕ, subst, append_assoc, ◌+◌, ◌≤◌, ◌≡◌, refl, ap, arith, List, [], ◌∷◌, ◌++◌, map, ◌==◌, ==_refl,
}
use psi_shared.Protocol.{Sizes}
use psi_shared.CallbackSpace.{CallbackSpace}
use psi_shared.CallbackSpace.Refine.{Layout}
use psi_shared.CallbackSpace.Reserve.{IsFreeAt}
use psi_shared.Client.{Config, Texts, Sub, Client, disconnect}
use psi_shared.Client.Lifecycle.{destroy_client}
use psi_shared.Client.Reader.{look}
use psi_shared.InFlight.{
  Entry, reserved, listed, overdue, left, slot_index, after_look, System, Step, reserve, refuse,
  enlist, look_at, time_out, quit, answer, Reach,
}
use psi_shared.InFlight.Count.{busy, one_if, holders}
use psi_shared.InFlight.Owners.{Reach-IsBalanced}
use psi_shared.InFlight.Runs.{Steps, done, more, Steps-trans, Reach-Steps, at_client}

module _ {F : Type 0} where
  -- The number of calls that had the slot when their clients ended.
  abbrev pub lost : ℕ → List (Entry F) → ℕ
  lost i [] = 0
  lost i (reserved j ∷ es) = lost i es
  lost i (listed sub ∷ es) = lost i es
  lost i (overdue sub ∷ es) = lost i es
  lost i (left j ∷ es) = one_if (j == i) + lost i es

  lost-append : (i : ℕ) (xs ys : List (Entry F)) → lost i (xs ++ ys) ≡ lost i xs + lost i ys
  lost-append i [] ys = omega arith
  lost-append i (reserved j ∷ xs) ys = lost-append i xs ys
  lost-append i (listed sub ∷ xs) ys = lost-append i xs ys
  lost-append i (overdue sub ∷ xs) ys = lost-append i xs ys
  lost-append i (left j ∷ xs) ys = omega (arith, lost-append i xs ys)

  lost-holders : (i : ℕ) (es : List (Entry F)) → lost i es ≤ holders i es
  lost-holders i [] = omega arith
  lost-holders i (reserved j ∷ es) = omega (arith, lost-holders i es)
  lost-holders i (listed sub ∷ es) = omega (arith, lost-holders i es)
  lost-holders i (overdue sub ∷ es) = omega (arith, lost-holders i es)
  lost-holders i (left j ∷ es) = omega (arith, lost-holders i es)

  lost-quit :
      (i : ℕ) (e : Entry F) (back : List (Entry F))
      → lost i (e ∷ back) ≤ lost i (left (slot_index e) ∷ back)
  lost-quit i (reserved j) back = omega arith
  lost-quit i (listed sub) back = omega arith
  lost-quit i (overdue sub) back = omega arith
  lost-quit i (left j) back = omega arith

  -- The entries from a place on are replaced by others.
  lost_le :
      (i : ℕ) (front xs ys : List (Entry F))
      → lost i xs ≤ lost i ys
      → lost i (front ++ xs) ≤ lost i (front ++ ys)
  lost_le i front xs ys h = omega (arith, h, lost-append i front xs, lost-append i front ys)

module _ (k : Config) (z : Sizes) (texts : Texts) {F : Type 0} where
  lost-Step : (i : ℕ) {s t : System F} → Step k z texts s t → lost i s.entries ≤ lost i t.entries
  lost-Step i {s} (reserve j e) = omega (arith, lost-append i s.entries (reserved j ∷ []))
  lost-Step i (refuse e) = omega arith
  lost-Step i (enlist front back sub e) = omega (
    arith,
    ap (lost i) e,
    lost_le i front (reserved sub.cb_index ∷ back) (listed sub ∷ back) (omega arith),
  )
  lost-Step i {s} (look_at front back sub now is_active e) =
      let after = after_look sub (look k now is_active sub s.space).1 in
      omega (
        arith,
        ap (lost i) e,
        ap (lost i) (append_assoc front after back),
        lost_le i front (listed sub ∷ back) (after ++ back)
            (omega (arith, lost-append i after back)),
      )
  lost-Step i (time_out front back sub client_id e) =
      omega (arith, ap (lost i) e, lost_le i front (overdue sub ∷ back) back (omega arith))
  lost-Step i (quit front back e at) = omega (
    arith,
    ap (lost i) at,
    lost_le i front (e ∷ back) (left (slot_index e) ∷ back) (lost-quit i e back),
  )
  lost-Step i (answer index cb_data cb_len h1 h2) = omega arith

  lost-Steps : (i : ℕ) {s t : System F} → Steps k z texts s t → lost i s.entries ≤ lost i t.entries
  lost-Steps i done = omega arith
  lost-Steps i (more r st) = omega (arith, lost-Steps i r, lost-Step i st)

  -- All the entries of a client, when it has ended.
  abbrev pub gone : List (Sub F) → List (Entry F)
  gone [] = []
  gone (sub ∷ subs) = left sub.cb_index ∷ gone subs

  destroy_client-Steps :
      (subs : List (Sub F)) (others : List (Entry F)) (space : CallbackSpace)
      → Steps k z texts
          (at_client k z texts others space subs)
          (record { space = space; entries = others ++ gone subs })
  destroy_client-Steps [] others space = done
  destroy_client-Steps (sub ∷ subs) others space =
      Steps-trans k z texts (more done (quit others (map listed subs) (listed sub) refl)) (
        rw
          (
            ← append_assoc others (left sub.cb_index ∷ []) (map listed subs),
            ← append_assoc others (left sub.cb_index ∷ []) (gone subs),
          )
          (destroy_client-Steps subs (others ++ left sub.cb_index ∷ []) space))

  lost-gone : (xs ys : List (Sub F)) (sub : Sub F) → 1 ≤ lost sub.cb_index (gone (xs ++ sub ∷ ys))
  lost-gone [] ys sub = omega (arith, ap one_if (==_refl sub.cb_index))
  lost-gone (x ∷ xs) ys sub = omega (arith, lost-gone xs ys sub)

  -- The slots of the calls that are in a client's list when it is destroyed are taken for ever:
  -- in every state that can be reached then, whoever does what, none of them is free, where the
  -- state before could be reached from a new space.
  pub destroy_client-IsFreeAt :
      {t : System F} (c : Client F) (xs ys : List (Sub F)) (sub : Sub F) (others : List (Entry F))
      (space : CallbackSpace)
      → Layout k.callback_queue k.callback_sz
      → Reach k z texts (at_client k z texts others space c.subs)
      → (destroy_client c).subs ≡ xs ++ sub ∷ ys
      → Steps k z texts
          (record { space = space; entries = others ++ gone (destroy_client c).subs })
          t
      → ¬ IsFreeAt sub.cb_index t.space
  unfolding destroy_client disconnect
  destroy_client-IsFreeAt {t} c xs ys sub others space l r at after is_free =
      let i = sub.cb_index in
      let kept : (destroy_client c).subs ≡ c.subs = ground arith in
      let ended = Reach-Steps k z texts r (destroy_client-Steps c.subs others space) in
      let now = Reach-Steps k z texts ended (
        subst (λ xs. Steps k z texts (record { space = space; entries = others ++ gone xs }) t) kept
          after) in
      let b = Reach-IsBalanced k z texts l now in
      absurd (
        omega (
          arith,
          lost-gone xs ys sub,
          ap (λ xs. lost i (gone xs)) at,
          lost-append i others (gone (destroy_client c).subs),
          lost-Steps i after,
          lost-holders i t.entries,
          b.owned i,
          ap busy is_free,
        ))
