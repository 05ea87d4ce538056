-- ===== src/InFlight/Owners.antt =====
-- CallbackSpace.h, IClientIPC.hpp and ClientIPC.cpp: every slot that is taken belongs to one entry.
use psi_shared.Base.{
  ℕ, zero, suc, ◌+◌, ◌≤◌, ◌<◌, ◌^◌, ◌≡◌, refl, sym, ap, ◌∙◌, inl, inr, arith, List, [], ◌∷◌, ◌++◌,
  Option, none, some, Bool, ◌||◌, not, length, length-map, get_or, replicate, map, read_at, ◌==◌,
  if◌then◌else◌, ltb, Bool-cases,
}
use psi_shared.Protocol.{Sizes}
use psi_shared.CallbackSpace.{CallbackSpace, callback_size, empty_space, push_callback}
use psi_shared.CallbackSpace.Slots.{Slot, free, waiting, answered, slot_of}
use psi_shared.CallbackSpace.Refine.{
  Layout, IsValid, slots_of, taken, answer_of, update_callback_refines, clear_callback_refines,
}
use psi_shared.CallbackSpace.Reserve.{push_callback_lem}
use psi_shared.CallbackSpace.Valid.{
  empty_space-IsValid, push_callback-IsValid, update_callback-IsValid, clear_callback-IsValid,
}
use psi_shared.Server.{on_callback}
use psi_shared.Client.{Config, Texts, Sub}
use psi_shared.Client.Reader.{look, on_answer}
use psi_shared.Client.Answers.{look_refines, look_slot, look-IsValid, found}
use psi_shared.InFlight.{
  Entry, reserved, listed, overdue, left, slot_index, after_look, System, Step, reserve, refuse,
  enlist, look_at, time_out, quit, answer, Reach, start, next,
}
use psi_shared.InFlight.Count.{
  busy, busy_at, one_if, holders, holders-append, holders_middle, busy_at-at_slot, busy_at-reserve,
  busy_at-reply,
}

module _ (k : Config) where
  busy_at-on_callback :
      (i : ℕ) (index : Option ℕ) (b : List ℕ) (sz : ℕ) {s : CallbackSpace}
      → IsValid k.callback_queue k.callback_sz s
      → sz < 2 ^ 16
      → sz ≤ length b
      → busy_at i (slots_of (on_callback k.callback_queue k.callback_sz index b sz s))
        ≡ busy_at i (slots_of s)
  unfolding on_callback
  busy_at-on_callback i none b sz v hsz hb = refl
  busy_at-on_callback i (some j) b sz {s} v hsz hb =
      rw (update_callback_refines j b sz v hsz hb)
        (ground (arith, busy_at-reply j i (read_at b 0 sz) (slots_of s)))

  pub on_callback-IsValid :
      (index : Option ℕ) (b : List ℕ) (sz : ℕ) {s : CallbackSpace}
      → IsValid k.callback_queue k.callback_sz s
      → IsValid k.callback_queue k.callback_sz
          (on_callback k.callback_queue k.callback_sz index b sz s)
  unfolding on_callback
  on_callback-IsValid none b sz v = v
  on_callback-IsValid (some j) b sz v = update_callback-IsValid j b sz v

module _ (k : Config) {F : Type 0} where
  -- A taken slot has one entry, and a free one has none.
  pub record IsBalanced (s : System F) : Type 0 where
    pub valid : IsValid k.callback_queue k.callback_sz s.space
    pub owned : (i : ℕ) → holders i s.entries ≡ busy_at i (slots_of s.space)

  take_one :
      (i : ℕ) (sub : Sub F) (slot : Slot) (b : ℕ)
      → (sub.cb_index ≡ i → b ≡ busy slot)
      → (if sub.cb_index == i then busy (taken slot) else b) + one_if (sub.cb_index == i)
        ≡ b + holders i (after_look sub (found (answer_of slot)))
  take_one i sub free b h = ground arith
  take_one i sub waiting b h = ground arith
  take_one i sub (answered a) b h = ground arith

  -- A look takes the slot away from its entry, or leaves both.
  busy_at-look_slot :
      (i now : ℕ) (is_active : Bool) (sub : Sub F) (slots : List Slot)
      → let (slots', seen) = look_slot now is_active sub slots in
        busy_at i slots' + one_if (sub.cb_index == i)
        ≡ busy_at i slots + holders i (after_look sub seen)
  busy_at-look_slot i now is_active sub slots =
      elim (Bool-cases (ltb sub.deadline now || not is_active)) [
        | inl e ↦ rw e (omega arith)
        | inr e ↦
            rw (e, busy_at-at_slot sub.cb_index i taken slots refl)
              (take_one i sub (get_or slots sub.cb_index free) (busy_at i slots)
                (λ p. ap (λ j. busy_at j slots) (sym p)))
      ]

busy_le_one : (slot : Slot) → busy slot ≤ 1
busy_le_one free = omega arith
busy_le_one waiting = omega arith
busy_le_one (answered b) = omega arith

busy-new : (n : ℕ) → busy (slot_of (replicate n 0)) ≡ 0
busy-new zero = refl
busy-new (suc n) = refl

busy_at-new : (i n m : ℕ) → busy_at i (map slot_of (replicate n (replicate m 0))) ≡ 0
busy_at-new i zero m = refl
busy_at-new zero (suc n) m = busy-new m
busy_at-new (suc i) (suc n) m = busy_at-new i n m

module _ (k : Config) (z : Sizes) (texts : Texts) {F : Type 0} where
  reserve-IsBalanced :
      (i : ℕ) {s : System F}
      → (push_callback k.callback_queue s.space).1 ≡ some i
      → IsBalanced k s
      → IsBalanced k (record {
        space = (push_callback k.callback_queue s.space).0;
        entries = s.entries ++ reserved i ∷ [];
      })
  reserve-IsBalanced i {s} e b = elim (push_callback_lem b.valid) [
    | inl (out, same, full) ↦ absurd (ground (arith, out, e))
    | inr (n, out, lo, hn, is_free, first, slots) ↦ record {
      valid = push_callback-IsValid b.valid;
      owned = λ j.
          let at : n ≡ i = ground (arith, out, e) in
          let size : length (slots_of s.space) ≡ k.callback_queue =
            length-map slot_of s.space.slots ∙ b.valid.queue in
          omega (
            arith,
            ap (busy_at j) slots,
            busy_at-reserve n j (slots_of s.space) (omega (arith, size, hn)) is_free,
            b.owned j,
            holders-append j s.entries (reserved i ∷ []),
            ap (λ m. one_if (m == j)) at,
          );
    }
  ]

  refuse-IsBalanced :
      {s : System F}
      → (push_callback k.callback_queue s.space).1 ≡ none
      → IsBalanced k s
      → IsBalanced k (record s { space = (push_callback k.callback_queue s.space).0 })
  refuse-IsBalanced {s} e b = elim (push_callback_lem b.valid) [
    | inl (out, same, full) ↦ record {
      valid = push_callback-IsValid b.valid;
      owned = λ j. b.owned j ∙ ap (λ c. busy_at j (slots_of c)) (sym same);
    }
    | inr (n, out, lo, hn, is_free, first, slots) ↦ absurd (ground (arith, out, e))
  ]

  enlist-IsBalanced :
      (front back : List (Entry F)) (sub : Sub F) {s : System F}
      → s.entries ≡ front ++ reserved sub.cb_index ∷ back
      → IsBalanced k s
      → IsBalanced k (record s { entries = front ++ listed sub ∷ back })
  enlist-IsBalanced front back sub e b = record {
    valid = b.valid;
    owned = λ j. omega (
      arith,
      b.owned j,
      ap (holders j) e,
      holders-append j front (reserved sub.cb_index ∷ back),
      holders-append j front (listed sub ∷ back),
    );
  }

  look_at-IsBalanced :
      (front back : List (Entry F)) (sub : Sub F) (now : ℕ) (is_active : Bool) {s : System F}
      → s.entries ≡ front ++ listed sub ∷ back
      → IsBalanced k s
      → let (space', seen) = look k now is_active sub s.space in
        IsBalanced k (record { space = space'; entries = front ++ after_look sub seen ++ back })
  look_at-IsBalanced front back sub now is_active {s} e b =
      let same = look_refines k now is_active sub b.valid in
      record {
        valid = look-IsValid k now is_active sub b.valid;
        owned = λ j. omega (
          arith,
          b.owned j,
          ap (holders j) e,
          holders_middle j front back (listed sub)
              (after_look sub (look k now is_active sub s.space).1),
          busy_at-look_slot k j now is_active sub (slots_of s.space),
          ap (λ p. busy_at j p.0) same,
          ap (λ p. holders j (after_look sub p.1)) same,
        );
      }

  time_out-IsBalanced :
      (front back : List (Entry F)) (sub : Sub F) (client_id : ℕ) {s : System F}
      → s.entries ≡ front ++ overdue sub ∷ back
      → IsBalanced k s
      → IsBalanced k (record {
        space = (on_answer k z texts client_id sub none s.space).0;
        entries = front ++ back;
      })
  unfolding on_answer
  time_out-IsBalanced front back sub client_id {s} e b = record {
    valid = clear_callback-IsValid sub.cb_index b.valid;
    owned = λ j. grind (
      arith,
      b.owned j,
      ap (holders j) e,
      holders-append j front (overdue sub ∷ back),
      holders-append j front back,
      ap (busy_at j) (clear_callback_refines sub.cb_index b.valid),
      busy_at-at_slot sub.cb_index j (λ slot. free) (slots_of s.space) refl,
      busy_le_one (get_or (slots_of s.space) j free),
    );
  }

  quit-IsBalanced :
      (front back : List (Entry F)) (e : Entry F) {s : System F}
      → s.entries ≡ front ++ e ∷ back
      → IsBalanced k s
      → IsBalanced k (record s { entries = front ++ left (slot_index e) ∷ back })
  quit-IsBalanced front back e at b = record {
    valid = b.valid;
    owned = λ j. omega (
      arith,
      b.owned j,
      ap (holders j) at,
      holders-append j front (e ∷ back),
      holders-append j front (left (slot_index e) ∷ back),
    );
  }

  answer-IsBalanced :
      (index : Option ℕ) (cb_data : List ℕ) (cb_len : ℕ) {s : System F}
      → cb_len < 2 ^ 16
      → cb_len ≤ length cb_data
      → IsBalanced k s
      → IsBalanced k (record s {
        space = on_callback k.callback_queue k.callback_sz index cb_data cb_len s.space;
      })
  answer-IsBalanced index cb_data cb_len h1 h2 b = record {
    valid = on_callback-IsValid k index cb_data cb_len b.valid;
    owned = λ j. b.owned j ∙ sym (busy_at-on_callback k j index cb_data cb_len b.valid h1 h2);
  }

  Step-IsBalanced : {s t : System F} → Step k z texts s t → IsBalanced k s → IsBalanced k t
  Step-IsBalanced (reserve i e) b = reserve-IsBalanced i e b
  Step-IsBalanced (refuse e) b = refuse-IsBalanced e b
  Step-IsBalanced (enlist front back sub e) b = enlist-IsBalanced front back sub e b
  Step-IsBalanced (look_at front back sub now is_active e) b =
      look_at-IsBalanced front back sub now is_active e b
  Step-IsBalanced (time_out front back sub client_id e) b =
      time_out-IsBalanced front back sub client_id e b
  Step-IsBalanced (quit front back e at) b = quit-IsBalanced front back e at b
  Step-IsBalanced (answer index cb_data cb_len h1 h2) b =
      answer-IsBalanced index cb_data cb_len h1 h2 b

  -- All slots of a new space are free.
  abbrev new_system : System F
  new_system = record { space = empty_space k.callback_queue k.callback_sz; entries = [] }

  start-IsBalanced : Layout k.callback_queue k.callback_sz → IsBalanced k new_system
  unfolding empty_space
  start-IsBalanced l = record {
    valid = empty_space-IsValid l;
    owned = λ j. sym (busy_at-new j k.callback_queue (callback_size k.callback_sz));
  }

  pub Reach-IsBalanced :
      {s : System F} → Layout k.callback_queue k.callback_sz → Reach k z texts s → IsBalanced k s
  Reach-IsBalanced l start = start-IsBalanced l
  Reach-IsBalanced l (next r st) = Step-IsBalanced st (Reach-IsBalanced l r)
