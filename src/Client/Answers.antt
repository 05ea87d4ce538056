-- ===== src/Client/Answers.antt =====
-- ClientIPC.cpp and IClientIPC.hpp: how answers reach the callbacks that wait for them.

use psi_shared.Base.{
  ℕ, ◌+◌, ◌≡◌, refl, ap, ◌∙◌, List, [], ◌∷◌, Option, none, some, Bool, true, false, ◌||◌, not,
  arith, get_or, get_or-map, get_or_past, set, set_self, sym, ltb, if◌then◌else◌,
}
use psi_shared.Protocol.Serializer.{Memory}
use psi_shared.CallbackSpace.{CallbackSpace, is_callback_available}
use psi_shared.CallbackSpace.Slots.{Slot, free, waiting, answered, slot_of}
use psi_shared.CallbackSpace.Refine.{
  IsValid, slots_of, at_slot, answer_of, taken, pop_callback_refines,
}
use psi_shared.CallbackSpace.Valid.{pop_callback-IsValid}
use psi_shared.Client.{Config, Sub}
use psi_shared.Client.Reader.{Look, stays, expired, arrived, gather, look, collect}

-- What a look finds in a slot that is not past its time.
abbrev pub found : Option (List ℕ) → Look
found none = stays
found (some cb_data) = arrived cb_data

module _ {F : Type 0} where
  -- A look at an entry, by what the slots hold.
  abbrev pub look_slot : ℕ → Bool → Sub F → List Slot → List Slot × Look
  look_slot now is_active sub slots =
      if ltb sub.deadline now || not is_active
      then (slots, expired)
      else (at_slot sub.cb_index taken slots, found (answer_of (get_or slots sub.cb_index free)))

  -- The round as a sequence of looks.
  abbrev collect_looks :
      (ℕ → ℕ)
      → (ℕ → Bool)
      → ℕ
      → List (Sub F)
      → List Slot
      → List Slot × List (Sub F) × List (Sub F × Option Memory)
  collect_looks now is_active i [] slots = (slots, [], [])
  collect_looks now is_active i (sub ∷ subs) slots =
      let (slots', seen) = look_slot (now i) (is_active i) sub slots in
      gather sub seen (collect_looks now is_active (i + 1) subs slots')

  -- What a round comes to: the slots, the entries that stay, and the calls of the functions of those
  -- that are erased. An entry that is over its time is called without data; one that has an answer
  -- is called with it, and its slot is freed.
  abbrev pub collect_slots :
      (ℕ → ℕ)
      → (ℕ → Bool)
      → ℕ
      → List (Sub F)
      → List Slot
      → List Slot × List (Sub F) × List (Sub F × Option Memory)
  collect_slots now is_active i [] slots = (slots, [], [])
  collect_slots now is_active i (sub ∷ subs) slots =
      let (same, kept, calls) = collect_slots now is_active (i + 1) subs slots in
      let (freed, kept', calls') =
        collect_slots now is_active (i + 1) subs (set slots sub.cb_index free) in
      if ltb sub.deadline (now i) || not (is_active i)
      then (same, kept, (sub, none) ∷ calls)
      else elim (answer_of (get_or slots sub.cb_index free)) [
        | none ↦ (same, sub ∷ kept, calls)
        | some cb_data ↦ (freed, kept', (sub, some cb_data) ∷ calls')
      ]

  -- One look, by the slot, where `later` is what the rest of the round does.
  look_lem :
      (later : List Slot → List Slot × List (Sub F) × List (Sub F × Option Memory)) (sub : Sub F)
      (slots : List Slot) (over : Bool) (slot : Slot)
      → get_or slots sub.cb_index free ≡ slot
      → let outcome : List Slot × Look =
          if over
          then (slots, expired)
          else (set slots sub.cb_index (taken slot), found (answer_of slot)) in
        let (same, kept, calls) = later slots in
        let (freed, kept', calls') = later (set slots sub.cb_index free) in
        gather sub outcome.1 (later outcome.0) ≡ (
          if over then (same, kept, (sub, none) ∷ calls) else elim (answer_of slot) [
            | none ↦ (same, sub ∷ kept, calls)
            | some cb_data ↦ (freed, kept', (sub, some cb_data) ∷ calls')
          ])
  look_lem later sub slots true slot e = refl
  look_lem later sub slots false (answered b) e = refl
  look_lem later sub slots false free e =
      ap (λ xs. gather sub stays (later xs))
        (ap (set slots sub.cb_index) (sym e) ∙ set_self slots sub.cb_index free)
  look_lem later sub slots false waiting e =
      ap (λ xs. gather sub stays (later xs))
        (ap (set slots sub.cb_index) (sym e) ∙ set_self slots sub.cb_index free)

  collect_looks_lem :
      (now : ℕ → ℕ) (is_active : ℕ → Bool) (i : ℕ) (subs : List (Sub F)) (slots : List Slot)
      → collect_looks now is_active i subs slots ≡ collect_slots now is_active i subs slots
  collect_looks_lem now is_active i [] slots = refl
  collect_looks_lem now is_active i (sub ∷ subs) slots =
      let (slots', seen) = look_slot (now i) (is_active i) sub slots in
      ap (gather sub seen) (collect_looks_lem now is_active (i + 1) subs slots')
      ∙ look_lem (collect_slots now is_active (i + 1) subs) sub slots
          (ltb sub.deadline (now i) || not (is_active i)) (get_or slots sub.cb_index free) refl

is_answered : Option (List ℕ) → Bool
is_answered none = false
is_answered (some b) = true

is_callback_available_lem :
    (max_queue max_data i : ℕ) {s : CallbackSpace}
    → IsValid max_queue max_data s
    → is_callback_available max_queue i s ≡ is_answered (answer_of (get_or (slots_of s) i free))
unfolding is_callback_available is_answered
is_callback_available_lem max_queue max_data i {s} v =
    ground (arith, v.queue, get_or-map slot_of s.slots i [], get_or_past s.slots i [])

module _ (k : Config) {F : Type 0} where
  pub look_refines :
      (now : ℕ) (is_active : Bool) (sub : Sub F) {s : CallbackSpace}
      → IsValid k.callback_queue k.callback_sz s
      → let (s', seen) = look k now is_active sub s in
        (slots_of s', seen) ≡ look_slot now is_active sub (slots_of s)
  unfolding look is_answered
  look_refines now is_active sub {s} v = ground (
    arith,
    pop_callback_refines sub.cb_index v,
    is_callback_available_lem k.callback_queue k.callback_sz sub.cb_index v,
    set_self (slots_of s) sub.cb_index free,
  )

  pub look-IsValid :
      (now : ℕ) (is_active : Bool) (sub : Sub F) {s : CallbackSpace}
      → IsValid k.callback_queue k.callback_sz s
      → IsValid k.callback_queue k.callback_sz (look k now is_active sub s).0
  unfolding look
  look-IsValid now is_active sub v = ground (arith, pop_callback-IsValid sub.cb_index v)

  gather-slots_of :
      (sub : Sub F) (seen : Look) (r : CallbackSpace × List (Sub F) × List (Sub F × Option Memory))
      → let (s, kept, callbacks) = gather sub seen r in
        (slots_of s, kept, callbacks) ≡ gather sub seen (slots_of r.0, r.1, r.2)
  gather-slots_of sub stays r = refl
  gather-slots_of sub expired r = refl
  gather-slots_of sub (arrived cb_data) r = refl

  looks_refine :
      (now : ℕ → ℕ) (is_active : ℕ → Bool) (i : ℕ) (subs : List (Sub F)) {s : CallbackSpace}
      → IsValid k.callback_queue k.callback_sz s
      → let (s', kept, callbacks) = collect k now is_active i subs s in
        (slots_of s', kept, callbacks) ≡ collect_looks now is_active i subs (slots_of s)
  unfolding collect
  looks_refine now is_active i [] v = refl
  looks_refine now is_active i (sub ∷ subs) {s} v =
      let l = look k (now i) (is_active i) sub s in
      gather-slots_of sub l.1 (collect k now is_active (i + 1) subs l.0)
      ∙ ap (gather sub l.1)
          (looks_refine now is_active (i + 1) subs (look-IsValid (now i) (is_active i) sub v))
      ∙ ap (λ r. gather sub r.1 (collect_looks now is_active (i + 1) subs r.0))
          (look_refines (now i) (is_active i) sub v)

  -- A round over the entries that wait does what it does by the states of their slots: an entry that
  -- is past its time, or looked at after a disconnect, is erased and its function called without
  -- data; an entry whose slot has an answer is erased, its function called with that answer, and the
  -- slot freed; every other entry stays, and so does its slot.
  pub collect_refines :
      (now : ℕ → ℕ) (is_active : ℕ → Bool) (i : ℕ) (subs : List (Sub F)) {s : CallbackSpace}
      → IsValid k.callback_queue k.callback_sz s
      → let (s', kept, callbacks) = collect k now is_active i subs s in
        (slots_of s', kept, callbacks) ≡ collect_slots now is_active i subs (slots_of s)
  collect_refines now is_active i subs {s} v =
      looks_refine now is_active i subs v ∙ collect_looks_lem now is_active i subs (slots_of s)
