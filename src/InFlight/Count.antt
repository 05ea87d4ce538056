-- ===== src/InFlight/Count.antt =====
-- CallbackSpace.h: which slots are taken, and how many entries have a slot.
use psi_shared.Base.{
  ℕ, ◌+◌, ◌<◌, ◌≡◌, refl, arith, List, [], ◌∷◌, ◌++◌, Bool, true, false, length, get_or,
  get_or-set_self, get_or-set_ne, get_or_past, set_past, ◌==◌, if◌then◌else◌,
}
use psi_shared.CallbackSpace.Slots.{Slot, free, waiting, answered}
use psi_shared.CallbackSpace.Refine.{at_slot, reply_slot}
use psi_shared.InFlight.{Entry, slot_index}

abbrev pub busy : Slot → ℕ
busy free = 0
busy waiting = 1
busy (answered b) = 1

abbrev pub busy_at : ℕ → List Slot → ℕ
busy_at i slots = busy (get_or slots i free)

abbrev pub one_if : Bool → ℕ
one_if true = 1
one_if false = 0

module _ {F : Type 0} where
  -- The number of entries that have the slot.
  abbrev pub holders : ℕ → List (Entry F) → ℕ
  holders i [] = 0
  holders i (e ∷ es) = one_if (slot_index e == i) + holders i es

  pub holders-append :
      (i : ℕ) (xs ys : List (Entry F)) → holders i (xs ++ ys) ≡ holders i xs + holders i ys
  holders-append i [] ys = omega arith
  holders-append i (x ∷ xs) ys = omega (arith, holders-append i xs ys)

  -- An entry is replaced by others.
  pub holders_middle :
      (i : ℕ) (front back : List (Entry F)) (e : Entry F) (es : List (Entry F))
      → holders i (front ++ es ++ back) + one_if (slot_index e == i)
        ≡ holders i (front ++ e ∷ back) + holders i es
  holders_middle i front back e es = omega (
    arith,
    holders-append i (front ++ es) back,
    holders-append i front es,
    holders-append i front (e ∷ back),
  )

-- A change of one slot, seen at any slot.
pub busy_at-at_slot :
    (i j : ℕ) (f : Slot → Slot) (slots : List Slot)
    → f free ≡ free
    → busy_at j (at_slot i f slots)
      ≡ (if i == j then busy (f (get_or slots i free)) else busy_at j slots)
busy_at-at_slot i j f slots h = ground (
  arith,
  get_or-set_self slots i (f (get_or slots i free)) free,
  get_or-set_ne slots i j (f (get_or slots i free)) free,
  get_or_past slots i free,
  set_past slots i (f (get_or slots i free)),
)

pub busy_at-reserve :
    (i j : ℕ) (slots : List Slot)
    → i < length slots
    → get_or slots i free ≡ free
    → busy_at j (at_slot i (λ slot. waiting) slots) ≡ one_if (i == j) + busy_at j slots
busy_at-reserve i j slots h e =
    ground (arith, get_or-set_self slots i waiting free h, get_or-set_ne slots i j waiting free)

pub busy-reply_slot : (b : List ℕ) (slot : Slot) → busy (reply_slot b slot) ≡ busy slot
busy-reply_slot b free = refl
busy-reply_slot b waiting = refl
busy-reply_slot b (answered old) = refl

pub busy_at-reply :
    (i j : ℕ) (b : List ℕ) (slots : List Slot)
    → busy_at j (at_slot i (reply_slot b) slots) ≡ busy_at j slots
busy_at-reply i j b slots =
    ground (
      arith,
      busy_at-at_slot i j (reply_slot b) slots refl,
      busy-reply_slot b (get_or slots i free),
    )
