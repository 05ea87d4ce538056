-- ===== src/CallbackSpace/Tests.antt =====
-- CallbackSpace.h: runs of a small space, and the theorems at concrete spaces.
use mathlib.Core.Option
use psi_shared.Base.{◌≡◌, inl, inr, refl, [], ◌∷◌, some, true, false, write_at, to_bytes, of_bytes}
use psi_shared.CallbackSpace.{
  CallbackSpace, push_from, push_callback, update_callback, pop_callback, fill_slot, view_data,
  is_callback_available,
}
use psi_shared.CallbackSpace.Slots.{free, waiting, answered}
use psi_shared.CallbackSpace.Refine.{IsValid, slots_of}
use psi_shared.CallbackSpace.Reserve.{Outcome, push_callback_lem}

-- An answer of one byte, a slot that waits, and a free one.
abbrev mixed : CallbackSpace
mixed = record {
  slots = (3 ∷ 1 ∷ 0 ∷ 42 ∷ 0 ∷ []) ∷ (1 ∷ 0 ∷ 0 ∷ 0 ∷ 0 ∷ []) ∷ (0 ∷ 0 ∷ 0 ∷ 0 ∷ 0 ∷ []) ∷ [];
  is_available = true;
}

mixed-IsValid : IsValid 3 2 mixed
mixed-IsValid = record {
  queue = refl;
  slots_valid = (
    record { sized = refl; has_status = inr (inr refl) },
    (
      record { sized = refl; has_status = inr (inl refl) },
      (record { sized = refl; has_status = inl refl }, tt),
    ),
  );
}

slots_of-mixed : slots_of mixed ≡ answered (42 ∷ []) ∷ waiting ∷ free ∷ []
unfolding of_bytes
slots_of-mixed = refl

push_mixed : (push_callback 3 mixed).1 ≡ some 2
unfolding push_callback push_from
push_mixed = refl

round_trip :
    let s = update_callback 3 2 1 (7 ∷ 8 ∷ []) 2 mixed in
    let (s', view) = pop_callback 3 1 s in Option.map (λ v. view_data v s') view ≡ some (7 ∷ 8 ∷ [])
unfolding update_callback pop_callback fill_slot view_data write_at to_bytes of_bytes
round_trip = refl

available_only_when_ready :
    (is_callback_available 3 0 mixed ≡ true) × (is_callback_available 3 1 mixed ≡ false)
unfolding is_callback_available
available_only_when_ready = (refl, refl)

push_callback_lem_example : Outcome 3 0 mixed (push_callback 3 mixed)
push_callback_lem_example = push_callback_lem mixed-IsValid
