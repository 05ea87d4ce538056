-- ===== src/CallSpace/Tests.antt =====
-- CallSpace.h: runs of a small space, and the theorems at concrete spaces.
use psi_shared.Base.{◌≡◌, refl, [], ◌∷◌, none, some, true, false, arith, write_at}
use psi_shared.CallSpace.{CallSpace, push}
use psi_shared.CallSpace.Refine.{Layout, IsValid}

small : Layout 2 4
small = record { queue_fits = omega arith; data_fits = omega arith }

-- Three bytes of a space of eight are taken.
abbrev partly : CallSpace
partly = record {
  bytes = 1 ∷ 2 ∷ 3 ∷ 0 ∷ 0 ∷ 0 ∷ 0 ∷ 0 ∷ [];
  is_available = true;
  write_index = 3;
  last_client_id = 65534;
}

partly-IsValid : IsValid 2 4 partly
partly-IsValid = omega arith

push-partly :
    push 2 4 (some (9 ∷ 8 ∷ [])) 2 partly
    ≡ (record partly { bytes = 1 ∷ 2 ∷ 3 ∷ 9 ∷ 8 ∷ 0 ∷ 0 ∷ 0 ∷ []; write_index = 5 }, true)
unfolding push write_at
push-partly = refl

push_too_long : push 2 4 (some (9 ∷ 8 ∷ 7 ∷ 6 ∷ 5 ∷ [])) 5 partly ≡ (partly, false)
unfolding push
push_too_long = refl

push_null : push 2 4 none 2 partly ≡ (partly, false)
unfolding push
push_null = refl
