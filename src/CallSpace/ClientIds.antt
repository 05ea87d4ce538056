-- ===== src/CallSpace/ClientIds.antt =====
-- CallSpace.h: the ids that `generateClientId` gives out.
use psi_shared.Base.{
  ℕ, zero, suc, ◌-◌, ◌≤◌, ◌≡◌, ◌≢◌, refl, ap, List, [], ◌∷◌, Option, none, some, arith, u16_max,
}
use psi_shared.CallSpace.{CallSpace, generate_client_id}

-- The answers to `n` requests in a row.
unfoldable pub generate_all : ℕ → CallSpace → List (Option ℕ)
generate_all zero s = []
generate_all (suc n) s = let (s', id) = generate_client_id s in id ∷ generate_all n s'

-- `last + 1`, `last + 2` and so on up to the largest uint16_t; after that no id.
abbrev pub counting : ℕ → ℕ → ℕ → List (Option ℕ)
counting zero last left = []
counting (suc n) last zero = none ∷ counting n last zero
counting (suc n) last (suc left) = some (suc last) ∷ counting n (suc last) left

counting_done :
    (n last left : ℕ) → left ≡ 0 → counting (suc n) last left ≡ none ∷ counting n last left
counting_done n last zero h = refl
counting_done n last (suc left) h = absurd (omega arith)

counting_more :
    (n last left : ℕ)
    → left ≢ 0
    → counting (suc n) last left ≡ some (suc last) ∷ counting n (suc last) (left - 1)
counting_more n last zero h = absurd (h refl)
counting_more n last (suc left) h =
    ap (λ k. some (suc last) ∷ counting n (suc last) k) (omega arith)

-- The requests of clients are answered by consecutive ids, so no id is given out twice; when the
-- ids are used up, every further request is refused.
pub generate_all_lem :
    (n : ℕ) (s : CallSpace)
    → s.last_client_id ≤ u16_max
    → generate_all n s ≡ counting n s.last_client_id (u16_max - s.last_client_id)
unfolding generate_all generate_client_id
generate_all_lem zero s h = refl
generate_all_lem (suc n) s h = ground (
  arith,
  counting_done n s.last_client_id (u16_max - s.last_client_id),
  counting_more n s.last_client_id (u16_max - s.last_client_id),
  generate_all_lem n (generate_client_id s).0,
)
