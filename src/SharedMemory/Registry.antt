-- ===== src/SharedMemory/Registry.antt =====
-- sm_manager_impl.h: `create` gives each name one manager in a process.
use psi_shared.Base.{
  ℕ, arith, List, [], ◌∷◌, some, true, false, if◌then◌else◌, ◌≡◌, ◌≢◌, refl, ap, ap₂, ◌∙◌, inl, inr,
  ==_refl, Bool-cases, Option-cases,
}
use psi_shared.SharedMemory.{Manager}
use psi_shared.SharedMemory.Managers.{Registry, names_equal, find_manager, create, changed}

names_equal_refl : (a : List ℕ) → names_equal a a ≡ true
names_equal_refl [] = refl
names_equal_refl (x ∷ xs) = rw (==_refl x) (names_equal_refl xs)

names_equal-eq : (a b : List ℕ) → names_equal a b ≡ true → a ≡ b
names_equal-eq [] [] h = refl
names_equal-eq [] (y ∷ ys) h = absurd (cc)
names_equal-eq (x ∷ xs) [] h = absurd (cc)
names_equal-eq (x ∷ xs) (y ∷ ys) h =
    ap₂ (λ z zs. z ∷ zs) (ground arith) (names_equal-eq xs ys (ground arith))

names_ne : (a b : List ℕ) → a ≢ b → names_equal a b ≡ false
names_ne a b h = elim (Bool-cases (names_equal a b)) [
  | inl e ↦ absurd (h (names_equal-eq a b e))
  | inr e ↦ e
]

-- What is left in a manager of the registry is what is found in it.
find_manager-changed :
    (name : List ℕ) (m old : Manager) (registry : Registry)
    → find_manager name registry ≡ some old
    → find_manager name (changed name m registry) ≡ some m
unfolding find_manager changed
find_manager-changed name m old [] h = absurd (cc)
find_manager-changed name m old ((k, x) ∷ rest) h = elim (Bool-cases (names_equal k name)) [
  | inl e ↦ rw (e, find_manager, e) refl
  | inr e ↦
      rw (e, find_manager, e) (find_manager-changed name m old rest (rw (find_manager, e) at h))
]

find_manager-changed_ne :
    (name other : List ℕ) (m : Manager) (registry : Registry)
    → name ≢ other
    → find_manager other (changed name m registry) ≡ find_manager other registry
unfolding find_manager changed
find_manager-changed_ne name other m [] ne = refl
find_manager-changed_ne name other m ((k, x) ∷ rest) ne = elim (Bool-cases (names_equal k name)) [
  | inl e ↦
      let other_name : names_equal k other ≡ false =
        names_ne k other (λ p. ne (ground (arith, names_equal-eq k name e))) in
      rw (e, find_manager, other_name) refl
  | inr e ↦
      rw (e, find_manager)
        (ap (λ r. if names_equal k other then some x else r)
          (find_manager-changed_ne name other m rest ne))
]

find_manager-create :
    (type_name name : List ℕ) (registry : Registry)
    → find_manager name (create type_name name registry).0 ≡ some (create type_name name registry).1
unfolding create find_manager
find_manager-create type_name name registry = elim (Option-cases (find_manager name registry)) [
  | inl e ↦ rw (create, e, find_manager, names_equal_refl name) refl
  | inr (m, e) ↦ rw (create, e) e
]

-- All who create a manager of one name in a process get the same one, in the state in which the
-- operations on it have left it, and a manager of another name is not touched by these.
pub create_lem :
    (type_name name other : List ℕ) (m : Manager) (registry : Registry)
    → name ≢ other
    → let later = changed name m (create type_name name registry).0 in
      (create type_name name later ≡ (later, m))
      × (find_manager other later ≡ find_manager other registry)
unfolding create find_manager
create_lem type_name name other m registry ne = (
  rw (create, find_manager-changed name m _ _ (find_manager-create type_name name registry)) refl,
  find_manager-changed_ne name other m _ ne ∙ kept,
)
  where
    kept : find_manager other (create type_name name registry).0 ≡ find_manager other registry
    kept = elim (Option-cases (find_manager name registry)) [
      | inl e ↦ rw (create, e, find_manager, names_ne name other ne) refl
      | inr (m, e) ↦ rw (create, e) refl
    ]
