-- ===== src/SharedMemory/Sample.antt =====
-- A system of shared memory in which every call succeeds, for the runs of the tests.
use psi_shared.Base.{
  ℕ, zero, suc, arith, List, [], ◌∷◌, ◌++◌, Option, none, some, Bool, true, false, ◌≡◌, ◌≢◌, refl,
  ap, ◌∙◌, length, get_or, set, get_or-set_ne, get_or_past,
}
use mathlib.Core.List.{List-discrete}
use native.Mathlib.Decide.{ℕ_discrete}
use psi_shared.SharedMemory.{Os}
use psi_shared.SharedMemory.Posix.{Object, sized, IsPosix}

-- The objects by their names, and the names of the descriptors and of the mappings.
pub record Shm (C : Type 0) : Type 0 where
  pub objects : List ℕ → Object C
  pub files : List (Option (List ℕ))
  pub maps : List (Option (List ℕ))

get_or-some :
    (xs ys : List (Option (List ℕ))) (i : ℕ) {n : List ℕ}
    → get_or xs i none ≡ some n
    → get_or (xs ++ ys) i none ≡ some n
get_or-some [] ys i h = absurd (cc)
get_or-some (x ∷ xs) ys zero h = h
get_or-some (x ∷ xs) ys (suc i) h = get_or-some xs ys i h

get_or-last :
    (xs : List (Option (List ℕ))) (o : Option (List ℕ)) → get_or (xs ++ o ∷ []) (length xs) none ≡ o
get_or-last [] o = refl
get_or-last (x ∷ xs) o = get_or-last xs o

abbrev choose : {P A : Type 0} → Dec P → A → A → A
choose (yes _) a b = a
choose (no _) a b = b

choose_yes : {P A : Type 0} (d : Dec P) (a b : A) → P → choose d a b ≡ a
choose_yes (yes _) a b p = refl
choose_yes (no h) a b p = absurd (h p)

module _ {C : Type 0} (zeros : C) where
  abbrev as_contents : Object C → C
  as_contents (Object.holding c) = c
  as_contents Object.missing = zeros
  as_contents Object.blank = zeros

  -- What an object is after a change of the one with the name `n`.
  unfoldable pub put : List ℕ → Object C → (List ℕ → Object C) → List ℕ → Object C
  put n o objects k = choose (List-discrete ℕ_discrete n k) o (objects k)

  put_self : (n : List ℕ) (o : Object C) (objects : List ℕ → Object C) → put n o objects n ≡ o
  unfolding put
  put_self n o objects = choose_yes (List-discrete ℕ_discrete n n) o (objects n) refl

  -- A new descriptor of `n`, unless there is no such object.
  unfoldable pub open_file : List ℕ → Object C → Shm C → Shm C × Option ℕ
  open_file n Object.missing w = (w, none)
  open_file n o w = (record w { files = w.files ++ some n ∷ [] }, some (length w.files))

  unfoldable pub resize : Option (List ℕ) → Shm C → Shm C × Bool
  resize none w = (w, false)
  resize (some n) w = (record w { objects = put n (sized zeros (w.objects n)) w.objects }, true)

  unfoldable pub add_map : Option (List ℕ) → Shm C → Shm C × Option ℕ
  add_map none w = (w, none)
  add_map (some n) w = (record w { maps = w.maps ++ some n ∷ [] }, some (length w.maps))

  unfoldable pub load_named : Option (List ℕ) → Shm C → C
  load_named none w = zeros
  load_named (some n) w = as_contents (w.objects n)

  unfoldable pub store_named : Option (List ℕ) → C → Shm C → Shm C
  store_named none c w = w
  store_named (some n) c w = record w { objects = put n (Object.holding c) w.objects }

  abbrev pub sample_os : Os (Shm C) C
  sample_os = record {
    shm_open = λ n w. open_file n (w.objects n) w;
    shm_create = λ n w. (
      record w { objects = put n Object.blank w.objects; files = w.files ++ some n ∷ [] },
      some (length w.files),
    );
    ftruncate = λ d w. resize (get_or w.files d none) w;
    mmap = λ d w. add_map (get_or w.files d none) w;
    munmap = λ a w. record w { maps = set w.maps a none };
    close = λ d w. w;
    load = λ a w. load_named (get_or w.maps a none) w;
    store = λ a c w. store_named (get_or w.maps a none) c w;
  }

  open_file-missing :
      (n : List ℕ) (o : Object C) (w : Shm C) → o ≡ Object.missing → open_file n o w ≡ (w, none)
  unfolding open_file
  open_file-missing n Object.missing w h = refl
  open_file-missing n Object.blank w h = absurd (cc)
  open_file-missing n (Object.holding c) w h = absurd (cc)

  open_file-present :
      (n : List ℕ) (o : Object C) (w : Shm C)
      → o ≢ Object.missing
      → open_file n o w ≡ (record w { files = w.files ++ some n ∷ [] }, some (length w.files))
  unfolding open_file
  open_file-present n Object.missing w h = absurd (h refl)
  open_file-present n Object.blank w h = refl
  open_file-present n (Object.holding c) w h = refl

  maps-open_file : (n : List ℕ) (o : Object C) (w : Shm C) → (open_file n o w).0.maps ≡ w.maps
  unfolding open_file
  maps-open_file n Object.missing w = refl
  maps-open_file n Object.blank w = refl
  maps-open_file n (Object.holding c) w = refl

  maps-resize : (f : Option (List ℕ)) (w : Shm C) → (resize f w).0.maps ≡ w.maps
  unfolding resize
  maps-resize none w = refl
  maps-resize (some n) w = refl

  maps-store_named : (f : Option (List ℕ)) (c : C) (w : Shm C) → (store_named f c w).maps ≡ w.maps
  unfolding store_named
  maps-store_named none c w = refl
  maps-store_named (some n) c w = refl

  add_map-kept :
      (f : Option (List ℕ)) (w : Shm C) (b : ℕ) {m : List ℕ}
      → get_or w.maps b none ≡ some m
      → get_or (add_map f w).0.maps b none ≡ some m
  unfolding add_map
  add_map-kept none w b h = h
  add_map-kept (some n) w b h = get_or-some w.maps (some n ∷ []) b h

  pub sample_posix : IsPosix sample_os zeros
  unfolding resize add_map load_named store_named
  sample_posix = record {
    object = λ n w. w.objects n;
    file = λ d w. get_or w.files d none;
    target = λ a w. get_or w.maps a none;
    open_missing = λ {n} {w} h. rw (open_file-missing n (w.objects n) w h) (refl, h);
    open_present = λ {n} {w} h.
        rw (open_file-present n (w.objects n) w h)
          (length w.files, refl, get_or-last w.files (some n), refl);
    create_missing = λ {n} {w} h.
        (length w.files, refl, get_or-last w.files (some n), put_self n Object.blank w.objects);
    ftruncate_lem =
        λ {n} {d} {w} h. rw h (refl, h, put_self n (sized zeros (w.objects n)) w.objects);
    mmap_lem = λ {n} {d} {w} h. rw h (
      length w.maps,
      refl,
      get_or_past w.maps (length w.maps) none (omega arith),
      get_or-last w.maps (some n),
      refl,
    );
    load_lem = λ {n} {a} {w} {c} at h. rw (at, h) refl;
    store_lem = λ {n} {a} {w} {old} c at h. rw at (put_self n (Object.holding c) w.objects);
    object_munmap = λ n a w. refl;
    object_close = λ n d w. refl;
    target_open =
        λ n {b} {w} {m} h. ap (λ xs. get_or xs b none) (maps-open_file n (w.objects n) w) ∙ h;
    target_create = λ n h. h;
    target_ftruncate =
        λ d {b} {w} {m} h. ap (λ xs. get_or xs b none) (maps-resize (get_or w.files d none) w) ∙ h;
    target_mmap = λ d {b} {w} {m} h. add_map-kept (get_or w.files d none) w b h;
    target_munmap = λ a {b} {w} {m} ne h. get_or-set_ne w.maps a b none none ne ∙ h;
    target_close = λ d h. h;
    target_store = λ a c {b} {w} {m} h.
        ap (λ xs. get_or xs b none) (maps-store_named (get_or w.maps a none) c w) ∙ h;
  }

  pub sample_object : (n : List ℕ) (w : Shm C) → sample_posix.object n w ≡ w.objects n
  unfolding sample_posix
  sample_object n w = refl

  pub sample_target : (a : ℕ) (w : Shm C) → sample_posix.target a w ≡ get_or w.maps a none
  unfolding sample_posix
  sample_target a w = refl
