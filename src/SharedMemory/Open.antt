-- ===== src/SharedMemory/Open.antt =====
-- sm_manager_impl.h and sm_object_impl.h: what the opening of an object leads to.
use psi_shared.Base.{
  ℕ, arith, List, Option, none, some, Bool, true, false, ◌≡◌, ◌≢◌, ◌⊎◌, inl, inr, refl, sym, ap,
  subst, ◌∙◌,
}
use psi_shared.SharedMemory.{
  Os, Handle, MappedFile, SmObject, Manager, handle_of, map_file_name, new_object, map_file,
  create_map, try_open_map, destroy_object, release, create_impl,
}
use psi_shared.SharedMemory.Posix.{Object, sized, IsPosix}

pub holding_ne_missing :
    {C : Type 0} {c : C} {o : Object C} → o ≡ Object.holding c → o ≢ Object.missing
holding_ne_missing e p = absurd (cc)

some_ne_none : {A : Type 0} {a : A} {o : Option A} → o ≡ some a → o ≢ none
some_ne_none e p = absurd (cc)

module _ {W C : Type 0} {os : Os W C} {zeros : C} (posix : IsPosix os zeros) where
  open posix use {object, file, target}

  -- What is found under a name: what the object holds, or zeros in a new one.
  abbrev pub Finds : List ℕ → W → C → Type 0
  Finds n w c = (object n w ≡ Object.holding c) ⊎ ((object n w ≡ Object.missing) × (c ≡ zeros))

  abbrev pub IsMappedTo : Manager → ℕ → W → SmObject → Type 0
  IsMappedTo m a w o = (o.map_file.handle ≡ Handle.mapped a) × (target a w ≡ some (map_file_name m))

  -- A manager whose object is mapped in memory.
  abbrev pub IsAttached : Manager → W → Type 0
  IsAttached m w = (o : SmObject) × (a : ℕ) × (m.shared_object ≡ some o) × IsMappedTo m a w o

  -- No manager has an object that is not mapped.
  abbrev pub IsSound : Manager → W → Type 0
  IsSound m w = (m.shared_object ≡ none) ⊎ IsAttached m w

  -- A mapping of the name with the contents `c`, made while all the others stay.
  record Mapped (n : List ℕ) (w w1 : W) (c : C) (f : MappedFile) : Type 0 where
    address : ℕ
    handle_lem : f.handle ≡ Handle.mapped address
    at : target address w1 ≡ some n
    holds : object n w1 ≡ Object.holding c
    kept : {b : ℕ} {k : List ℕ} → target b w ≡ some k → (address ≢ b) × (target b w1 ≡ some k)

  map_file_lem :
      (n : List ℕ) {d : ℕ} {w : W} {c : C}
      → file d w ≡ some n
      → object n w ≡ Object.holding c
      → Mapped n w (map_file os n d w).0 c (map_file os n d w).1
  unfolding map_file
  map_file_lem n {d} {w} e h =
      let (a, answer, fresh, at, same) = posix.mmap_lem e in
      record {
        address = a;
        handle_lem = ap handle_of answer;
        at = at;
        holds = same ∙ h;
        kept = λ {b} {k} t.
            (λ p. some_ne_none t (subst (λ x. target x w ≡ none) p fresh), posix.target_mmap d t);
      }

  -- Further mappings after a change that keeps all of them.
  Mapped-kept :
      {n : List ℕ} {w w1 w2 : W} {c : C} {f : MappedFile}
      → ((b : ℕ) (k : List ℕ) → target b w ≡ some k → target b w1 ≡ some k)
      → Mapped n w1 w2 c f
      → Mapped n w w2 c f
  Mapped-kept keeps m = record {
    address = m.address;
    handle_lem = m.handle_lem;
    at = m.at;
    holds = m.holds;
    kept = λ {b} {k} t. m.kept (keeps b k t);
  }

  create_map_lem :
      (n : List ℕ) {w : W}
      → object n w ≡ Object.missing
      → Mapped n w (create_map os n w).0 zeros (create_map os n w).1
  unfolding create_map
  create_map_lem n {w} h =
      let (d, opened, of_n, empty) = posix.create_missing h in
      let (done, still, filled) = posix.ftruncate_lem of_n in
      rw (create_map, opened, done)
        (Mapped-kept (λ b k t. posix.target_ftruncate d (posix.target_create n t))
          (map_file_lem n still (filled ∙ ap (sized zeros) empty)))

  try_open_map_lem :
      (n : List ℕ) {w : W} {c : C}
      → Finds n w c
      → Mapped n w (try_open_map os n w).0 c (try_open_map os n w).1
  unfolding try_open_map
  try_open_map_lem n {w} (inl h) =
      let (d, opened, of_n, same) = posix.open_present (holding_ne_missing h) in
      rw (try_open_map, opened)
        (Mapped-kept (λ b k t. posix.target_open n t) (map_file_lem n of_n (same ∙ h)))
  try_open_map_lem n {w} (inr (h, e)) =
      let (opened, same) = posix.open_missing h in
      rw (try_open_map, opened)
        (Mapped-kept (λ b k t. posix.target_open n t) (rw e (create_map_lem n same)))

  abbrev pub Owned : Option SmObject → ℕ → Type 0
  Owned mine b = (o : SmObject) × (mine ≡ some o) × (o.map_file.handle ≡ Handle.mapped b)

  abbrev HasMapping : Option SmObject → Type 0
  HasMapping none = Unit
  HasMapping (some o) = (a : ℕ) × (o.map_file.handle ≡ Handle.mapped a)

  -- The old object of a manager goes without a trace in the other mappings.
  record Released (mine : Option SmObject) (w w1 : W) : Type 0 where
    objects : (n : List ℕ) → object n w1 ≡ object n w
    others : {b : ℕ} {k : List ℕ} → target b w ≡ some k → ¬ Owned mine b → target b w1 ≡ some k

  destroy_object_lem :
      (o : SmObject) (a : ℕ) (w : W)
      → o.map_file.handle ≡ Handle.mapped a
      → Released (some o) w (destroy_object os o w)
  unfolding destroy_object
  destroy_object_lem o a w h =
      subst (λ w1. Released (some o) w w1) (sym destroyed)
        (record {
          objects =
              λ n. posix.object_close n o.map_file.id (os.munmap a w) ∙ posix.object_munmap n a w;
          others = λ {b} {k} t not_own.
              posix.target_close o.map_file.id
                (posix.target_munmap a (λ p. not_own (o, refl, h ∙ ap Handle.mapped p)) t);
        })
    where
      destroyed : destroy_object os o w ≡ os.close o.map_file.id (os.munmap a w)
      destroyed = rw (destroy_object, h)

  release_lem :
      (held : Bool) (mine : Option SmObject) (w : W)
      → HasMapping mine
      → Released mine w (release os held mine w)
  unfolding release
  release_lem held none w has = record { objects = λ n. refl; others = λ t not_own. t }
  release_lem true (some o) w has = record { objects = λ n. refl; others = λ t not_own. t }
  release_lem false (some o) w (a, h) = destroy_object_lem o a w h

  IsSound-HasMapping : (m : Manager) {w : W} → IsSound m w → HasMapping m.shared_object
  IsSound-HasMapping m (inl e) = rw e tt
  IsSound-HasMapping m (inr (o, a, e, at)) = rw e (a, at.0)

  -- What the opening of an object leads to: the manager is attached to memory with the contents
  -- `c`, and the mappings of the others are as before.
  pub record Opened (size : ℕ) (m : Manager) (w : W) (c : C) (w1 : W) (m1 : Manager) : Type 0 where
    pub same_name : m1.file_name ≡ m.file_name
    pub size_lem : (o : SmObject) → m1.shared_object ≡ some o → o.max_object_size ≡ size
    pub attached : IsAttached m1 w1
    pub holds : object (map_file_name m) w1 ≡ Object.holding c
    pub others :
        {b : ℕ} {k : List ℕ}
        → target b w ≡ some k
        → ¬ Owned m.shared_object b
        → target b w1 ≡ some k

  pub create_impl_lem :
      (size : ℕ) (held : Bool) (m : Manager) {w : W} {c : C}
      → IsSound m w
      → Finds (map_file_name m) w c
      → let (w1, m1) = create_impl os size held m w in Opened size m w c w1 m1
  unfolding create_impl new_object map_file_name
  create_impl_lem size held m {w} {c} sound finds =
      rw (create_impl, opened.handle_lem)
        (record {
          same_name = refl;
          size_lem = λ o e. ground arith;
          attached = (
            new_object size file,
            opened.address,
            refl,
            (opened.handle_lem, released.others opened.at own),
          );
          holds = released.objects (map_file_name m) ∙ opened.holds;
          others = λ t not_own. released.others (opened.kept t).1 not_own;
        })
    where
      w1 : W
      w1 = (try_open_map os (map_file_name m) w).0

      file : MappedFile
      file = (try_open_map os (map_file_name m) w).1

      opened : Mapped (map_file_name m) w w1 c file
      opened = try_open_map_lem (map_file_name m) finds

      released : Released m.shared_object w1 (release os held m.shared_object w1)
      released = release_lem held m.shared_object w1 (IsSound-HasMapping m sound)

      own : ¬ Owned m.shared_object opened.address
      own (o, e, h) = elim sound [
        | inl absent ↦ some_ne_none e absent
        | inr (o1, a, e1, at) ↦ (opened.kept at.1).0 (ground arith)
      ]
