-- ===== src/SharedMemory/Rendezvous.antt =====
-- sm_manager_impl.h, IServerIPCBase.h and IClientIPC.hpp: a server and its clients meet in the same
-- object, whoever comes first.
use psi_shared.Base.{
  ℕ, arith, List, Option, none, some, Bool, true, false, ◌≡◌, inl, inr, refl, ap, ◌∙◌, ==_refl,
  le→ltb,
}
use psi_shared.SharedMemory.{
  Os, Manager, map_file_name, read, get_shared_memory, create_impl, is_shared, write,
  load_to_shared, load_from_shared,
}
use psi_shared.SharedMemory.Posix.{Object, IsPosix}
use psi_shared.SharedMemory.Open.{
  Finds, IsAttached, IsSound, Opened, create_impl_lem, holding_ne_missing,
}
use psi_shared.SharedMemory.Services.{
  Space, mark_available, allocate_checked, allocate_memory, connect_checked, connect_to_service,
}

module _ {W C : Type 0} {os : Os W C} {zeros : C} (posix : IsPosix os zeros) where
  open posix use {object, target}

  -- What stands under a name: nothing, or an object with its contents.
  abbrev pub Stands : List ℕ → W → Option C → Type 0
  Stands n w none = object n w ≡ Object.missing
  Stands n w (some c) = object n w ≡ Object.holding c

  abbrev pub present : Option C → Bool
  present none = false
  present (some c) = true

  pub is_shared_lem :
      (m : Manager) (w : W) (s : Option C)
      → Stands (map_file_name m) w s
      → ((is_shared os m w).1 ≡ present s) × Stands (map_file_name m) (is_shared os m w).0 s
  unfolding is_shared
  is_shared_lem m w none h =
      let (answer, same) = posix.open_missing h in
      (ap (λ o. elim o [ some d ↦ true | none ↦ false ]) answer, same)
  is_shared_lem m w (some c) h =
      let (d, answer, of_n, same) = posix.open_present (holding_ne_missing h) in
      (ap (λ o. elim o [ some d ↦ true | none ↦ false ]) answer, same ∙ h)

  is_shared-IsSound :
      (m : Manager) {w : W} → IsSound posix m w → IsSound posix m (is_shared os m w).0
  unfolding is_shared
  is_shared-IsSound m (inl e) = inl e
  is_shared-IsSound m (inr (o, a, e, at)) =
      inr (o, a, e, (at.0, posix.target_open (map_file_name m) at.1))

  pub Opened-name :
      {size : ℕ} {m : Manager} {w : W} {c : C} {w1 : W} {m1 : Manager}
      → Opened posix size m w c w1 m1
      → map_file_name m1 ≡ map_file_name m
  unfolding map_file_name
  Opened-name {m} opened = ap (λ f. map_file_name (record m { file_name = f })) opened.same_name

  Opened-holds :
      {size : ℕ} {m : Manager} {w : W} {c : C} {w1 : W} {m1 : Manager}
      → Opened posix size m w c w1 m1
      → object (map_file_name m1) w1 ≡ Object.holding c
  Opened-holds {w1} opened = ap (λ n. object n w1) (Opened-name opened) ∙ opened.holds

  -- A write through the object of an attached manager.
  store-Opened :
      {size : ℕ} {m : Manager} {w : W} {c : C} {w1 : W} {m1 : Manager} (c1 : C)
      → (opened : Opened posix size m w c w1 m1)
      → Opened posix size m w c1 (os.store opened.attached.1 c1 w1) m1
  store-Opened c1 opened =
      let (o, a, e, at) = opened.attached in
      record {
        same_name = opened.same_name;
        size_lem = opened.size_lem;
        attached = (o, a, e, (at.0, posix.target_store a c1 at.1));
        holds = posix.store_lem c1 (at.1 ∙ ap some (Opened-name opened)) opened.holds;
        others = λ t not_own. posix.target_store a c1 (opened.others t not_own);
      }

  -- The same seen from an earlier time, since when no mapping has ended.
  Opened-earlier :
      {size : ℕ} {m : Manager} {w0 w : W} {c : C} {w1 : W} {m1 : Manager}
      → ((b : ℕ) (k : List ℕ) → target b w0 ≡ some k → target b w ≡ some k)
      → Opened posix size m w c w1 m1
      → Opened posix size m w0 c w1 m1
  Opened-earlier keeps opened = record {
    same_name = opened.same_name;
    size_lem = opened.size_lem;
    attached = opened.attached;
    holds = opened.holds;
    others = λ {b} {k} t not_own. opened.others (keeps b k t) not_own;
  }

  -- A run that comes to its end with the manager attached to memory that holds `c`.
  abbrev pub Attaches : ℕ → Manager → W → C → Option (W × Manager) → Type 0
  Attaches size m w c result =
      (w1 : W) × (m1 : Manager) × (result ≡ some (w1, m1)) × Opened posix size m w c w1 m1

  pub load_to_shared_lem :
      (size : ℕ) (held : Bool) (m : Manager) (w : W) (c c1 : C)
      → IsSound posix m w
      → Finds posix (map_file_name m) w c
      → Attaches size m w c1 (load_to_shared os size held m (some c1) size w)
  unfolding load_to_shared write
  load_to_shared_lem size held m w c c1 sound finds =
      let opened = create_impl_lem posix size held m sound finds in
      let (o, a, e, at) = opened.attached in
      (
        os.store a c1 (create_impl os size held m w).0,
        (create_impl os size held m w).1,
        rw
            (
              load_to_shared,
              ==_refl size,
              e,
              write,
              opened.size_lem o e,
              at.0,
              le→ltb size size (omega arith),
            )
            refl,
        store-Opened c1 opened,
      )

  module _ (space : Space C) (size : ℕ) where
    open space use {fresh, set_available}

    -- `setAvailable` through an object that is mapped.
    pub mark_available_lem :
        (value : Bool) (m : Manager) {w : W} {c : C}
        → (attached : IsAttached posix m w) → object (map_file_name m) w ≡ Object.holding c
        → mark_available os space size value m w
          ≡ some (os.store attached.1 (set_available value c) w)
    unfolding mark_available get_shared_memory read
    mark_available_lem value m (o, a, e, at) h = rw (mark_available, e, at.0, posix.load_lem at.1 h)

    -- What is found in the object by the first who looks, and by everybody later.
    abbrev pub found : Option C → C
    found none = fresh
    found (some c) = c

    allocate_checked_lem :
        (held : Bool) (m : Manager) (w : W) (s : Option C)
        → IsSound posix m w
        → Stands (map_file_name m) w s
        → Attaches size m w
            (set_available true (found s))
            (allocate_checked os space size (present s) held m w)
    unfolding allocate_checked load_from_shared
    allocate_checked_lem held m w none sound h =
        load_to_shared_lem size held m w zeros (set_available true fresh) sound (inr (h, refl))
    allocate_checked_lem held m w (some c) sound h =
        let opened = create_impl_lem posix size held m sound (inl h) in
        (
          _,
          (create_impl os size held m w).1,
          rw (allocate_checked, mark_available_lem true _ opened.attached (Opened-holds opened))
              refl,
          store-Opened (set_available true c) opened,
        )

    connect_checked_lem :
        (held : Bool) (m : Manager) (w : W) (s : Option C)
        → IsSound posix m w
        → Stands (map_file_name m) w s
        → Attaches size m w (found s) (connect_checked os space size (present s) held m w)
    unfolding connect_checked load_from_shared
    connect_checked_lem held m w none sound h =
        load_to_shared_lem size held m w zeros fresh sound (inr (h, refl))
    connect_checked_lem held m w (some c) sound h =
        (_, _, refl, create_impl_lem posix size held m sound (inl h))

    Attaches-after_check :
        {m : Manager} {w : W} {c : C} {r : Option (W × Manager)}
        → Attaches size m (is_shared os m w).0 c r
        → Attaches size m w c r
    unfolding is_shared
    Attaches-after_check {m} {w} (w1, m1, e, opened) =
        (w1, m1, e, Opened-earlier (λ b k t. posix.target_open (map_file_name m) t) opened)

    -- `allocateMemory` always comes to its end: the server's object is mapped, has the contents that
    -- stood under the name, or those of a new space, and says that the service is there.
    pub allocate_memory_lem :
        (held : Bool) (m : Manager) (w : W) (s : Option C)
        → IsSound posix m w
        → Stands (map_file_name m) w s
        → Attaches size m w (set_available true (found s)) (allocate_memory os space size held m w)
    unfolding allocate_memory
    allocate_memory_lem held m w s sound h =
        let (answer, still) = is_shared_lem m w s h in
        rw (allocate_memory, answer)
          (Attaches-after_check (allocate_checked_lem held m _ s (is_shared-IsSound m sound) still))

    pub connect_to_service_lem :
        (held : Bool) (m : Manager) (w : W) (s : Option C)
        → IsSound posix m w
        → Stands (map_file_name m) w s
        → Attaches size m w (found s) (connect_to_service os space size held m w)
    unfolding connect_to_service
    connect_to_service_lem held m w s sound h =
        let (answer, still) = is_shared_lem m w s h in
        rw (connect_to_service, answer)
          (Attaches-after_check (connect_checked_lem held m _ s (is_shared-IsSound m sound) still))
