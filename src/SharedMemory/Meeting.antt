-- ===== src/SharedMemory/Meeting.antt =====
-- IServerIPCBase.h, ServerIPCBase.cpp and IClientIPC.hpp: a server and a client of one service, in
-- two processes, over one object in shared memory.
use psi_shared.Base.{ℕ, List, Option, none, some, Bool, true, false, ◌≡◌, inl, refl, ap, ◌∙◌}
use psi_shared.SharedMemory.{Os, Manager, new_manager, map_file_name, is_shared}
use psi_shared.SharedMemory.Posix.{Object, IsPosix}
use psi_shared.SharedMemory.Open.{IsAttached, Opened}
use psi_shared.SharedMemory.Services.{
  Space, allocate_memory, free_memory, connect_checked, connect_to_service,
}
use psi_shared.SharedMemory.Rendezvous.{
  Stands, found, allocate_memory_lem, connect_to_service_lem, Opened-name, mark_available_lem,
  is_shared_lem, load_to_shared_lem,
}

module _ {W C : Type 0} (os : Os W C) (space : Space C) (size : ℕ) where
  open space use {fresh, set_available}

  -- The two start one after the other, each with a new manager; `server_first` says who begins.
  unfoldable pub meet : Bool → List ℕ → List ℕ → W → Option (W × Manager × Manager)
  meet true type_name name w =
      elim (allocate_memory os space size false (new_manager type_name name) w) [
        | none ↦ none
        | some (w1, server) ↦
            elim (connect_to_service os space size false (new_manager type_name name) w1) [
              | none ↦ none
              | some (w2, client) ↦ some (w2, server, client)
            ]
      ]
  meet false type_name name w =
      elim (connect_to_service os space size false (new_manager type_name name) w) [
        | none ↦ none
        | some (w1, client) ↦
            elim (allocate_memory os space size false (new_manager type_name name) w1) [
              | none ↦ none
              | some (w2, server) ↦ some (w2, server, client)
            ]
      ]

  -- The client looks before the server starts, and goes on when the server is done.
  unfoldable pub overtaken : List ℕ → List ℕ → W → Option (W × Manager × Manager)
  overtaken type_name name w =
      let (w1, shared) = is_shared os (new_manager type_name name) w in
      elim (allocate_memory os space size false (new_manager type_name name) w1) [
        | none ↦ none
        | some (w2, server) ↦
            elim (connect_checked os space size shared false (new_manager type_name name) w2) [
              | none ↦ none
              | some (w3, client) ↦ some (w3, server, client)
            ]
      ]

module _ {W C : Type 0} {os : Os W C} {zeros : C} (posix : IsPosix os zeros) where
  open posix use {object, target}

  -- Two managers whose objects are mapped at the same memory, which holds `c`.
  pub record Share (n : List ℕ) (server client : Manager) (c : C) (w : W) : Type 0 where
    pub server_name : map_file_name server ≡ n
    pub client_name : map_file_name client ≡ n
    pub server_attached : IsAttached posix server w
    pub client_attached : IsAttached posix client w
    pub holds : object n w ≡ Object.holding c

  -- What was mapped stays so while a manager with no object of its own opens one.
  IsAttached-kept :
      {size : ℕ} {m : Manager} (other : Manager) {w : W} {c : C} {w1 : W} {m1 : Manager}
      → m.shared_object ≡ none
      → Opened posix size m w c w1 m1
      → IsAttached posix other w
      → IsAttached posix other w1
  IsAttached-kept other e opened (o, a, p, at) =
      (o, a, p, (at.0, opened.others at.1 (λ (own, q, _). absurd (cc))))

  module _ (space : Space C) (size : ℕ) where
    open space use {fresh, set_available}

    -- A run of both to the end, which leaves them at the same memory with the contents `c`.
    unfoldable pub Shared : List ℕ → List ℕ → C → Option (W × Manager × Manager) → Type 0
    Shared type_name name c result =
        (w2 : W) × (server : Manager) × (client : Manager) × (result ≡ some (w2, server, client))
        × Share (map_file_name (new_manager type_name name)) server client c w2

    -- Whoever starts first, the server or the client, both come to the end of their constructors with
    -- managers that are attached to the same memory. It holds what stood under the name before, or a
    -- new space where nothing did, and says that the service is there.
    pub meet_lem :
        (server_first : Bool) (type_name name : List ℕ) (w : W) (s : Option C)
        → Stands posix (map_file_name (new_manager type_name name)) w s
        → Shared type_name name
            (set_available true (found posix space size s))
            (meet os space size server_first type_name name w)
    unfolding meet new_manager Shared
    meet_lem true type_name name w s h =
        let (w1, server, e1, o1) =
          allocate_memory_lem posix space size false (new_manager type_name name) w s (inl refl)
            h in
        let (w2, client, e2, o2) =
          connect_to_service_lem posix space size false (new_manager type_name name) w1
            (some (set_available true (found posix space size s))) (inl refl) o1.holds in
        (
          w2,
          server,
          client,
          rw (meet, e1, e2) refl,
          record {
            server_name = Opened-name posix o1;
            client_name = Opened-name posix o2;
            server_attached = IsAttached-kept _ refl o2 o1.attached;
            client_attached = o2.attached;
            holds = o2.holds;
          },
        )
    meet_lem false type_name name w s h =
        let (w1, client, e1, o1) =
          connect_to_service_lem posix space size false (new_manager type_name name) w s (inl refl)
            h in
        let (w2, server, e2, o2) =
          allocate_memory_lem posix space size false (new_manager type_name name) w1
            (some (found posix space size s)) (inl refl) o1.holds in
        (
          w2,
          server,
          client,
          rw (meet, e1, e2) refl,
          record {
            server_name = Opened-name posix o2;
            client_name = Opened-name posix o1;
            server_attached = o2.attached;
            client_attached = IsAttached-kept _ refl o2 o1.attached;
            holds = o2.holds;
          },
        )

    -- When a server goes that shares its memory with a client, the client then reads the space as it
    -- was, but with the flag down, and the two still share it.
    pub free_memory_lem :
        {n : List ℕ} {server client : Manager} {c : C} {w : W}
        → (share : Share n server client c w)
        → (w1 : W) × (free_memory os space size (some server) w ≡ some w1)
          × Share n server client (set_available false c) w1
          × (os.load share.client_attached.1 w1 ≡ set_available false c)
    unfolding free_memory
    free_memory_lem {n} {server} {client} {c} {w} share =
        let (o, a, e, at) = share.server_attached in
        let (p, b, f, bt) = share.client_attached in
        let at_n : target a w ≡ some n = at.1 ∙ ap some share.server_name in
        let holds : object n (os.store a (set_available false c) w)
            ≡ Object.holding (set_available false c) =
          posix.store_lem (set_available false c) at_n share.holds in
        (
          os.store a (set_available false c) w,
          rw
              (
                free_memory,
                mark_available_lem posix space size false server (o, a, e, at)
                    (ap (λ k. object k w) share.server_name ∙ share.holds),
              )
              refl,
          record {
            server_name = share.server_name;
            client_name = share.client_name;
            server_attached = (o, a, e, (at.0, posix.target_store a _ at.1));
            client_attached = (p, b, f, (bt.0, posix.target_store a _ bt.1));
            holds = holds;
          },
          posix.load_lem (posix.target_store a _ bt.1 ∙ ap some share.client_name) holds,
        )

    -- Where nothing stood under the name, and the server allocates the space between the check and
    -- the creation of a client, the client writes a new space over it, in which no service is there.
    pub overtaken_lem :
        (type_name name : List ℕ) (w : W)
        → Stands posix (map_file_name (new_manager type_name name)) w none
        → Shared type_name name fresh (overtaken os space size type_name name w)
    unfolding overtaken new_manager connect_checked Shared
    overtaken_lem type_name name w h =
        let (answer, still) = is_shared_lem posix (new_manager type_name name) w none h in
        let (w2, server, e1, o1) =
          allocate_memory_lem posix space size false (new_manager type_name name) _ none (inl refl)
            still in
        let (w3, client, e2, o2) =
          load_to_shared_lem posix size false (new_manager type_name name) w2
            (set_available true fresh) fresh (inl refl) (inl o1.holds) in
        (
          w3,
          server,
          client,
          rw (overtaken, e1, answer, connect_checked, e2) refl,
          record {
            server_name = Opened-name posix o1;
            client_name = Opened-name posix o2;
            server_attached = IsAttached-kept _ refl o2 o1.attached;
            client_attached = o2.attached;
            holds = o2.holds;
          },
        )
