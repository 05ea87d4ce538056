-- ===== src/EventRing/Tests.antt =====
-- EventRingBuffer.h: runs of a small ring, and the theorems at concrete rings.
use psi_shared.Base.{
  ◌≡◌, refl, List, [], ◌∷◌, none, some, true, false, arith, write_at, to_bytes, of_bytes,
}
use psi_shared.EventRing.{Ring, BufferView, fill_slot, view_data, empty_ring, push, pop, reset}
use psi_shared.EventRing.Valid.{Layout, empty_ring-IsValid}
use psi_shared.EventRing.Refine.{
  Op, pushes, pops, resets, flag, message, done, run, run_queue, contents, run_refines,
}
use psi_shared.EventRing.View.{Pushes, push_all, view_data-push_all}

small : Layout 4 8
small = record { some_queue = omega arith; queue_fits = omega arith; data_fits = omega arith }

abbrev script : List Op
script =
    pushes 10 (1 ∷ 2 ∷ []) 2
    ∷ pushes 2 [] 0
    ∷ pushes 7 (9 ∷ 9 ∷ 9 ∷ []) 1
    ∷ pushes 8 (5 ∷ []) 1
    ∷ pops
    ∷ pushes 300 (4 ∷ []) 1
    ∷ pops
    ∷ resets
    ∷ pops
    ∷ []

run-script :
    run 4 8 script (empty_ring 4 8)
    ≡ flag true
      ∷ flag true
      ∷ flag true
      ∷ flag false
      ∷ message (some (10, 1 ∷ 2 ∷ []))
      ∷ flag true
      ∷ message (some (2, []))
      ∷ done
      ∷ message none
      ∷ []
unfolding run empty_ring push pop reset fill_slot view_data write_at to_bytes of_bytes
run-script = refl

run_refines_example :
    run 4 8 script (empty_ring 4 8) ≡ run_queue 3 8 script (contents 4 (empty_ring 4 8))
run_refines_example = run_refines small script (empty_ring-IsValid small) (omega arith)

abbrev one_message : Ring
one_message = record {
  storage = (10 ∷ 0 ∷ 1 ∷ 0 ∷ 77 ∷ []) ∷ (0 ∷ 0 ∷ 0 ∷ 0 ∷ 0 ∷ []) ∷ (0 ∷ 0 ∷ 0 ∷ 0 ∷ 0 ∷ []) ∷ [];
  read = 0;
  write = 1;
}

abbrev view : BufferView
view = record { event_id = 10; slot = 0; sz = 1 }

abbrev later : Pushes
later = (1, 5 ∷ [], 1) ∷ (2, 6 ∷ [], 1) ∷ (3, 7 ∷ [], 1) ∷ []

view_data-push_all_example :
    view_data view (push_all 3 1 later (record one_message { read = 1 })) ≡ 77 ∷ []
unfolding pop of_bytes view_data
view_data-push_all_example = view_data-push_all 3 1 later one_message {v = view} refl
