-- ===== src/Container/FixQueue/Tests.antt =====
-- A fix_queue of three slots: the example of its theorem.
use libev_test.Base.{◌≡◌, refl, arith, true, false, List, [], ◌∷◌, none, some}
use libev_test.Net.CirQueue.{ElemP}
use libev_test.Container.FixQueue.Refine.{
  Call, pushes, emplaces, pops, reads_front, reads_back, reads_at, done, value, run, run_spec,
  run_queue_refines, call_spec,
}

abbrev slots : List ElemP
slots = none ∷ none ∷ none ∷ []

-- The array is filled, wraps round, and is written past its capacity.
abbrev history : List Call
history =
    pushes (some 1) false
    ∷ emplaces (some 2)
    ∷ pops
    ∷ pushes (some 3) false
    ∷ pushes (some 4) false
    ∷ emplaces (some 5)
    ∷ pushes (some 6) true
    ∷ reads_front
    ∷ reads_back
    ∷ reads_at 1
    ∷ []

run_queue_refines_example :
    run 3 history (record { used_count = 0; bottom = 0; memory = slots }) ≡ run_spec 3 history []
run_queue_refines_example = run_queue_refines 3 slots history (omega arith) refl

spec_answers :
    run_spec 3 history []
    ≡ done true
      ∷ done true
      ∷ done true
      ∷ done true
      ∷ done true
      ∷ done false
      ∷ done true
      ∷ value (some (some 3))
      ∷ value (some (some 6))
      ∷ value (some (some 4))
      ∷ []
unfolding run_spec call_spec
spec_answers = refl
