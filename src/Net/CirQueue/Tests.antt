-- ===== src/Net/CirQueue/Tests.antt =====
-- Runs of the circular queues, and the theorems at concrete queues.
use libev_test.Base.{◌+◌, ◌≡◌, refl, arith, List, [], ◌∷◌, none, some, inr}
use libev_test.Net.CirQueue.{CirQueue, full, more, store_tail, drop_head}
use libev_test.Net.CirQueue.Valid.{IsValid}
use libev_test.Net.CirQueue.Fifo
use libev_test.Net.CirQueue.Fifo.{Op}
use libev_test.Net.CirQueue.Gen
use libev_test.Net.CirQueue.Gen.Refine.{run_refines}
use libev_test.Net.CirQueue.Cas
use libev_test.Net.CirQueue.Cas.Refine.{run_cas_refines}
use libev_test.Net.CirQueue.Cas.Race.{
  schedule, overlapped, one_by_one, both_enter, overlap_loses_count,
}
use libev_test.Net.CirQueue.Mul
use libev_test.Net.CirQueue.Mul.{CirQueueMul, pushes, swaps, pops}
use libev_test.Net.CirQueue.Mul.Valid.{IsValidMul}
use libev_test.Net.CirQueue.Mul.Refine.{run_boxes, run_mul_refines}

-- Three slots, with 8 in the last and 9 in the first.
abbrev wrapped : CirQueue
wrapped = record {
  elems = some 9 ∷ none ∷ some 8 ∷ [];
  head = 2;
  tail = 1;
  cur_count = 2;
  max_count = 3;
}

wrapped-IsValid : IsValid wrapped
wrapped-IsValid = record {
  storage = refl;
  head_in = omega arith;
  count_in = omega arith;
  tail_at = refl;
}

abbrev calls : List Op
calls = Op.push (some 1) ∷ Op.push (some 2) ∷ Op.pop ∷ Op.pop ∷ Op.pop ∷ Op.pop ∷ []

run-wrapped :
    Gen.run wrapped calls
    ≡ Fifo.pushed more
      ∷ Fifo.pushed full
      ∷ Fifo.popped (some 8)
      ∷ Fifo.popped (some 9)
      ∷ Fifo.popped (some 1)
      ∷ Fifo.popped none
      ∷ []
unfolding Gen.run Gen.push Gen.pop store_tail drop_head
run-wrapped = refl

run_refines_example : Gen.run wrapped calls ≡ Fifo.run 3 (some 8 ∷ some 9 ∷ []) calls
run_refines_example = run_refines calls wrapped wrapped-IsValid

run_cas_refines_example : Cas.run wrapped calls ≡ Fifo.run 3 (some 8 ∷ some 9 ∷ []) calls
run_cas_refines_example =
    run_cas_refines calls wrapped tt (record { valid = wrapped-IsValid; non_null = tt })

overlap_loses_count_example :
    let s = schedule overlapped (both_enter wrapped 1) in
    let t = schedule one_by_one (both_enter wrapped 1) in
    IsValid t.queue
    × (t.queue.cur_count ≡ 2)
    × (s.queue.elems ≡ t.queue.elems)
    × (s.queue.cur_count + 1 ≡ 2)
    × (¬ IsValid s.queue)
overlap_loses_count_example =
    overlap_loses_count wrapped 1 8 wrapped-IsValid (omega arith) (omega arith) refl

-- Two messages pushed since the last swap, one still to pop.
abbrev two_boxes : CirQueueMul
two_boxes = record {
  base = record {
    elems = some 5 ∷ some 6 ∷ none ∷ [];
    head = 0;
    tail = 2;
    cur_count = 2;
    max_count = 3;
  };
  pop_at = 1;
  pop_count = 2;
  elemspop = none ∷ some 4 ∷ none ∷ [];
}

two_boxes-IsValidMul : IsValidMul two_boxes
two_boxes-IsValidMul = record {
  inner = record { storage = refl; head_in = omega arith; count_in = omega arith; tail_at = refl };
  head_zero = refl;
  storage_pop = refl;
  pop_in = omega arith;
  pop_at_in = inr (omega arith);
}

run_mul_refines_example :
    Mul.run two_boxes (pops ∷ pushes (some 7) ∷ swaps ∷ pops ∷ [])
    ≡ run_boxes 3 (some 5 ∷ some 6 ∷ []) (some 4 ∷ []) (pops ∷ pushes (some 7) ∷ swaps ∷ pops ∷ [])
run_mul_refines_example =
    run_mul_refines (pops ∷ pushes (some 7) ∷ swaps ∷ pops ∷ []) two_boxes two_boxes-IsValidMul
