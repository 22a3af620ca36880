-- ===== src/Text/RingBuf/Tests.antt =====
-- The ring at a concrete history.
use libev_test.Base.{◌≡◌, refl, arith, List, [], ◌∷◌, true, false, some, replicate}
use libev_test.Text.RingBuf.{RingBuf, init}
use libev_test.Text.RingBuf.Fifo.{
  Call, writes, reads, run_ring, run_queue, run_ring_refines, init-Holds,
}

abbrev raw : RingBuf
raw = record {
  head = 0;
  tail = 0;
  count = 0;
  max_size = 0;
  is_ring = false;
  content = replicate 16 0;
}

abbrev history : List Call
history =
    writes (1 ∷ 2 ∷ 3 ∷ [])
    ∷ writes (4 ∷ [])
    ∷ reads
    ∷ writes (5 ∷ 6 ∷ 7 ∷ [])
    ∷ reads
    ∷ reads
    ∷ reads
    ∷ []

run_ring_refines_example : run_ring history (init 16 true raw) ≡ some (run_queue 16 history [])
unfolding init
run_ring_refines_example =
    run_ring_refines history (init 16 true raw) []
      (init-Holds 16 raw (omega arith) (omega arith) refl)
