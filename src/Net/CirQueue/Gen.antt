-- ===== src/Net/CirQueue/Gen.antt =====
-- xrbase/net/base/CirQueueGen.cpp: the queue for many producers and many consumers. A mutex is held
-- over each body, so a body is one step of the state.
pub mod Refine
use libev_test.Base.{
  ℕ, Bool, true, false, List, [], ◌∷◌, Option, none, leb, ◌==◌, if◌then◌else◌, get_or,
}
use libev_test.Net.CirQueue.{
  ElemP, CirQueue, PushResult, full, unallocated, allocated, store_tail, drop_head,
}
use libev_test.Net.CirQueue.Fifo
use libev_test.Net.CirQueue.Fifo.{Op, Reply, pushed, popped}

unfoldable pub init : CirQueue → ℕ → CirQueue × Bool
init q max_count = if max_count == 0 then (q, false) else (allocated max_count, true)

unfoldable pub release : CirQueue → CirQueue × Bool
release q = (unallocated, true)

unfoldable pub push : CirQueue → ElemP → CirQueue × PushResult
push q elem = if leb q.max_count q.cur_count then (q, full) else store_tail q elem

unfoldable pub ser_pop : CirQueue → CirQueue
ser_pop q = q

unfoldable pub pop : CirQueue → CirQueue × ElemP
pop q = if q.cur_count == 0 then (q, none) else (drop_head q, get_or q.elems q.head none)

unfoldable pub size : CirQueue → ℕ
size q = q.cur_count

unfoldable pub empty : CirQueue → Bool
empty q = q.cur_count == 0

unfoldable pub is_full : CirQueue → Bool
is_full q = q.cur_count == q.max_count

unfoldable pub clear : CirQueue → CirQueue
clear q = record q { head = 0; tail = 0; cur_count = 0 }

-- The calls of all threads in the order of the lock, with what each returns.
unfoldable pub run : CirQueue → List (Op) → List (Reply)
run q [] = []
run q (Op.push x ∷ ops) = let (q', r) = push q x in pushed r ∷ run q' ops
run q (Op.pop ∷ ops) = let (q', r) = pop q in popped r ∷ run q' ops
