-- ===== src/Net/CirQueue/Cas.antt =====
-- xrbase/net/base/CirQueueCas.cpp: the queue for one producer and one consumer. Its bodies take no
-- lock: the functions here are whole calls, and `Race` takes them apart into their memory accesses.
pub mod Refine
pub mod Race
use libev_test.Base.{ℕ, Bool, true, false, none, some, leb, ◌==◌, if◌then◌else◌, get_or}
use libev_test.Net.CirQueue.{
  ElemP, CirQueue, PushResult, full, unallocated, allocated, store_tail, drop_head,
}
use libev_test.Base.{List, [], ◌∷◌}
use libev_test.Net.CirQueue.Fifo.{Op, Reply, pushed, popped}

unfoldable pub init : CirQueue → ℕ → CirQueue × Bool
init q max_count = if max_count == 0 then (q, false) else (allocated max_count, true)

unfoldable pub release : CirQueue → CirQueue × Bool
release q = (unallocated, true)

-- A null pointer is refused like a full queue.
unfoldable pub push : CirQueue → ElemP → CirQueue × PushResult
push q none = (q, full)
push q (some a) = if leb q.max_count q.cur_count then (q, full) else store_tail q (some a)

unfoldable pub ser_pop : CirQueue → CirQueue
ser_pop q = q

-- The body of `Pop` behind the read of the head slot. In a whole call the count is still positive
-- there, so the repair in its `else` is not reached.
unfoldable pub take_head : CirQueue → ElemP → CirQueue × ElemP
take_head q none = (q, none)
take_head q (some a) = (drop_head q, some a)

unfoldable pub pop : CirQueue → CirQueue × ElemP
unfolding take_head
pop q = if q.cur_count == 0 then (q, none) else take_head q (get_or q.elems q.head none)

unfoldable pub size : CirQueue → ℕ
size q = q.cur_count

unfoldable pub empty : CirQueue → Bool
empty q = q.cur_count == 0

unfoldable pub is_full : CirQueue → Bool
is_full q = q.cur_count == q.max_count

unfoldable pub clear : CirQueue → CirQueue
clear q = record q { head = 0; tail = 0; cur_count = 0 }

-- Whole calls, one after the other.
unfoldable pub run : CirQueue → List Op → List Reply
run q [] = []
run q (Op.push x ∷ ops) = let (q', r) = push q x in pushed r ∷ run q' ops
run q (Op.pop ∷ ops) = let (q', r) = pop q in popped r ∷ run q' ops
