-- ===== src/Net/CirQueue/Mul.antt =====
-- xrbase/net/base/CirQueueMul.cpp: the queue for many producers and one consumer. Producers fill
-- one array under the lock; `SerPop` swaps it for the other, from which the consumer pops unlocked.
pub mod Valid
pub mod Refine
use libev_test.Base.{
  ℕ, ◌+◌, Bool, true, false, List, [], ◌∷◌, none, leb, ◌==◌, if◌then◌else◌, set, get_or, replicate,
}
use libev_test.Net.CirQueue.{ElemP, CirQueue, PushResult, full, unallocated, allocated, store_tail}

pub record CirQueueMul : Type 0 where
  pub base : CirQueue
  pub open base use *
  pub pop_at : ℕ
  pub pop_count : ℕ
  pub elemspop : List ElemP

-- A new object.
abbrev pub created : CirQueueMul
created = record { base = unallocated; pop_at = 0; pop_count = 0; elemspop = [] }

-- `_head` is not set; it is 0 from the constructor on. `_pop` and `_pop_count` keep their values.
unfoldable pub init : CirQueueMul → ℕ → CirQueueMul × Bool
init q max_count = if max_count == 0 then (q, false) else (
  record q {
    base = record (allocated max_count) { head = q.head };
    elemspop = replicate max_count none;
  },
  true,
)

unfoldable pub release : CirQueueMul → CirQueueMul × Bool
release q = (record q { base = record unallocated { head = q.head }; elemspop = [] }, true)

unfoldable pub push : CirQueueMul → ElemP → CirQueueMul × PushResult
push q elem =
    if leb q.max_count q.cur_count
    then (q, full)
    else (record q { base = (store_tail q.base elem).0 }, (store_tail q.base elem).1)

unfoldable pub ser_pop : CirQueueMul → CirQueueMul
ser_pop q = if q.cur_count == 0 then q else record q {
  base = record (q.base) { elems = q.elemspop; tail = 0; cur_count = 0 };
  elemspop = q.elems;
  pop_count = q.cur_count;
  pop_at = 0;
}

-- `Pop` behind its guard: clear the slot, step on, and start over behind the last one.
unfoldable pub step_pop : CirQueueMul → CirQueueMul
step_pop q =
    if leb q.pop_count (q.pop_at + 1)
    then record q { elemspop = set q.elemspop q.pop_at none; pop_count = 0; pop_at = 0 }
    else record q { elemspop = set q.elemspop q.pop_at none; pop_at = q.pop_at + 1 }

unfoldable pub pop : CirQueueMul → CirQueueMul × ElemP
unfolding step_pop
pop q = if q.pop_count == 0 then (q, none) else (step_pop q, get_or q.elemspop q.pop_at none)

unfoldable pub size : CirQueueMul → ℕ
size q = q.cur_count

unfoldable pub empty : CirQueueMul → Bool
empty q = q.cur_count == 0

unfoldable pub is_full : CirQueueMul → Bool
is_full q = q.cur_count == q.max_count

unfoldable pub clear : CirQueueMul → CirQueueMul
clear q = record q { base = record (q.base) { tail = 0; cur_count = 0 } }

-- The calls of all threads; `SerPop` and `Pop` are the consumer's.
pub data Call : Type 0 where
  pushes : ElemP → Call
  swaps : Call
  pops : Call

-- What a call answers.
pub data Answer : Type 0 where
  pushed : PushResult → Answer
  swapped : Answer
  popped : ElemP → Answer

unfoldable pub run : CirQueueMul → List Call → List Answer
run q [] = []
run q (pushes x ∷ cs) = let (q', r) = push q x in pushed r ∷ run q' cs
run q (swaps ∷ cs) = swapped ∷ run (ser_pop q) cs
run q (pops ∷ cs) = let (q', r) = pop q in popped r ∷ run q' cs
