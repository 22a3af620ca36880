-- ===== src/Net/CirQueue/Mul/Refine.antt =====
-- CirQueueMul as two sequences of pointers: `Push` appends to the inbox, `SerPop` moves a non-empty
-- inbox to the outbox, and `Pop` takes the outbox's first.
use libev_test.Base.{ℕ, zero, suc, ◌-◌, ◌≡◌, refl, arith, List, [], ◌∷◌, none, ◌==◌, if◌then◌else◌}
use libev_test.Net.CirQueue.{ElemP, advance}
use libev_test.Net.CirQueue.Window.{window, window-set-advance, window_of_zero, window_of_ne_zero}
use libev_test.Net.CirQueue.Valid.{
  length-contents, contents-store_tail, result-store_tail, max_count-store_tail,
}
use libev_test.Net.CirQueue.Fifo.{enqueue, dequeue}
use libev_test.Net.CirQueue.Mul.{
  CirQueueMul, push, ser_pop, pop, Call, pushes, swaps, pops, Answer, pushed, swapped, popped, run,
}
use libev_test.Net.CirQueue.Mul.Valid.{
  IsValidMul, inbox, outbox, push-IsValidMul, ser_pop-IsValidMul, pop-IsValidMul,
}

-- The swap: an empty inbox leaves all as it is; any other replaces what the outbox held.
abbrev pub swap_boxes : List ElemP → List ElemP → List ElemP × List ElemP
swap_boxes [] out = ([], out)
swap_boxes (x ∷ xs) out = ([], x ∷ xs)

-- The same calls on two plain sequences.
unfoldable pub run_boxes : ℕ → List ElemP → List ElemP → List Call → List Answer
run_boxes cap ins out [] = []
run_boxes cap ins out (pushes x ∷ cs) =
    let (ins', r) = enqueue cap ins x in pushed r ∷ run_boxes cap ins' out cs
run_boxes cap ins out (swaps ∷ cs) =
    let (ins', out') = swap_boxes ins out in swapped ∷ run_boxes cap ins' out' cs
run_boxes cap ins out (pops ∷ cs) =
    let (out', x) = dequeue out in popped x ∷ run_boxes cap ins out' cs

pub push_boxes :
    (q : CirQueueMul) (x : ElemP)
    → IsValidMul q
    → ((inbox (push q x).0, (push q x).1) ≡ enqueue q.max_count (inbox q) x)
      × (outbox (push q x).0 ≡ outbox q)
      × ((push q x).0.max_count ≡ q.max_count)
unfolding push
push_boxes q x v = ground (
  arith,
  length-contents q.base,
  contents-store_tail q.base x v.inner,
  result-store_tail q.base x,
  max_count-store_tail q.base x,
)

swap_boxes-window :
    (buf : List ElemP) (max h n : ℕ) (out : List ElemP)
    → swap_boxes (window buf max h n) out ≡ (if n == 0 then ([], out) else ([], window buf max h n))
swap_boxes-window buf max h zero out = refl
swap_boxes-window buf max h (suc n) out = ground arith

pub ser_pop_boxes :
    (q : CirQueueMul)
    → IsValidMul q
    → ((inbox (ser_pop q), outbox (ser_pop q)) ≡ swap_boxes (inbox q) (outbox q))
      × ((ser_pop q).max_count ≡ q.max_count)
unfolding ser_pop
ser_pop_boxes q v = ground (
  arith,
  v.head_zero,
  swap_boxes-window q.elems q.max_count q.head q.cur_count (outbox q),
  window_of_zero q.elems q.max_count q.head q.cur_count,
)

pub pop_boxes :
    (q : CirQueueMul)
    → IsValidMul q
    → ((outbox (pop q).0, (pop q).1) ≡ dequeue (outbox q))
      × (inbox (pop q).0 ≡ inbox q)
      × ((pop q).0.max_count ≡ q.max_count)
unfolding pop
pop_boxes q v = ground (
  arith,
  v.pop_at_in,
  v.pop_in,
  window_of_zero q.elemspop q.max_count q.pop_at (q.pop_count - q.pop_at),
  window_of_ne_zero q.elemspop q.max_count q.pop_at (q.pop_count - q.pop_at),
  window_of_zero q.elemspop q.max_count (advance q.max_count q.pop_at) (q.pop_count - q.pop_at - 1),
  window-set-advance q.elemspop q.max_count q.pop_at (q.pop_count - q.pop_at - 1) none,
)

-- In whatever order the threads' calls come, a valid CirQueueMul answers as two plain sequences: a
-- push appends to the inbox if it has room, a swap moves a non-empty inbox to the outbox in place
-- of what is there, and a pop takes the outbox's oldest.
pub run_mul_refines :
    (cs : List Call) (q : CirQueueMul)
    → IsValidMul q
    → run q cs ≡ run_boxes q.max_count (inbox q) (outbox q) cs
unfolding run run_boxes
run_mul_refines [] q v = refl
run_mul_refines (pushes x ∷ cs) q v =
    let (e, o, m) = push_boxes q x v in
    rw (run_mul_refines cs (push q x).0 (push-IsValidMul q x v), ← e, o, m)
run_mul_refines (swaps ∷ cs) q v =
    let (e, m) = ser_pop_boxes q v in
    rw (run_mul_refines cs (ser_pop q) (ser_pop-IsValidMul q v), ← e, m)
run_mul_refines (pops ∷ cs) q v =
    let (e, i, m) = pop_boxes q v in
    rw (run_mul_refines cs (pop q).0 (pop-IsValidMul q v), ← e, i, m)
