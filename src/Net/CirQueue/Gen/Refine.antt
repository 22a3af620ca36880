-- ===== src/Net/CirQueue/Gen/Refine.antt =====
-- CirQueueGen behaves as the bounded queue of the pointers that it holds.
use libev_test.Base.{◌≡◌, refl, arith, List, [], ◌∷◌}
use libev_test.Net.CirQueue.{ElemP, CirQueue}
use libev_test.Net.CirQueue.Valid.{
  IsValid, contents, length-contents, store_tail-IsValid, contents-store_tail, result-store_tail,
  max_count-store_tail, drop_head-IsValid, contents-drop_head, max_count-drop_head,
}
use libev_test.Net.CirQueue.Fifo
use libev_test.Net.CirQueue.Fifo.{Op, enqueue, dequeue}
use libev_test.Net.CirQueue.Gen.{push, pop, run}

pub push-IsValid : (q : CirQueue) (x : ElemP) → IsValid q → IsValid (push q x).0
unfolding push
push-IsValid q x v = ground (arith, store_tail-IsValid q x v)

pub pop-IsValid : (q : CirQueue) → IsValid q → IsValid (pop q).0
unfolding pop
pop-IsValid q v = ground (arith, drop_head-IsValid q v)

pub push_refines :
    (q : CirQueue) (x : ElemP)
    → IsValid q
    → (contents (push q x).0, (push q x).1) ≡ enqueue q.max_count (contents q) x
unfolding push
push_refines q x v =
    ground (arith, length-contents q, contents-store_tail q x v, result-store_tail q x)

pub pop_refines :
    (q : CirQueue) → IsValid q → (contents (pop q).0, (pop q).1) ≡ dequeue (contents q)
unfolding pop
pop_refines q v = ground (arith, contents-drop_head q v)

pub max_count-push : (q : CirQueue) (x : ElemP) → (push q x).0.max_count ≡ q.max_count
unfolding push
max_count-push q x = ground (arith, max_count-store_tail q x)

pub max_count-pop : (q : CirQueue) → (pop q).0.max_count ≡ q.max_count
unfolding pop
max_count-pop q = ground (arith, max_count-drop_head q)

-- In whatever order the threads take the lock, no sequence of `Push` and `Pop` calls tells a valid
-- CirQueueGen from the bounded first-in-first-out queue of the pointers that it holds.
pub run_refines :
    (ops : List (Op)) (q : CirQueue) → IsValid q → run q ops ≡ Fifo.run q.max_count (contents q) ops
unfolding run Fifo.run
run_refines [] q v = refl
run_refines (Op.push x ∷ ops) q v =
    rw (run_refines ops (push q x).0 (push-IsValid q x v), ← push_refines q x v, max_count-push)
run_refines (Op.pop ∷ ops) q v =
    rw (run_refines ops (pop q).0 (pop-IsValid q v), ← pop_refines q v, max_count-pop)
