-- ===== src/Net/CirQueue/Mul/Valid.antt =====
-- The invariant of CirQueueMul and its two sequences of pointers: those that producers have pushed
-- since the last swap, and those that the consumer has still to pop.
use libev_test.Base.{◌-◌, ◌≤◌, ◌<◌, ◌≡◌, ◌⊎◌, refl, arith, List, none, length, length-set}
use libev_test.Net.CirQueue.{ElemP, CirQueue, store_tail}
use libev_test.Net.CirQueue.Window.{window}
use libev_test.Net.CirQueue.Valid.{IsValid, contents, store_tail-IsValid}
use libev_test.Net.CirQueue.Mul.{CirQueueMul, push, ser_pop, pop}

abbrev pub inbox : CirQueueMul → List ElemP
inbox q = contents q.base

abbrev pub outbox : CirQueueMul → List ElemP
outbox q = window q.elemspop q.max_count q.pop_at (q.pop_count - q.pop_at)

pub record IsValidMul (q : CirQueueMul) : Type 0 where
  pub inner : IsValid q.base
  pub head_zero : q.head ≡ 0
  pub storage_pop : length q.elemspop ≡ q.max_count
  pub pop_in : q.pop_count ≤ q.max_count
  pub pop_at_in : ((q.pop_count ≡ 0) × (q.pop_at ≡ 0)) ⊎ (q.pop_at < q.pop_count)

head-store_tail : (q : CirQueue) (x : ElemP) → (store_tail q x).0.head ≡ q.head
unfolding store_tail
head-store_tail q x = refl

max_count-store_tail : (q : CirQueue) (x : ElemP) → (store_tail q x).0.max_count ≡ q.max_count
unfolding store_tail
max_count-store_tail q x = refl

pub push-IsValidMul : (q : CirQueueMul) (x : ElemP) → IsValidMul q → IsValidMul (push q x).0
unfolding push
push-IsValidMul q x v = ground (
  arith,
  store_tail-IsValid q.base x v.inner,
  head-store_tail q.base x,
  max_count-store_tail q.base x,
)

pub ser_pop-IsValidMul : (q : CirQueueMul) → IsValidMul q → IsValidMul (ser_pop q)
unfolding ser_pop
ser_pop-IsValidMul q v = ground arith

pub pop-IsValidMul : (q : CirQueueMul) → IsValidMul q → IsValidMul (pop q).0
unfolding pop
pop-IsValidMul q v = ground (arith, length-set q.elemspop q.pop_at none)
