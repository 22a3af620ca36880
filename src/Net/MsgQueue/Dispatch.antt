-- ===== src/Net/MsgQueue/Dispatch.antt =====
-- The calls through `CirQueue*`: a constructor for each class behind the pointer.
use libev_test.Base.{ℕ, Bool}
use libev_test.Net.CirQueue.{ElemP, CirQueue, PushResult, unallocated}
use libev_test.Net.CirQueue.Cas
use libev_test.Net.CirQueue.Gen
use libev_test.Net.CirQueue.Mul
use libev_test.Net.CirQueue.Mul.{CirQueueMul, created}

-- `ECirType`
pub data CirType : Type 0 where
  one_one mul_one mul_mul one : CirType

pub data AnyQueue : Type 0 where
  cas : CirQueue → AnyQueue
  mul : CirQueueMul → AnyQueue
  gen : CirQueue → AnyQueue

-- New objects, before `Init`.
abbrev pub unset : CirQueue
unset = unallocated

abbrev pub unset_mul : CirQueueMul
unset_mul = created

unfoldable pub init : AnyQueue → ℕ → AnyQueue × Bool
unfolding Cas.init Mul.init Gen.init
init (cas q) n = let (q', b) = Cas.init q n in (cas q', b)
init (mul q) n = let (q', b) = Mul.init q n in (mul q', b)
init (gen q) n = let (q', b) = Gen.init q n in (gen q', b)

unfoldable pub push : AnyQueue → ElemP → AnyQueue × PushResult
push (cas q) x = let (q', r) = Cas.push q x in (cas q', r)
push (mul q) x = let (q', r) = Mul.push q x in (mul q', r)
push (gen q) x = let (q', r) = Gen.push q x in (gen q', r)

unfoldable pub ser_pop : AnyQueue → AnyQueue
unfolding Cas.ser_pop Gen.ser_pop
ser_pop (cas q) = cas (Cas.ser_pop q)
ser_pop (mul q) = mul (Mul.ser_pop q)
ser_pop (gen q) = gen (Gen.ser_pop q)

unfoldable pub pop : AnyQueue → AnyQueue × ElemP
pop (cas q) = let (q', x) = Cas.pop q in (cas q', x)
pop (mul q) = let (q', x) = Mul.pop q in (mul q', x)
pop (gen q) = let (q', x) = Gen.pop q in (gen q', x)
