-- ===== src/Net/CirQueue/Cas/Refine.antt =====
-- CirQueueCas, called by one thread at a time, is the bounded queue of its pointers, none null.
use libev_test.Base.{ℕ, ◌≡◌, refl, arith, List, [], ◌∷◌, none, some, ℕ_discrete, get_or}
use mathlib.Core.Path.{subst}
use libev_test.Net.CirQueue.{ElemP, CirQueue, drop_head}
use libev_test.Net.CirQueue.Valid.{
  IsValid, IsStored, NonNull, NonNull-append, contents, length-contents, store_tail-IsValid,
  contents-store_tail, result-store_tail, max_count-store_tail, drop_head-IsValid,
  contents-drop_head, max_count-drop_head,
}
use libev_test.Net.CirQueue.Fifo
use libev_test.Net.CirQueue.Fifo.{Op, enqueue, dequeue}
use libev_test.Net.CirQueue.Cas.{take_head, push, pop, run}

-- No call of a sequence pushes a null pointer.
abbrev pub NonNullOps : List Op → Type 0
NonNullOps [] = Unit {0}
NonNullOps (Op.push none ∷ ops) = ⊥
NonNullOps (Op.push (some a) ∷ ops) = NonNullOps ops
NonNullOps (Op.pop ∷ ops) = NonNullOps ops

pub push-IsStored : (q : CirQueue) (a : ℕ) → IsStored q → IsStored (push q (some a)).0
unfolding push
push-IsStored q a v = ground (
  arith,
  store_tail-IsValid q (some a) v.valid,
  contents-store_tail q (some a) v.valid,
  NonNull-append (contents q) a v.non_null,
)

pub push_refines :
    (q : CirQueue) (a : ℕ)
    → IsStored q
    → (contents (push q (some a)).0, (push q (some a)).1)
      ≡ enqueue q.max_count (contents q) (some a)
unfolding push
push_refines q a v =
    ground (
      arith,
      length-contents q,
      contents-store_tail q (some a) v.valid,
      result-store_tail q (some a),
    )

-- `pop` on a queue with its head slot's value given as a variable.
take_head-IsStored :
    (q : CirQueue) (x : ElemP) (xs : List ElemP)
    → NonNull (x ∷ xs)
    → xs ≡ contents (drop_head q)
    → IsValid (drop_head q)
    → IsStored (take_head q x).0
unfolding take_head
take_head-IsStored q none xs n e v = absurd n
take_head-IsStored q (some a) xs n e v = record { valid = v; non_null = subst NonNull e n }

take_head_lem :
    (q : CirQueue) (x : ElemP) (xs : List ElemP)
    → NonNull (x ∷ xs)
    → take_head q x ≡ (drop_head q, x)
unfolding take_head
take_head_lem q none xs n = absurd n
take_head_lem q (some a) xs n = refl

pub pop-IsStored : (q : CirQueue) → IsStored q → IsStored (pop q).0
unfolding pop
pop-IsStored q v = elim (ℕ_discrete q.cur_count 0) [
  | yes e ↦ ground arith
  | no ne ↦
      let split = contents-drop_head q v.valid ne in
      ground (
        arith,
        take_head-IsStored q (get_or q.elems q.head none) (contents (drop_head q))
            (subst NonNull split v.non_null) refl (drop_head-IsValid q v.valid ne),
      )
]

pub pop_refines :
    (q : CirQueue) → IsStored q → (contents (pop q).0, (pop q).1) ≡ dequeue (contents q)
unfolding pop
pop_refines q v = elim (ℕ_discrete q.cur_count 0) [
  | yes e ↦ ground (arith)
  | no ne ↦
      let split = contents-drop_head q v.valid ne in
      ground (
        arith,
        split,
        take_head_lem q (get_or q.elems q.head none) (contents (drop_head q))
            (subst NonNull split v.non_null),
      )
]

max_count-push : (q : CirQueue) (a : ℕ) → (push q (some a)).0.max_count ≡ q.max_count
unfolding push
max_count-push q a = ground (arith, max_count-store_tail q (some a))

max_count-take_head : (q : CirQueue) (x : ElemP) → (take_head q x).0.max_count ≡ q.max_count
unfolding take_head
max_count-take_head q none = refl
max_count-take_head q (some a) = max_count-drop_head q

max_count-pop : (q : CirQueue) → (pop q).0.max_count ≡ q.max_count
unfolding pop
max_count-pop q = ground (arith, max_count-take_head q (get_or q.elems q.head none))

-- Called by one thread at a time with pointers that are not null, a CirQueueCas that holds no null
-- pointer answers every sequence of calls as the bounded first-in-first-out queue of its pointers.
pub run_cas_refines :
    (ops : List Op) (q : CirQueue)
    → NonNullOps ops
    → IsStored q
    → run q ops ≡ Fifo.run q.max_count (contents q) ops
unfolding run Fifo.run
run_cas_refines [] q n v = refl
run_cas_refines (Op.push none ∷ ops) q n v = absurd n
run_cas_refines (Op.push (some a) ∷ ops) q n v = rw (
  run_cas_refines ops (push q (some a)).0 n (push-IsStored q a v),
  ← push_refines q a v,
  max_count-push,
)
run_cas_refines (Op.pop ∷ ops) q n v =
    rw (run_cas_refines ops (pop q).0 n (pop-IsStored q v), ← pop_refines q v, max_count-pop)
