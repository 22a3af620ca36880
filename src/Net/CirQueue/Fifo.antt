-- ===== src/Net/CirQueue/Fifo.antt =====
-- What a client may expect of a bounded queue of pointers, oldest first.
use libev_test.Base.{ℕ, List, [], ◌∷◌, ◌++◌, none, ltb, ◌==◌, if◌then◌else◌, length}
use libev_test.Net.CirQueue.{ElemP, PushResult, full, first, more}

-- The calls of the threads, in the order in which they take the lock.
pub data Op : Type 0 where
  push : ElemP → Op
  pop : Op

-- What a call returns.
pub data Reply : Type 0 where
  pushed : PushResult → Reply
  popped : ElemP → Reply

abbrev pub enqueue : ℕ → List ElemP → ElemP → List ElemP × PushResult
enqueue cap xs x =
    if ltb (length xs) cap
    then (xs ++ (x ∷ []), if length xs == 0 then first else more)
    else (xs, full)

abbrev pub dequeue : List ElemP → List ElemP × ElemP
dequeue [] = ([], none)
dequeue (x ∷ xs) = (xs, x)

unfoldable pub run : ℕ → List ElemP → List (Op) → List (Reply)
run cap xs [] = []
run cap xs (push x ∷ ops) = let (ys, r) = enqueue cap xs x in pushed r ∷ run cap ys ops
run cap xs (pop ∷ ops) = let (ys, r) = dequeue xs in popped r ∷ run cap ys ops
