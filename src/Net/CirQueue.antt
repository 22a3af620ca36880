-- ===== src/Net/CirQueue.antt =====
-- xrbase/net/base/CirQueue.h: the state that the three queue classes inherit, and the index and
-- counter updates that their bodies share. A pointer is an `Option`: `none` is nullptr.
pub mod Window
pub mod Valid
pub mod Fifo
pub mod Gen
pub mod Cas
pub mod Mul
mod Tests
use libev_test.Base.{
  ℕ, ◌+◌, ◌-◌, Bool, true, false, List, [], Option, none, ltb, leb, ◌==◌, if◌then◌else◌, set,
  get_or, replicate,
}

-- `typedef void* ElemP`: an address, or `none` for nullptr.
abbrev pub ElemP : Type 0
ElemP = Option ℕ

-- `Push` answers -1, 1 (the queue was empty) or 2.
pub data PushResult : Type 0 where
  full first more : PushResult

-- The `int32_t` counters stay below `_max_count`, so they are written as plain numbers.
pub record CirQueue : Type 0 where
  pub elems : List ElemP
  pub head : ℕ
  pub tail : ℕ
  pub cur_count : ℕ
  pub max_count : ℕ

-- `i = i + 1; if (i >= max) i = 0;`
abbrev pub advance : ℕ → ℕ → ℕ
advance max i = if leb max (i + 1) then 0 else i + 1

-- What the constructor and `Release` leave.
abbrev pub unallocated : CirQueue
unallocated = record { elems = []; head = 0; tail = 0; cur_count = 0; max_count = 0 }

-- What a successful `Init` leaves: an array of null pointers.
abbrev pub allocated : ℕ → CirQueue
allocated max = record {
  elems = replicate max none;
  head = 0;
  tail = 0;
  cur_count = 0;
  max_count = max;
}

-- The end of every `Push`: store at the tail, advance it, count, and say if this was the first.
unfoldable pub store_tail : CirQueue → ElemP → CirQueue × PushResult
store_tail q e = (
  record q {
    elems = set q.elems q.tail e;
    tail = advance q.max_count q.tail;
    cur_count = q.cur_count + 1;
  },
  if q.cur_count + 1 == 1 then first else more,
)

-- The end of `Pop`: clear the slot at the head, advance it, and count.
unfoldable pub drop_head : CirQueue → CirQueue
drop_head q = record q {
  elems = set q.elems q.head none;
  head = advance q.max_count q.head;
  cur_count = q.cur_count - 1;
}
