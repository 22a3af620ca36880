-- ===== src/Container/FixQueue.antt =====
-- xrbase/container/fix_queue.h: a queue in an array of fixed size. An element is a number, or none for
-- the value of a slot that nothing was stored in.
pub mod Items
pub mod Refine
mod Tests
use libev_test.Base.{
  ℕ, ◌+◌, ◌-◌, ◌%◌, Bool, true, false, not, List, [], Option, none, some, ltb, leb, ◌==◌,
  if◌then◌else◌, get_or, set,
}
use libev_test.Net.CirQueue.{ElemP}

pub record FixQueue : Type 0 where
  pub used_count : ℕ
  pub bottom : ℕ
  pub memory : List ElemP

-- `init`, and `clear` but for the destructors.
unfoldable pub clear : FixQueue → FixQueue
clear q = record q { used_count = 0; bottom = 0 }

unfoldable pub empty : FixQueue → Bool
empty q = q.used_count == 0

-- The template's `N`.
module _ (n : ℕ) where
  -- `__index`
  unfoldable pub index : FixQueue → ℕ → ℕ
  index q i = (q.bottom + i) % n

  -- `__next`
  unfoldable pub next : FixQueue → ℕ → ℕ
  next q i = index q (i + 1)

  unfoldable pub full : FixQueue → Bool
  full q = leb n q.used_count

  -- `front`, `back` and `at`: none is the null pointer.
  unfoldable pub front : FixQueue → Option ElemP
  unfolding empty
  front q = if empty q then none else some (get_or q.memory q.bottom none)

  unfoldable pub back : FixQueue → Option ElemP
  unfolding empty index
  back q = if empty q then none else some (get_or q.memory (index q (q.used_count - 1)) none)

  unfoldable pub at : FixQueue → ℕ → Option ElemP
  unfolding index
  at q i = if ltb i q.used_count then some (get_or q.memory (index q i) none) else none

  unfoldable pub pop_front : FixQueue → FixQueue
  unfolding empty next index
  pop_front q =
      if not (empty q) then record q { bottom = next q 0; used_count = q.used_count - 1 } else q

  -- The store at the end of `push_back`.
  unfoldable pub store : FixQueue → ElemP → FixQueue
  unfolding index
  store q t = record q {
    memory = set q.memory (index q q.used_count) t;
    used_count = q.used_count + 1;
  }

  -- `push_back`, with true for 0 and false for `-ENOMEM`.
  unfoldable pub push_back : ElemP → Bool → FixQueue → Bool × FixQueue
  unfolding full pop_front store
  push_back t replace q =
      if full q
      then (if replace then (true, store (pop_front q) t) else (false, q))
      else (true, store q t)

  -- `emplace`, with false for the null pointer.
  unfoldable pub emplace : ElemP → FixQueue → Bool × FixQueue
  unfolding full store
  emplace t q = if full q then (false, q) else (true, store q t)
