-- ===== src/Net/CirQueue/Cas/Race.antt =====
-- CirQueueCas when the producer and the consumer run at the same time. `_cur_count` is `volatile`
-- and not atomic, so each update of it is a load and a later store, and the two threads' accesses
-- may fall in any order. A step here is one access to the count, with the writes that go before it.
use libev_test.Base.{
  ℕ, ◌+◌, ◌-◌, ◌<◌, ◌≡◌, ◌≢◌, arith, List, [], ◌∷◌, none, some, leb, ltb, ◌==◌, if◌then◌else◌, set,
  get_or, get_or-set_ne, ◌∙◌, refl,
}
use libev_test.Net.CirQueue.{
  ElemP, CirQueue, PushResult, full, first, more, advance, store_tail, drop_head,
}
use libev_test.Net.CirQueue.Window.{slot}
use libev_test.Net.CirQueue.Valid.{IsValid, store_tail-IsValid, drop_head-IsValid}

-- How far the producer's call of `Push(elem)` has come.
pub data Producer : Type 0 where
  -- about to test `_cur_count >= _max_count`
  enters : ℕ → Producer
  -- the element is stored and the tail moved; about to load the count
  stored : Producer
  -- about to store the loaded count plus one
  adds : ℕ → Producer
  -- about to test `_cur_count == 1`
  counted : Producer
  returned : PushResult → Producer

-- How far the consumer's call of `Pop()` has come.
pub data Consumer : Type 0 where
  enters : Consumer
  -- the slot is cleared and the head moved; about to test `_cur_count > 0`
  cleared : ℕ → Consumer
  -- about to load the count
  positive : ℕ → Consumer
  -- about to store the loaded count less one
  subtracts : ℕ → ℕ → Consumer
  returned : ElemP → Consumer

pub record State : Type 0 where
  pub queue : CirQueue
  pub producer : Producer
  pub consumer : Consumer

abbrev store_elem : CirQueue → ℕ → CirQueue
store_elem q a = record q { elems = set q.elems q.tail (some a); tail = advance q.max_count q.tail }

abbrev clear_slot : CirQueue → CirQueue
clear_slot q = record q { elems = set q.elems q.head none; head = advance q.max_count q.head }

-- The producer's next step.
unfoldable pub produce : Producer → State → State
produce (Producer.enters a) s =
    if leb s.queue.max_count s.queue.cur_count
    then record s { producer = Producer.returned full }
    else record s { queue = store_elem s.queue a; producer = stored }
produce stored s = record s { producer = adds s.queue.cur_count }
produce (adds n) s = record s { queue = record (s.queue) { cur_count = n + 1 }; producer = counted }
produce counted s = record s {
  producer = Producer.returned (if s.queue.cur_count == 1 then first else more);
}
produce (Producer.returned r) s = s

consume_slot : ElemP → State → State
consume_slot none s = record s { consumer = Consumer.returned none }
consume_slot (some a) s = record s { queue = clear_slot s.queue; consumer = cleared a }

-- The consumer's next step.
unfoldable pub consume : Consumer → State → State
unfolding consume_slot
consume Consumer.enters s =
    if s.queue.cur_count == 0
    then record s { consumer = Consumer.returned none }
    else consume_slot (get_or s.queue.elems s.queue.head none) s
consume (cleared a) s =
    if ltb 0 s.queue.cur_count then record s { consumer = positive a } else record s {
      queue = record (s.queue) { cur_count = 0 };
      consumer = Consumer.returned (some a);
    }
consume (positive a) s = record s { consumer = subtracts a s.queue.cur_count }
consume (subtracts a n) s = record s {
  queue = record (s.queue) { cur_count = n - 1 };
  consumer = Consumer.returned (some a);
}
consume (Consumer.returned x) s = s

-- Who runs next.
pub data Turn : Type 0 where
  producer consumer : Turn

unfoldable pub step : Turn → State → State
unfolding produce consume
step producer s = produce s.producer s
step consumer s = consume s.consumer s

unfoldable pub schedule : List Turn → State → State
unfolding step
schedule [] s = s
schedule (t ∷ ts) s = schedule ts (step t s)

-- Both threads start a call on a queue.
abbrev pub both_enter : CirQueue → ℕ → State
both_enter q a = record { queue = q; producer = Producer.enters a; consumer = Consumer.enters }

-- Both threads load the count before either stores it; the consumer stores last.
abbrev pub overlapped : List Turn
overlapped =
    producer ∷ producer ∷ consumer ∷ consumer ∷ consumer ∷ producer ∷ producer ∷ consumer ∷ []

-- The producer's call, and then the consumer's.
abbrev pub one_by_one : List Turn
one_by_one =
    producer ∷ producer ∷ producer ∷ producer ∷ consumer ∷ consumer ∷ consumer ∷ consumer ∷ []

-- The slot that the producer writes is not the one that the consumer reads.
module _ (q : CirQueue) (a b : ℕ) (v : IsValid q) (lo : 0 < q.cur_count)
    (hi : q.cur_count < q.max_count) (e : get_or q.elems q.head none ≡ some b) where
  read-store : get_or (set q.elems q.tail (some a)) q.head none ≡ some b
  read-store =
      get_or-set_ne q.elems q.tail q.head (some a) none
        (λ d. absurd (ground (arith, v.tail_at, v.head_in, v.count_in)))
      ∙ e

  queue-one_by_one :
      (schedule one_by_one (both_enter q a)).queue ≡ drop_head (store_tail q (some a)).0
  unfolding schedule drop_head store_tail
  queue-one_by_one = ground (arith, read-store)

  queue-overlapped :
      (schedule overlapped (both_enter q a)).queue
      ≡ record (drop_head (store_tail q (some a)).0) { cur_count = q.cur_count - 1 }
  unfolding schedule drop_head store_tail
  queue-overlapped = ground (arith, read-store)

count_off :
    (max h t c : ℕ)
    → h < max
    → 0 < c
    → c < max
    → t ≡ slot max h c
    → advance max t ≢ slot max (advance max h) (c - 1)
count_off max h t c hh lo hi e = ground arith

-- Started on a valid queue that is neither empty nor full and holds no null pointer at its head, the
-- calls run one after the other leave a valid queue of as many elements; overlapped they store one
-- element and remove one, as they should, with the same elements in the slots as one after the other,
-- but leave the count one too small, so that the invariant is lost.
pub overlap_loses_count :
    (q : CirQueue) (a b : ℕ)
    → IsValid q
    → 0 < q.cur_count
    → q.cur_count < q.max_count
    → get_or q.elems q.head none ≡ some b
    → let s = schedule overlapped (both_enter q a) in
      let t = schedule one_by_one (both_enter q a) in
      IsValid t.queue
      × (t.queue.cur_count ≡ q.cur_count)
      × (s.queue.elems ≡ t.queue.elems)
      × (s.queue.cur_count + 1 ≡ q.cur_count)
      × (¬ IsValid s.queue)
unfolding drop_head store_tail
overlap_loses_count q a b v lo hi e =
    rw (queue-one_by_one q a b v lo hi e, queue-overlapped q a b v lo hi e)
      (
        drop_head-IsValid p.0 stored_valid more_left,
        omega arith,
        refl,
        omega arith,
        λ w. count_off q.max_count q.head q.tail q.cur_count v.head_in lo hi v.tail_at w.tail_at,
      )
  where
    p : CirQueue × PushResult
    p = store_tail q (some a)

    stored_valid : IsValid p.0
    stored_valid = store_tail-IsValid q (some a) v hi

    more_left : p.0.cur_count ≢ 0
    more_left = omega arith
