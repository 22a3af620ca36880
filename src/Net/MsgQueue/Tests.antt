-- ===== src/Net/MsgQueue/Tests.antt =====
-- The theorems on the message queue at concrete queues.
use libev_test.Base.{refl, arith, true, [], ◌∷◌, none, some, inl, inr}
use libev_test.Net.CirQueue.Mul.{CirQueueMul}
use libev_test.Net.MsgQueue.Dispatch.{mul, mul_one}
use libev_test.Net.MsgQueue.{MsgQueue, push, pop}
use libev_test.Net.MsgQueue.Deliver.{IsSound, Emptied, pop-Emptied}
use libev_test.Net.MsgQueue.Push.{Enqueued, push-Enqueued}

-- Two slots, both taken.
abbrev crowded : CirQueueMul
crowded = record {
  base = record { elems = some 5 ∷ some 6 ∷ []; head = 0; tail = 0; cur_count = 2; max_count = 2 };
  pop_at = 0;
  pop_count = 0;
  elemspop = none ∷ none ∷ [];
}

crowded-IsSound : IsSound (mul crowded)
crowded-IsSound = (
  record {
    inner = record {
      storage = refl;
      head_in = omega arith;
      count_in = omega arith;
      tail_at = refl;
    };
    head_zero = refl;
    storage_pop = refl;
    pop_in = omega arith;
    pop_at_in = inl (refl, refl);
  },
  tt,
  tt,
)

abbrev receiver : MsgQueue
receiver = record { kind = mul_one; queue = some (mul crowded); has_callback = true }

pop-Emptied_example : Emptied receiver (mul crowded) (pop 3 receiver)
pop-Emptied_example =
    pop-Emptied 3 receiver (mul crowded)
      (record { holds = refl; sound = crowded-IsSound; idle = refl }) (omega arith)

-- The receiver swaps the arrays while the sender sleeps.
abbrev drained : CirQueueMul
drained = record {
  base = record { elems = none ∷ none ∷ []; head = 0; tail = 0; cur_count = 0; max_count = 2 };
  pop_at = 0;
  pop_count = 2;
  elemspop = some 5 ∷ some 6 ∷ [];
}

drained-IsSound : IsSound (mul drained)
drained-IsSound = (
  record {
    inner = record {
      storage = refl;
      head_in = omega arith;
      count_in = omega arith;
      tail_at = refl;
    };
    head_zero = refl;
    storage_pop = refl;
    pop_in = omega arith;
    pop_at_in = inr (omega arith);
  },
  tt,
  tt,
)

push-Enqueued_example :
    Enqueued
      ((λ q. q) ∷ (λ q. mul drained) ∷ [])
      receiver
      (mul crowded)
      7
      (push ((λ q. q) ∷ (λ q. mul drained) ∷ []) receiver 7)
push-Enqueued_example =
    push-Enqueued ((λ q. q) ∷ (λ q. mul drained) ∷ []) receiver (mul crowded) 7 refl crowded-IsSound
      ((λ q s. s), ((λ q s. drained-IsSound), tt)) refl
