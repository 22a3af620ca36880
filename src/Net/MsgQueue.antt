-- ===== src/Net/MsgQueue.antt =====
-- xrbase/net/base/MsgQueue.cpp: messages handed from one thread to another through one of the
-- circular queues, with a socket pair that wakes the receiver.
pub mod Dispatch
pub mod Deliver
pub mod Push
mod Tests
use libev_test.Base.{ℕ, zero, suc, Bool, true, false, List, [], ◌∷◌, ◌++◌, Option, none, some}
use libev_test.Net.CirQueue.{PushResult, full, first, more}
use libev_test.Net.MsgQueue.Dispatch
use libev_test.Net.MsgQueue.Dispatch.{CirType, one_one, mul_one, mul_mul, one, AnyQueue}

-- What a call does outside the queue: the callback on a message, its release, a byte to the socket
-- pair.
pub data Event : Type 0 where
  handled freed : ℕ → Event
  woken : Event

pub record MsgQueue : Type 0 where
  pub kind : CirType
  pub queue : Option AnyQueue
  pub has_callback : Bool

-- `Init` behind the switch: `pair_ready` is what the socket pair's `Init` answers.
unfoldable pub init_queue : MsgQueue → AnyQueue → ℕ → Bool → MsgQueue × Bool
init_queue m q max_size pair_ready =
    let (q', ready) = Dispatch.init q max_size in
    elim ready [
      | true ↦ (record m { queue = some q' }, pair_ready)
      | false ↦ (record m { queue = some q' }, false)
    ]

unfoldable pub create_queue : MsgQueue → Option AnyQueue → CirType → ℕ → Bool → MsgQueue × Bool
unfolding init_queue
create_queue m (some q) kind max_size pair_ready = init_queue m q max_size pair_ready
create_queue m none one_one max_size pair_ready =
    init_queue m (Dispatch.cas Dispatch.unset) max_size pair_ready
create_queue m none mul_one max_size pair_ready =
    init_queue m (Dispatch.mul Dispatch.unset_mul) max_size pair_ready
create_queue m none mul_mul max_size pair_ready =
    init_queue m (Dispatch.gen Dispatch.unset) max_size pair_ready
create_queue m none one max_size pair_ready = (m, true)

unfoldable pub init : MsgQueue → ℕ → Bool → CirType → Bool → MsgQueue × Bool
unfolding create_queue
init m max_size callback kind pair_ready =
    create_queue (record m { kind = kind; has_callback = callback }) m.queue kind max_size
      pair_ready

unfoldable pub release : MsgQueue → MsgQueue
release m = record m { queue = none; has_callback = false }

-- `Run`: the callback if there is one, and then the release of the message.
unfoldable pub run_msg : Bool → ℕ → List Event
run_msg true msg = handled msg ∷ freed msg ∷ []
run_msg false msg = freed msg ∷ []

-- `Push` of a full queue sleeps and tries again. `sleeps` says what the other threads do to the queue
-- during each sleep; `none` is a call that is still waiting when they end.
unfoldable pub push_retry :
    List (AnyQueue → AnyQueue) → AnyQueue → PushResult → ℕ → Option (AnyQueue × PushResult)
push_retry sleeps q first msg = some (q, first)
push_retry sleeps q more msg = some (q, more)
push_retry [] q full msg = none
push_retry (sleep ∷ sleeps) q full msg =
    let (q', r) = Dispatch.push (sleep q) (some msg) in push_retry sleeps q' r msg

unfoldable pub wake : PushResult → List Event
wake first = woken ∷ []
wake more = []
wake full = []

-- With no queue the message is handled at once.
unfoldable pub push : List (AnyQueue → AnyQueue) → MsgQueue → ℕ → Option (MsgQueue × List Event)
unfolding push_retry run_msg wake
push sleeps m msg = elim m.queue [
  | none ↦ some (m, run_msg m.has_callback msg)
  | some q ↦
      elim (push_retry sleeps (Dispatch.push q (some msg)).0 (Dispatch.push q (some msg)).1 msg) [
        | none ↦ none
        | some (q', r) ↦ some (record m { queue = some q' }, wake r)
      ]
]

-- The loop of `Pop`, until the queue answers nullptr; `none` is a loop that needs more rounds.
unfoldable pub pop_loop : ℕ → Bool → AnyQueue → Option (AnyQueue × List Event)
unfolding run_msg
pop_loop zero callback q = none
pop_loop (suc n) callback q =
    let (q', x) = Dispatch.pop q in
    let rest = pop_loop n callback q' in
    elim x [
      | none ↦ some (q', [])
      | some msg ↦ elim rest [
        | none ↦ none
        | some (q'', es) ↦ some (q'', run_msg callback msg ++ es)
      ]
    ]

unfoldable pub pop : ℕ → MsgQueue → Option (MsgQueue × List Event)
unfolding pop_loop
pop rounds m = elim m.queue [
  | none ↦ some (m, [])
  | some q ↦ elim (pop_loop rounds m.has_callback (Dispatch.ser_pop q)) [
    | none ↦ none
    | some (q', es) ↦ some (record m { queue = some q' }, es)
  ]
]
