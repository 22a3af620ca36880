-- ===== src/Net/MsgQueue/Deliver.antt =====
-- `MsgQueue::Pop` hands every waiting message over, oldest first, for each class of queue.
use libev_test.Base.{
  ℕ, zero, suc, ◌<◌, ◌≡◌, refl, sym, ap, ◌∙◌, arith, Bool, true, false, List, [], ◌∷◌, ◌++◌, Option,
  none, some, length,
}
use mathlib.Core.Path.{subst}
use mathlib.Core.List.{append-nil}
use libev_test.Net.CirQueue.{ElemP}
use libev_test.Net.CirQueue.Fifo.{dequeue}
use libev_test.Net.CirQueue.Valid.{IsStored, NonNull, contents}
use libev_test.Net.CirQueue.Cas.Refine as CasRefine
use libev_test.Net.CirQueue.Gen.Refine as GenRefine
use libev_test.Net.CirQueue.Mul
use libev_test.Net.CirQueue.Mul.Valid.{
  IsValidMul, inbox, outbox, ser_pop-IsValidMul, pop-IsValidMul,
}
use libev_test.Net.CirQueue.Mul.Refine.{swap_boxes, ser_pop_boxes, pop_boxes}
use libev_test.Net.MsgQueue.Dispatch
use libev_test.Net.MsgQueue.Dispatch.{AnyQueue, cas, mul, gen}
use libev_test.Net.MsgQueue.{MsgQueue, Event, handled, freed, run_msg, pop_loop, pop}

-- The messages that the consumer pops before the next swap, and those behind it.
abbrev pub front : AnyQueue → List ElemP
front (cas q) = contents q
front (mul q) = outbox q
front (gen q) = contents q

abbrev pub back : AnyQueue → List ElemP
back (cas q) = []
back (mul q) = inbox q
back (gen q) = []

abbrev pub waiting : AnyQueue → List ElemP
waiting q = front q ++ back q

-- The queue's invariant, with no null pointer among the messages.
abbrev pub IsSound : AnyQueue → Type 0
IsSound (cas q) = IsStored q
IsSound (mul q) = IsValidMul q × NonNull (outbox q) × NonNull (inbox q)
IsSound (gen q) = IsStored q

-- Between two calls of `Pop` no swapped message is left over.
abbrev pub IsIdle : AnyQueue → Type 0
IsIdle (cas q) = Unit {0}
IsIdle (mul q) = outbox q ≡ []
IsIdle (gen q) = Unit {0}

pub record Pops (q : AnyQueue) (r : AnyQueue × ElemP) : Type 0 where
  pub popped : (front r.0, r.1) ≡ dequeue (front q)
  pub kept : back r.0 ≡ back q
  pub sound : IsSound r.0

NonNull-dequeue : (xs : List ElemP) → NonNull xs → NonNull (dequeue xs).0
NonNull-dequeue [] h = tt
NonNull-dequeue (none ∷ xs) h = absurd h
NonNull-dequeue (some a ∷ xs) h = h

pub pop-Pops : (q : AnyQueue) → IsSound q → Pops q (Dispatch.pop q)
unfolding Dispatch.pop
pop-Pops (cas q) s = record {
  popped = CasRefine.pop_refines q s;
  kept = refl;
  sound = CasRefine.pop-IsStored q s;
}
pop-Pops (gen q) s = record {
  popped = GenRefine.pop_refines q s.valid;
  kept = refl;
  sound = record {
    valid = GenRefine.pop-IsValid q s.valid;
    non_null =
        subst NonNull (sym (ap (λ t. t.0) (GenRefine.pop_refines q s.valid)))
          (NonNull-dequeue (contents q) s.non_null);
  };
}
pop-Pops (mul q) s =
    let (e, i, m) = pop_boxes q s.0 in
    record {
      popped = e;
      kept = i;
      sound = (
        pop-IsValidMul q s.0,
        subst NonNull (sym (ap (λ t. t.0) e)) (NonNull-dequeue (outbox q) s.1),
        subst NonNull (sym i) s.2,
      );
    }

pub record Swaps (q r : AnyQueue) : Type 0 where
  pub ahead : front r ≡ waiting q
  pub behind : back r ≡ []
  pub sound : IsSound r

swap_idle : (ins : List ElemP) → swap_boxes ins [] ≡ ([], ins)
swap_idle [] = refl
swap_idle (x ∷ xs) = refl

pub ser_pop-Swaps : (q : AnyQueue) → IsSound q → IsIdle q → Swaps q (Dispatch.ser_pop q)
unfolding Dispatch.ser_pop
ser_pop-Swaps (cas q) s d = record { ahead = sym (append-nil _); behind = refl; sound = s }
ser_pop-Swaps (gen q) s d = record { ahead = sym (append-nil _); behind = refl; sound = s }
ser_pop-Swaps (mul q) s d = record {
  ahead = ap (λ t. t.1) boxes ∙ sym (ap (λ t. t ++ inbox q) d);
  behind = ap (λ t. t.0) boxes;
  sound = (
    ser_pop-IsValidMul q s.0,
    subst NonNull (sym (ap (λ t. t.1) boxes)) s.2,
    subst NonNull (sym (ap (λ t. t.0) boxes)) tt,
  );
}
  where
    boxes :
        ◌≡◌ {A = List ElemP × List ElemP}
          (inbox (Mul.ser_pop q), outbox (Mul.ser_pop q))
          ([], inbox q)
    boxes = (ser_pop_boxes q s.0).0 ∙ ap (swap_boxes (inbox q)) d ∙ swap_idle (inbox q)

-- Each message goes to the callback, if there is one, and is then freed.
abbrev pub handed : Bool → ℕ → List Event
handed true a = handled a ∷ freed a ∷ []
handed false a = freed a ∷ []

abbrev pub delivered : Bool → List ElemP → List Event
delivered callback [] = []
delivered callback (none ∷ xs) = delivered callback xs
delivered callback (some a ∷ xs) = handed callback a ++ delivered callback xs

-- What the loop leaves when it ends by itself.
pub record Drained (callback : Bool) (q : AnyQueue) (o : Option (AnyQueue × List Event))
    : Type 0 where
  pub left : AnyQueue
  pub result : o ≡ some (left, delivered callback (front q))
  pub ahead : front left ≡ []
  pub behind : back left ≡ back q
  pub sound : IsSound left

sound-NonNull : (q : AnyQueue) → IsSound q → NonNull (front q)
sound-NonNull (cas q) s = s.non_null
sound-NonNull (mul q) s = s.1
sound-NonNull (gen q) s = s.non_null

pop_loop-none :
    (n : ℕ) (callback : Bool) (q : AnyQueue)
    → (Dispatch.pop q).1 ≡ none
    → pop_loop (suc n) callback q ≡ some ((Dispatch.pop q).0, [])
unfolding pop_loop
pop_loop-none n callback q e = rw (e, pop_loop)

run_msg_lem : (callback : Bool) (a : ℕ) → run_msg callback a ≡ handed callback a
unfolding run_msg
run_msg_lem true a = refl
run_msg_lem false a = refl

pop_loop-some :
    (n : ℕ) (callback : Bool) (q q' : AnyQueue) (a : ℕ) (es : List Event)
    → (Dispatch.pop q).1 ≡ some a
    → pop_loop n callback (Dispatch.pop q).0 ≡ some (q', es)
    → pop_loop (suc n) callback q ≡ some (q', handed callback a ++ es)
unfolding pop_loop
pop_loop-some n callback q q' a es e r = rw (e, pop_loop, r, run_msg_lem callback a)

Drained-step :
    (n : ℕ) (callback : Bool) (q : AnyQueue) (xs : List ElemP)
    → NonNull xs
    → front q ≡ xs
    → ◌≡◌ {A = List ElemP × ElemP} (front (Dispatch.pop q).0, (Dispatch.pop q).1) (dequeue xs)
    → back (Dispatch.pop q).0 ≡ back q
    → IsSound (Dispatch.pop q).0
    → (0 < length xs → Drained callback (Dispatch.pop q).0 (pop_loop n callback (Dispatch.pop q).0))
    → Drained callback q (pop_loop (suc n) callback q)
Drained-step n callback q [] nn f d k s ih = record {
  left = (Dispatch.pop q).0;
  result = rw f (pop_loop-none n callback q (ap (λ t. t.1) d));
  ahead = ap (λ t. t.0) d;
  behind = k;
  sound = s;
}
Drained-step n callback q (none ∷ xs) nn f d k s ih = absurd nn
Drained-step n callback q (some a ∷ xs) nn f d k s ih =
    let rest = ih (omega arith) in
    record {
      left = rest.left;
      result =
          rw (f, ← ap (λ t. t.0) d)
            (pop_loop-some n callback q rest.left a _ (ap (λ t. t.1) d) rest.result);
      ahead = rest.ahead;
      behind = rest.behind ∙ k;
      sound = rest.sound;
    }

length-front :
    (q' : AnyQueue) (x : ElemP) (xs : List ElemP)
    → ◌≡◌ {A = List ElemP × ElemP} (front q', x) (dequeue xs)
    → 0 < length xs
    → suc (length (front q')) ≡ length xs
length-front q' x [] d h = absurd (omega arith)
length-front q' x (y ∷ xs) d h = ap (λ t. suc (length t.0)) d

pub pop_loop-Drained :
    (n : ℕ) (callback : Bool) (q : AnyQueue)
    → IsSound q
    → length (front q) < n
    → Drained callback q (pop_loop n callback q)
pop_loop-Drained zero callback q s h = absurd (omega arith)
pop_loop-Drained (suc n) callback q s h =
    Drained-step n callback q (front q) (sound-NonNull q s) refl p.popped p.kept p.sound (λ more.
      pop_loop-Drained n callback r.0 p.sound
        (omega (arith, length-front r.0 r.1 (front q) p.popped more)))
  where
    r : AnyQueue × ElemP
    r = Dispatch.pop q

    p : Pops q r
    p = pop-Pops q s

-- A message queue between two calls of `Pop`.
pub record IsReady (m : MsgQueue) (q : AnyQueue) : Type 0 where
  pub holds : m.queue ≡ some q
  pub sound : IsSound q
  pub idle : IsIdle q

-- What `Pop` leaves.
pub record Emptied (m : MsgQueue) (q : AnyQueue) (o : Option (MsgQueue × List Event)) : Type 0 where
  pub left : AnyQueue
  pub result : o ≡ some (record m { queue = some left }, delivered m.has_callback (waiting q))
  pub empty : waiting left ≡ []
  pub sound : IsSound left
  pub idle : IsIdle left

IsIdle-of_front : (q : AnyQueue) → front q ≡ [] → IsIdle q
IsIdle-of_front (cas q) e = tt
IsIdle-of_front (mul q) e = e
IsIdle-of_front (gen q) e = tt

pop_lem :
    (rounds : ℕ) (m : MsgQueue) (q q' : AnyQueue) (es : List Event)
    → m.queue ≡ some q
    → pop_loop rounds m.has_callback (Dispatch.ser_pop q) ≡ some (q', es)
    → pop rounds m ≡ some (record m { queue = some q' }, es)
unfolding pop
pop_lem rounds m q q' es h e = rw (h, pop, e)

-- A call of `Pop` on a ready message queue of any class, with more rounds than messages waiting and
-- no push in between, ends: it hands each waiting message to the callback (if there is one) and
-- frees it, oldest first and once each, and leaves a ready queue with nothing waiting.
pub pop-Emptied :
    (rounds : ℕ) (m : MsgQueue) (q : AnyQueue)
    → IsReady m q
    → length (waiting q) < rounds
    → Emptied m q (pop rounds m)
pop-Emptied rounds m q v h = record {
  left = d.left;
  result =
      pop_lem rounds m q d.left _ v.holds d.result
      ∙ ap (λ xs. some (record m { queue = some d.left }, delivered m.has_callback xs)) w.ahead;
  empty = rw (d.ahead, d.behind, w.behind);
  sound = d.sound;
  idle = IsIdle-of_front d.left d.ahead;
}
  where
    w : Swaps q (Dispatch.ser_pop q)
    w = ser_pop-Swaps q v.sound v.idle

    d :
        Drained m.has_callback
          (Dispatch.ser_pop q)
          (pop_loop rounds m.has_callback (Dispatch.ser_pop q))
    d = pop_loop-Drained rounds m.has_callback _ w.sound (rw w.ahead h)
