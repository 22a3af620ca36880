-- ===== src/Net/MsgQueue/Push.antt =====
-- `MsgQueue::Push` stores each message once, however long it has to wait for room.
use libev_test.Base.{
  ℕ, suc, ◌≡◌, sym, ap, ◌∙◌, arith, Bool, true, false, List, [], ◌∷◌, ◌++◌, Option, some, length,
  ltb, ◌==◌, if◌then◌else◌, take, Bool-cases, inl, inr,
}
use mathlib.Core.Path.{subst}
use mathlib.Core.List.{append-nil, append_assoc}
use libev_test.Net.CirQueue.{ElemP, PushResult, full, first, more}
use libev_test.Net.CirQueue.Fifo.{enqueue}
use libev_test.Net.CirQueue.Valid.{NonNull, NonNull-append, contents, length-contents}
use libev_test.Net.CirQueue.Cas
use libev_test.Net.CirQueue.Cas.Refine as CasRefine
use libev_test.Net.CirQueue.Gen
use libev_test.Net.CirQueue.Gen.Refine as GenRefine
use libev_test.Net.CirQueue.Mul
use libev_test.Net.CirQueue.Mul.Valid.{inbox, push-IsValidMul}
use libev_test.Net.CirQueue.Mul.Refine.{push_boxes}
use libev_test.Net.MsgQueue.Dispatch
use libev_test.Net.MsgQueue.Dispatch.{AnyQueue, cas, mul, gen}
use libev_test.Net.MsgQueue.{MsgQueue, Event, woken, wake, push_retry, push}
use libev_test.Net.MsgQueue.Deliver.{waiting, IsSound}

-- The sequence to which a push appends, and the room that it has.
abbrev pub entry : AnyQueue → List ElemP
entry (cas q) = contents q
entry (mul q) = inbox q
entry (gen q) = contents q

abbrev pub capacity : AnyQueue → ℕ
capacity (cas q) = q.max_count
capacity (mul q) = q.max_count
capacity (gen q) = q.max_count

abbrev pub has_room : AnyQueue → Bool
has_room q = ltb (length (entry q)) (capacity q)

push-full : (q : AnyQueue) (a : ℕ) → has_room q ≡ false → Dispatch.push q (some a) ≡ (q, full)
unfolding Dispatch.push Cas.push Gen.push Mul.push
push-full (cas q) a e = ground (arith, length-contents q)
push-full (mul q) a e = ground (arith, length-contents q.base)
push-full (gen q) a e = ground (arith, length-contents q)

-- A push for which there is room.
pub record Stored (q : AnyQueue) (a : ℕ) (r : AnyQueue × PushResult) : Type 0 where
  pub answer : r.1 ≡ (if length (entry q) == 0 then first else more)
  pub waits : waiting r.0 ≡ waiting q ++ (some a ∷ [])
  pub sound : IsSound r.0

enqueue_room :
    (cap : ℕ) (xs : List ElemP) (x : ElemP)
    → ltb (length xs) cap ≡ true
    → enqueue cap xs x ≡ (xs ++ (x ∷ []), if length xs == 0 then first else more)
enqueue_room cap xs x e = rw e

push-Stored :
    (q : AnyQueue) (a : ℕ) → IsSound q → has_room q ≡ true → Stored q a (Dispatch.push q (some a))
unfolding Dispatch.push
push-Stored (cas q) a s e =
    let p = CasRefine.push_refines q a s ∙ enqueue_room q.max_count (contents q) (some a) e in
    record {
      answer = ap (λ t. t.1) p;
      waits = append-nil _ ∙ ap (λ t. t.0) p ∙ ap (λ t. t ++ (some a ∷ [])) (sym (append-nil _));
      sound = CasRefine.push-IsStored q a s;
    }
push-Stored (gen q) a s e =
    let p =
      GenRefine.push_refines q (some a) s.valid
      ∙ enqueue_room q.max_count (contents q) (some a) e in
    record {
      answer = ap (λ t. t.1) p;
      waits = append-nil _ ∙ ap (λ t. t.0) p ∙ ap (λ t. t ++ (some a ∷ [])) (sym (append-nil _));
      sound = record {
        valid = GenRefine.push-IsValid q (some a) s.valid;
        non_null = subst NonNull (sym (ap (λ t. t.0) p)) (NonNull-append (contents q) a s.non_null);
      };
    }
push-Stored (mul q) a s e =
    let (b, o, m) = push_boxes q (some a) s.0 in
    let p = b ∙ enqueue_room q.max_count (inbox q) (some a) e in
    record {
      answer = ap (λ t. t.1) p;
      waits = rw (o, ap (λ t. t.0) p, append_assoc);
      sound = (
        push-IsValidMul q (some a) s.0,
        subst NonNull (sym o) s.1,
        subst NonNull (sym (ap (λ t. t.0) p)) (NonNull-append (inbox q) a s.2),
      );
    }

-- The queue after the first sleeps, if no push of this call has succeeded.
abbrev pub after : List (AnyQueue → AnyQueue) → AnyQueue → AnyQueue
after [] q = q
after (sleep ∷ sleeps) q = after sleeps (sleep q)

-- Whatever the other threads do, they keep the queue sound.
abbrev pub KeepSound : List (AnyQueue → AnyQueue) → Type 0
KeepSound [] = Unit {0}
KeepSound (sleep ∷ sleeps) = ((q : AnyQueue) → IsSound q → IsSound (sleep q)) × KeepSound sleeps

-- The call has returned after `slept` sleeps: the message stands behind all that was waiting then,
-- and the receiver is woken exactly if nothing stood where the message was put.
pub record Enqueued (sleeps : List (AnyQueue → AnyQueue)) (m : MsgQueue) (q : AnyQueue) (msg : ℕ)
    (o : Option (MsgQueue × List Event)) : Type 0 where
  pub slept : ℕ
  pub left : AnyQueue
  pub result :
      o
      ≡ some (
        record m { queue = some left },
        if length (entry (after (take slept sleeps) q)) == 0 then woken ∷ [] else [],
      )
  pub waits : waiting left ≡ waiting (after (take slept sleeps) q) ++ (some msg ∷ [])
  pub sound : IsSound left

record Retried (sleeps : List (AnyQueue → AnyQueue)) (q : AnyQueue) (msg : ℕ)
    (o : Option (AnyQueue × PushResult)) : Type 0 where
  slept : ℕ
  left : AnyQueue
  result :
      o ≡ some (left, if length (entry (after (take slept sleeps) q)) == 0 then first else more)
  waits : waiting left ≡ waiting (after (take slept sleeps) q) ++ (some msg ∷ [])
  sound : IsSound left

retry_of_stored :
    (sleeps : List (AnyQueue → AnyQueue)) (q : AnyQueue) (r : PushResult) (msg : ℕ) (b : Bool)
    → r ≡ (if b then first else more)
    → push_retry sleeps q r msg ≡ some (q, if b then first else more)
unfolding push_retry
retry_of_stored sleeps q r msg true e = rw (e, push_retry)
retry_of_stored sleeps q r msg false e = rw (e, push_retry)

Retried-now :
    (sleeps : List (AnyQueue → AnyQueue)) (q : AnyQueue) (msg : ℕ)
    → IsSound q
    → has_room q ≡ true
    → Retried sleeps q msg
        (push_retry sleeps (Dispatch.push q (some msg)).0 (Dispatch.push q (some msg)).1 msg)
Retried-now sleeps q msg s e =
    let p = push-Stored q msg s e in
    record {
      slept = 0;
      left = (Dispatch.push q (some msg)).0;
      result = retry_of_stored sleeps _ _ msg (length (entry q) == 0) p.answer;
      waits = p.waits;
      sound = p.sound;
    }

Retried-later :
    (sleep : AnyQueue → AnyQueue) (sleeps : List (AnyQueue → AnyQueue)) (q : AnyQueue) (msg : ℕ)
    → has_room q ≡ false
    → Retried sleeps (sleep q) msg (
        push_retry sleeps
          (Dispatch.push (sleep q) (some msg)).0
          (Dispatch.push (sleep q) (some msg)).1
          msg)
    → Retried (sleep ∷ sleeps) q msg (
        push_retry
          (sleep ∷ sleeps)
          (Dispatch.push q (some msg)).0
          (Dispatch.push q (some msg)).1
          msg)
unfolding push_retry
Retried-later sleep sleeps q msg e r = rw (push-full q msg e) (record {
  slept = suc r.slept;
  left = r.left;
  result = r.result;
  waits = r.waits;
  sound = r.sound;
})

retry-Retried :
    (sleeps : List (AnyQueue → AnyQueue)) (q : AnyQueue) (msg : ℕ)
    → IsSound q
    → KeepSound sleeps
    → has_room (after sleeps q) ≡ true
    → Retried sleeps q msg
        (push_retry sleeps (Dispatch.push q (some msg)).0 (Dispatch.push q (some msg)).1 msg)
retry-Retried [] q msg s k room = Retried-now [] q msg s room
retry-Retried (sleep ∷ sleeps) q msg s k room = elim (Bool-cases (has_room q)) [
  | inl e ↦ Retried-now (sleep ∷ sleeps) q msg s e
  | inr e ↦
      Retried-later sleep sleeps q msg e (retry-Retried sleeps (sleep q) msg (k.0 q s) k.1 room)
]

push_lem :
    (sleeps : List (AnyQueue → AnyQueue)) (m : MsgQueue) (q q' : AnyQueue) (msg : ℕ) (b : Bool)
    → m.queue ≡ some q
    → push_retry sleeps (Dispatch.push q (some msg)).0 (Dispatch.push q (some msg)).1 msg
      ≡ some (q', if b then first else more)
    → push sleeps m msg ≡ some (record m { queue = some q' }, if b then woken ∷ [] else [])
unfolding push wake
push_lem sleeps m q q' msg true h e = rw (h, push, e)
push_lem sleeps m q q' msg false h e = rw (h, push, e)

-- If the other threads keep the queue sound and leave room in it by the end of the given sleeps,
-- `Push` returns after some of them: the message then stands once, behind all that was waiting at
-- that time, and the receiver is woken exactly if the part of the queue that takes pushes was empty.
pub push-Enqueued :
    (sleeps : List (AnyQueue → AnyQueue)) (m : MsgQueue) (q : AnyQueue) (msg : ℕ)
    → m.queue ≡ some q
    → IsSound q
    → KeepSound sleeps
    → has_room (after sleeps q) ≡ true
    → Enqueued sleeps m q msg (push sleeps m msg)
push-Enqueued sleeps m q msg h s k room =
    let r = retry-Retried sleeps q msg s k room in
    record {
      slept = r.slept;
      left = r.left;
      result = push_lem sleeps m q r.left msg _ h r.result;
      waits = r.waits;
      sound = r.sound;
    }
