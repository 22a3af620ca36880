-- ===== src/Net/CirQueue/Valid.antt =====
-- The representation invariant of the circular queues and what their shared updates do to it.
use libev_test.Base.{
  ℕ, suc, ◌-◌, ◌≤◌, ◌<◌, ◌≡◌, ◌≢◌, refl, sym, ap, ◌∙◌, arith, List, [], ◌∷◌, ◌++◌, none, some, ◌==◌,
  if◌then◌else◌, length, length-set, length-replicate, set, get_or,
}
use libev_test.Net.CirQueue.{ElemP, CirQueue, first, more, allocated, store_tail, drop_head}
use libev_test.Net.CirQueue.Window.{
  slot, window, length-window, slot-lt, window-set, window-set-advance, window_of_ne_zero,
}

pub record IsValid (q : CirQueue) : Type 0 where
  pub storage : length q.elems ≡ q.max_count
  pub head_in : q.head < q.max_count
  pub count_in : q.cur_count ≤ q.max_count
  pub tail_at : q.tail ≡ slot q.max_count q.head q.cur_count

-- The pointers that a queue holds, oldest first.
abbrev pub contents : CirQueue → List ElemP
contents q = window q.elems q.max_count q.head q.cur_count

pub length-contents : (q : CirQueue) → length (contents q) ≡ q.cur_count
length-contents q = length-window q.elems q.max_count q.head q.cur_count

pub allocated-IsValid : (max : ℕ) → 0 < max → IsValid (allocated max)
allocated-IsValid max h = record {
  storage = length-replicate max none;
  head_in = h;
  count_in = omega arith;
  tail_at = ground arith;
}

pub tail-lt : (q : CirQueue) → IsValid q → q.tail < length q.elems
tail-lt q v =
    omega (arith, v.storage, v.tail_at, slot-lt q.max_count q.head q.cur_count v.head_in v.count_in)

pub store_tail-IsValid :
    (q : CirQueue) (x : ElemP) → IsValid q → q.cur_count < q.max_count → IsValid (store_tail q x).0
unfolding store_tail
store_tail-IsValid q x v h = record {
  storage = length-set q.elems q.tail x ∙ v.storage;
  head_in = v.head_in;
  count_in = omega arith;
  tail_at = ground (arith, v.tail_at, v.head_in);
}

pub contents-store_tail :
    (q : CirQueue) (x : ElemP)
    → IsValid q
    → q.cur_count < q.max_count
    → contents (store_tail q x).0 ≡ contents q ++ (x ∷ [])
unfolding store_tail
contents-store_tail q x v h =
    ap (window (set q.elems q.tail x) q.max_count q.head) {y = suc q.cur_count} (omega arith)
    ∙ window-set q.elems q.max_count q.head q.cur_count q.tail x v.storage v.head_in h v.tail_at

pub result-store_tail :
    (q : CirQueue) (x : ElemP)
    → (store_tail q x).1 ≡ (if length (contents q) == 0 then first else more)
unfolding store_tail
result-store_tail q x = ground (arith, length-contents q)

pub max_count-store_tail : (q : CirQueue) (x : ElemP) → (store_tail q x).0.max_count ≡ q.max_count
unfolding store_tail
max_count-store_tail q x = refl

pub drop_head-IsValid : (q : CirQueue) → IsValid q → q.cur_count ≢ 0 → IsValid (drop_head q)
unfolding drop_head
drop_head-IsValid q v h = record {
  storage = length-set q.elems q.head none ∙ v.storage;
  head_in = ground (arith, v.head_in);
  count_in = omega arith;
  tail_at = ground (arith, v.tail_at, v.head_in, v.count_in);
}

-- A queue that is not empty is its oldest pointer and what `drop_head` leaves.
pub contents-drop_head :
    (q : CirQueue)
    → IsValid q
    → q.cur_count ≢ 0
    → contents q ≡ get_or q.elems q.head none ∷ contents (drop_head q)
unfolding drop_head
contents-drop_head q v h =
    window_of_ne_zero q.elems q.max_count q.head q.cur_count h
    ∙ ap (λ t. get_or q.elems q.head none ∷ t)
        (sym (
          window-set-advance q.elems q.max_count q.head (q.cur_count - 1) none v.head_in
            (omega (arith, v.count_in))))

pub max_count-drop_head : (q : CirQueue) → (drop_head q).max_count ≡ q.max_count
unfolding drop_head
max_count-drop_head q = refl

-- Every pointer of a list is set.
abbrev pub NonNull : List ElemP → Type 0
NonNull [] = Unit {0}
NonNull (none ∷ xs) = ⊥
NonNull (some a ∷ xs) = NonNull xs

pub NonNull-append : (xs : List ElemP) (a : ℕ) → NonNull xs → NonNull (xs ++ (some a ∷ []))
NonNull-append [] a h = tt
NonNull-append (none ∷ xs) a h = absurd h
NonNull-append (some b ∷ xs) a h = NonNull-append xs a h

-- The queue's slots are consistent and hold no null pointer.
pub record IsStored (q : CirQueue) : Type 0 where
  pub valid : IsValid q
  pub non_null : NonNull (contents q)
