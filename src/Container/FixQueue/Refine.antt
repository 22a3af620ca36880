-- ===== src/Container/FixQueue/Refine.antt =====
-- fix_queue.h as a bounded first-in-first-out queue.
use libev_test.Base.{
  ℕ, zero, suc, ◌-◌, ◌<◌, ◌≤◌, ◌≡◌, refl, sym, ap, ◌∙◌, arith, Bool, true, false, List, [], ◌∷◌,
  ◌++◌, Option, none, some, ltb, leb, ◌==◌, if◌then◌else◌, get_or, get_elem?, length, ==_iff,
  Bool-cases, inl, inr, ltb→lt, ltb→le, leb→le,
}
use libev_test.Net.CirQueue.{ElemP}
use libev_test.Net.CirQueue.Window.{length-window, window_of_zero}
use libev_test.Container.FixQueue.{
  FixQueue, index, store, pop_front, push_back, emplace, front, back, at, empty, full, clear,
}
use libev_test.Container.FixQueue.Items.{
  IsValid, items, index_mod, get_elem?-window, store-items, pop_front-items,
}

-- The operations, and what they answer.
pub data Call : Type 0 where
  pushes : ElemP → Bool → Call
  emplaces : ElemP → Call
  pops clears reads_front reads_back : Call
  reads_at : ℕ → Call

pub data Answer : Type 0 where
  done : Bool → Answer
  value : Option ElemP → Answer

unfoldable pub call : ℕ → Call → FixQueue → Answer × FixQueue
call n (pushes t replace) q = let r = push_back n t replace q in (done r.0, r.1)
call n (emplaces t) q = let r = emplace n t q in (done r.0, r.1)
call n pops q = (done true, pop_front n q)
call n clears q = (done true, clear q)
call n reads_front q = (value (front n q), q)
call n reads_back q = (value (back n q), q)
call n (reads_at i) q = (value (at n q i), q)

-- The same on the list of the elements, the oldest first.
abbrev pub rest : List ElemP → List ElemP
rest [] = []
rest (x ∷ xs) = xs

unfoldable pub call_spec : ℕ → Call → List ElemP → Answer × List ElemP
call_spec n (pushes t replace) xs =
    if ltb (length xs) n
    then (done true, xs ++ t ∷ [])
    else if replace
    then (done true, rest xs ++ t ∷ [])
    else (done false, xs)
call_spec n (emplaces t) xs =
    if ltb (length xs) n then (done true, xs ++ t ∷ []) else (done false, xs)
call_spec n pops xs = (done true, rest xs)
call_spec n clears xs = (done true, [])
call_spec n reads_front xs = (value (get_elem? xs 0), xs)
call_spec n reads_back xs = (value (get_elem? xs (length xs - 1)), xs)
call_spec n (reads_at i) xs = (value (get_elem? xs i), xs)

unfoldable pub run : ℕ → List Call → FixQueue → List Answer
run n [] q = []
run n (c ∷ cs) q = let r = call n c q in r.0 ∷ run n cs r.1

unfoldable pub run_spec : ℕ → List Call → List ElemP → List Answer
run_spec n [] xs = []
run_spec n (c ∷ cs) xs = let r = call_spec n c xs in r.0 ∷ run_spec n cs r.1

-- One call answers and changes the contents as the list does.
abbrev Refines : ℕ → Call → FixQueue → Type 0
Refines n c q =
    ((call n c q).0 ≡ (call_spec n c (items n q)).0)
    × (items n (call n c q).1 ≡ (call_spec n c (items n q)).1)
    × IsValid n (call n c q).1

get_elem?-length : (xs : List ElemP) (i : ℕ) → length xs ≤ i → get_elem? xs i ≡ none
get_elem?-length [] i h = refl
get_elem?-length (x ∷ xs) zero h = absurd (omega arith)
get_elem?-length (x ∷ xs) (suc i) h = get_elem?-length xs i (omega arith)

module _ (n : ℕ) (q : FixQueue) (v : IsValid n q) where
  length-items : length (items n q) ≡ q.used_count
  length-items = length-window q.memory n q.bottom q.used_count

  pop_front-rest : (items n (pop_front n q) ≡ rest (items n q)) × IsValid n (pop_front n q)
  unfolding pop_front empty
  pop_front-rest = elim (Bool-cases (q.used_count == 0)) [
    | inl e ↦
        let nil = window_of_zero q.memory n q.bottom q.used_count ((==_iff q.used_count 0).0 e) in
        rw (e, if◌then◌else◌) (nil ∙ sym (ap rest nil), v)
    | inr e ↦ let p = pop_front-items n q v (ground arith) in (rw p.0 refl, p.1)
  ]

  at_elem : (i : ℕ) → at n q i ≡ get_elem? (items n q) i
  unfolding at index
  at_elem i = elim (Bool-cases (ltb i q.used_count)) [
    | inl e ↦
        rw (e, index_mod n q.bottom i v.inside (omega (arith, v.bounded, ltb→lt i q.used_count e)))
          (sym (
            get_elem?-window q.memory n q.bottom q.used_count i v.inside v.bounded
              (ltb→lt i q.used_count e)))
    | inr e ↦ rw e (
        sym (get_elem?-length (items n q) i (omega (arith, length-items, ltb→le i q.used_count e))))
  ]

  store-Refines :
      (t : ElemP)
      → q.used_count < n
      → (items n (store n q t) ≡ items n q ++ t ∷ []) × IsValid n (store n q t)
  store-Refines t room = store-items n q v t room

  -- A full queue of one slot or more has room for an element when its oldest is gone.
  replace-items :
      (t : ElemP)
      → n ≤ q.used_count
      → (items n (store n (pop_front n q) t) ≡ rest (items n q) ++ t ∷ [])
        × IsValid n (store n (pop_front n q) t)
  replace-items t no_room =
      let pos : 0 < q.used_count = omega (arith, v.inside) in
      let p = pop_front-items n q v pos in
      let s = store-items n (pop_front n q) p.1 t (omega (arith, p.2, v.bounded)) in
      (s.0 ∙ rw p.0 refl, s.1)

  push_back-Refines : (t : ElemP) (replace : Bool) → Refines n (pushes t replace) q
  unfolding call call_spec push_back full
  push_back-Refines t replace = elim (Bool-cases (leb n q.used_count)) [
    | inr room ↦
        let s = store-items n q v t (ground arith) in
        rw (room, length-items)
          (let e : ltb q.used_count n ≡ true = ground arith in rw e (refl, s.0, s.1))
    | inl filled ↦
        let e : ltb q.used_count n ≡ false = ground arith in
        let r = replace-items t (leb→le n q.used_count filled) in
        elim (Bool-cases replace) [
          | inl yes_replace ↦ rw (filled, length-items, e, yes_replace) (refl, r.0, r.1)
          | inr no_replace ↦ rw (filled, length-items, e, no_replace) (refl, refl, v)
        ]
  ]

  emplace-Refines : (t : ElemP) → Refines n (emplaces t) q
  unfolding call call_spec emplace full
  emplace-Refines t = elim (Bool-cases (leb n q.used_count)) [
    | inr room ↦
        let s = store-items n q v t (ground arith) in
        let e : ltb q.used_count n ≡ true = ground arith in
        rw (room, length-items, e) (refl, s.0, s.1)
    | inl filled ↦
        let e : ltb q.used_count n ≡ false = ground arith in
        rw (filled, length-items, e) (refl, refl, v)
  ]

  front_elem : front n q ≡ get_elem? (items n q) 0
  unfolding front empty
  front_elem = elim (Bool-cases (q.used_count == 0)) [
    | inl e ↦
        let nil = window_of_zero q.memory n q.bottom q.used_count ((==_iff q.used_count 0).0 e) in
        rw (e, nil) refl
    | inr e ↦ rw (e, (pop_front-items n q v (ground arith)).0) refl
  ]

  back_elem : back n q ≡ get_elem? (items n q) (length (items n q) - 1)
  unfolding back empty at index
  back_elem = elim (Bool-cases (q.used_count == 0)) [
    | inl e ↦
        let nil = window_of_zero q.memory n q.bottom q.used_count ((==_iff q.used_count 0).0 e) in
        rw (e, nil) refl
    | inr e ↦
        let last = q.used_count - 1 in
        let inside : ltb last q.used_count ≡ true = ground arith in
        let same : some (get_or q.memory (index n q last) none) ≡ at n q last = rw inside refl in
        rw (e, length-items) (same ∙ at_elem last)
  ]

  clear-Refines : Refines n clears q
  unfolding call call_spec clear
  clear-Refines = (
    refl,
    refl,
    record { sized = v.sized; inside = omega (arith, v.inside); bounded = omega arith },
  )

  call-Refines : (c : Call) → Refines n c q
  unfolding call call_spec
  call-Refines (pushes t replace) = push_back-Refines t replace
  call-Refines (emplaces t) = emplace-Refines t
  call-Refines pops = (refl, pop_front-rest.0, pop_front-rest.1)
  call-Refines clears = clear-Refines
  call-Refines reads_front = (ap value front_elem, refl, v)
  call-Refines reads_back = (ap value back_elem, refl, v)
  call-Refines (reads_at i) = (ap value (at_elem i), refl, v)

run_refines_from :
    (n : ℕ) (cs : List Call) (q : FixQueue) → IsValid n q → run n cs q ≡ run_spec n cs (items n q)
unfolding run run_spec
run_refines_from n [] q v = refl
run_refines_from n (c ∷ cs) q v =
    let r = call-Refines n q v c in
    rw r.0 (
      ap (◌∷◌ (call_spec n c (items n q)).0)
        (run_refines_from n cs (call n c q).1 r.2 ∙ ap (run_spec n cs) r.1))

-- For every capacity of one or more, a fix_queue that is new answers every sequence of `push_back`
-- (replacing or not), `emplace`, `pop_front`, `clear`, `front`, `back` and `at` as the list of its
-- elements does, the oldest first: what is pushed goes behind the last element if there are fewer than
-- the capacity, and else is refused, or takes the place of the oldest.
pub run_queue_refines :
    (n : ℕ) (memory : List ElemP) (cs : List Call)
    → 0 < n
    → length memory ≡ n
    → run n cs (record { used_count = 0; bottom = 0; memory = memory }) ≡ run_spec n cs []
run_queue_refines n memory cs pos sized =
    run_refines_from n cs (record { used_count = 0; bottom = 0; memory = memory })
      (record { sized = sized; inside = pos; bounded = omega arith })
