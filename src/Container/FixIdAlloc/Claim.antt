-- ===== src/Container/FixIdAlloc/Claim.antt =====
-- xrbase/container/fix_id_alloc.h: `can_used`.
use libev_test.Base.{
  occurs, ℕ, ◌+◌, ◌-◌, ◌<◌, ◌≡◌, ◌≢◌, sym, ap, ◌∙◌, arith, Bool, true, false, ◌==◌, if◌then◌else◌,
  length, get_or, set, take, drop, ltb, leb, length-set, length-drop, inl, inr, Bool-cases, ==_iff,
}
use mathlib.Core.Path.{subst}
use libev_test.Container.FixIdAlloc.{FixIdAlloc, can_used, find, swap}
use libev_test.Container.FixIdAlloc.Slots.{
  drop-set_add, drop-set_lt, get_or-drop, occurs-set, get_or-find, occurs-past,
}
use libev_test.Container.FixIdAlloc.Valid.{IsValid, held, in_range, bit}
use libev_test.Container.FixIdAlloc.Alloc.{IsFresh, take_slot, free_front}

-- The id is given out afterwards if it is one of the range, and the others are as they were.
pub record IsClaimed (a : FixIdAlloc) (id : ℕ) (a' : FixIdAlloc) (answer : Bool) : Type 0 where
  pub valid : IsValid a'
  pub answered : answer ≡ in_range a id
  pub held_after : (k : ℕ) → held a' k ≡ (if id == k then in_range a id else held a k)

-- Where the search for a free slot ends, if the slot is not the first free one.
record IsFound (a : FixIdAlloc) (slot at : ℕ) : Type 0 where
  inside : at < a.nall
  beyond : a.nalloc < at
  is_slot : get_or a.freeids at 0 ≡ slot

abbrev search_end : FixIdAlloc → ℕ → ℕ
search_end a slot = a.nalloc + find (take (a.nall - 1 - a.nalloc) (drop a.nalloc a.freeids)) slot

search_end-IsFound :
    (a : FixIdAlloc) (slot : ℕ)
    → IsValid a
    → a.nalloc < a.nall
    → 0 < occurs slot (drop a.nalloc a.freeids)
    → get_or a.freeids a.nalloc 0 ≢ slot
    → IsFound a slot (search_end a slot)
search_end-IsFound a slot v room there other =
    let xs = drop a.nalloc a.freeids in
    let k = find (take (a.nall - 1 - a.nalloc) xs) slot in
    let len : length xs ≡ a.nall - a.nalloc =
      omega (arith, length-drop a.nalloc a.freeids, v.freeids_length) in
    let cut : find (take (length xs - 1) xs) slot ≡ k =
      ap (λ n. find (take n xs) slot) {x = length xs - 1} {y = a.nall - 1 - a.nalloc}
        (omega (arith, len)) in
    let found = get_or-find slot xs there in
    let at_k : get_or a.freeids (a.nalloc + k) 0 ≡ slot =
      sym (get_or-drop a.freeids a.nalloc k) ∙ ap (λ n. get_or xs n 0) (sym cut) ∙ found.1 in
    record {
      inside = omega (arith, len, cut, found.0);
      beyond = elim (Bool-cases (k == 0)) [
        | inl e ↦ absurd (
            other (
              ap (λ n. get_or a.freeids n 0) {x = a.nalloc} {y = a.nalloc + k} (ground arith)
              ∙ at_k))
        | inr e ↦ ground arith
      ];
      is_slot = at_k;
    }

-- The swap brings the slot to the end of the given ones, and keeps the free ones.
swap-counts :
    (a : FixIdAlloc) (slot at : ℕ)
    → IsValid a
    → a.nalloc < a.nall
    → IsFound a slot at
    → (j : ℕ)
    → occurs j (drop a.nalloc a.freeids)
      ≡ bit (slot == j) + occurs j (drop (a.nalloc + 1) (swap a.freeids a.nalloc at))
swap-counts a slot at v room found j =
    let xs = a.freeids in
    let n = a.nalloc in
    let k = at - (n + 1) in
    let first = get_or xs n 0 in
    let moved = set xs n (get_or xs at 0) in
    let split : drop (n + 1) (swap xs n at) ≡ set (drop (n + 1) xs) k first =
      ap (λ p. drop (n + 1) (set moved p first)) {x = at} {y = n + 1 + k}
        (omega (arith, found.beyond))
      ∙ drop-set_add moved (n + 1) k first
      ∙ ap (λ ys. set ys k first) (drop-set_lt xs (n + 1) n (get_or xs at 0) (omega arith)) in
    let at_k : get_or (drop (n + 1) xs) k 0 ≡ slot =
      get_or-drop xs (n + 1) k
      ∙ ap (λ p. get_or xs p 0) {x = n + 1 + k} {y = at} (omega (arith, found.beyond))
      ∙ found.is_slot in
    let exchanged =
      occurs-set j (drop (n + 1) xs) k first
        (omega (arith, length-drop (n + 1) xs, v.freeids_length, found.inside, found.beyond)) in
    let same : bit (get_or (drop (n + 1) xs) k 0 == j) ≡ bit (slot == j) =
      ap (λ x. bit (x == j)) at_k in
    omega (arith, free_front a v room j, exchanged, same, ap (occurs j) split)

Fresh-IsClaimed :
    (a a' : FixIdAlloc) (id : ℕ)
    → in_range a id ≡ true
    → IsFresh a a' (id - a.beginid + a.beginid)
    → IsClaimed a id a' true
Fresh-IsClaimed a a' id ranged f =
    let same : id - a.beginid + a.beginid ≡ id = ground arith in
    let g = subst (λ k. IsFresh a a' k) same f in
    record {
      valid = g.valid;
      answered = sym ranged;
      held_after = λ k. g.held_after k ∙ ap (λ b. if id == k then b else held a k) (sym ranged);
    }

-- A slot that is not flagged is claimed, whichever place it has on the free list.
claim-free :
    (a : FixIdAlloc) (id : ℕ)
    → IsValid a
    → in_range a id ≡ true
    → get_or a.flags (id - a.beginid) false ≡ false
    → IsClaimed a id (can_used a id).0 (can_used a id).1
unfolding can_used
claim-free a id v ranged was_free =
    let slot = id - a.beginid in
    let there : 0 < occurs slot (drop a.nalloc a.freeids) = ground (arith, v.once slot) in
    let room : a.nalloc < a.nall = elim (Bool-cases (ltb a.nalloc a.nall)) [
      | inl e ↦ ground arith
      | inr e ↦ absurd (
          omega
            (arith, there, occurs-past slot a.nalloc a.freeids (ground (arith, v.freeids_length))))
    ] in
    let t1 : ltb id a.beginid ≡ false = ground arith in
    let t2 : leb a.nall slot ≡ false = ground arith in
    let t3 : leb a.nall a.nalloc ≡ false = ground arith in
    let at = search_end a slot in
    elim (Bool-cases (get_or a.freeids a.nalloc 0 == slot)) [
      | inl first ↦
          let front = λ (j : ℕ).
            free_front a v room j
            ∙ ap (λ x. bit (x == j) + occurs j (drop (a.nalloc + 1) a.freeids))
                ((==_iff _ _).0 first) in
          simp (t1, t2, was_free, t3, first)
            (Fresh-IsClaimed a _ id ranged
              (take_slot a a.freeids slot v room v.freeids_length front))
      | inr other ↦
          let found = search_end-IsFound a slot v room there (λ e. ground arith) in
          let t4 : (get_or a.freeids at 0 == slot) ≡ true = (==_iff _ _).1 found.is_slot in
          let swapped = swap a.freeids a.nalloc at in
          let same_length : length swapped ≡ a.nall =
            length-set (set a.freeids a.nalloc (get_or a.freeids at 0)) at
              (get_or a.freeids a.nalloc 0)
            ∙ length-set a.freeids a.nalloc (get_or a.freeids at 0)
            ∙ v.freeids_length in
          simp (t1, t2, was_free, t3, other, t4)
            (Fresh-IsClaimed a _ id ranged
              (take_slot a swapped slot v room same_length (swap-counts a slot at v room found)))
    ]

-- `can_used` of any number on a valid allocator answers whether it is an id of the range, and if so
-- that id is given out afterwards, taken from the free ones or held before; all others stay as they were.
pub can_used-IsClaimed :
    (a : FixIdAlloc) (id : ℕ) → IsValid a → IsClaimed a id (can_used a id).0 (can_used a id).1
unfolding can_used
can_used-IsClaimed a id v = elim (Bool-cases (in_range a id)) [
  | inl ranged ↦ elim (Bool-cases (get_or a.flags (id - a.beginid) false)) [
    | inl flagged ↦
        let same : can_used a id ≡ (a, true) = ground arith in
        subst (λ (r : FixIdAlloc × Bool). IsClaimed a id r.0 r.1) (sym same)
          (record { valid = v; answered = sym ranged; held_after = λ k. ground arith })
    | inr was_free ↦ claim-free a id v ranged was_free
  ]
  | inr outside ↦
      let same : can_used a id ≡ (a, false) = ground arith in
      subst (λ (r : FixIdAlloc × Bool). IsClaimed a id r.0 r.1) (sym same)
        (record {
          valid = v;
          answered = sym outside;
          held_after = λ k. ground (arith, v.once (id - a.beginid));
        })
]
