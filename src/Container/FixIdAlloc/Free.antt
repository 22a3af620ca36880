-- ===== src/Container/FixIdAlloc/Free.antt =====
-- xrbase/container/fix_id_alloc.h: `free`.
use libev_test.Base.{
  occurs, ℕ, suc, ◌+◌, ◌-◌, ◌<◌, ◌≡◌, sym, ap, ◌∙◌, arith, true, false, ◌==◌, if◌then◌else◌, get_or,
  set, drop, ltb, leb, length-set, inl, inr, Bool-cases,
}
use mathlib.Core.Path.{subst}
use libev_test.Container.FixIdAlloc.{FixIdAlloc, free}
use libev_test.Container.FixIdAlloc.Slots.{drop-set_self, occurs-cons, trues-set_down, get_or-set}
use libev_test.Container.FixIdAlloc.Valid.{IsValid, held, bit, flagged_inside}

-- The id is no longer given out, and the others are as they were.
pub record IsFreed (a : FixIdAlloc) (id : ℕ) (a' : FixIdAlloc) : Type 0 where
  pub valid : IsValid a'
  pub held_after : (k : ℕ) → held a' k ≡ (if id == k then false else held a k)
  pub sized : a'.nalloc + bit (held a id) ≡ a.nalloc

give_back : FixIdAlloc → ℕ → FixIdAlloc
give_back a slot = record a {
  nalloc = a.nalloc - 1;
  freeids = set a.freeids (a.nalloc - 1) slot;
  flags = set a.flags slot false;
}

give_back-IsFreed :
    (a : FixIdAlloc) (slot : ℕ)
    → IsValid a
    → get_or a.flags slot false ≡ true
    → (0 < a.nalloc) × IsFreed a (slot + a.beginid) (give_back a slot)
unfolding give_back
give_back-IsFreed a slot v flagged =
    let inside = flagged_inside a slot v flagged in
    let some_given : 0 < a.nalloc = omega (arith, trues-set_down a.flags slot flagged, v.counted) in
    let last = a.nalloc - 1 in
    let front : (j : ℕ)
        → occurs j (drop last (set a.freeids last slot))
          ≡ bit (slot == j) + occurs j (drop a.nalloc a.freeids) =
      λ j.
        ap (occurs j)
          (drop-set_self a.freeids last slot (omega (arith, v.freeids_length, v.in_bounds)))
        ∙ occurs-cons j slot (drop (suc last) a.freeids)
        ∙ ap (λ n. bit (slot == j) + occurs j (drop n a.freeids)) {x = suc last} {y = a.nalloc}
            (omega arith) in
    let flag = λ (j : ℕ). get_or-set a.flags slot j false (omega (arith, v.flags_length)) in
    (
      some_given,
      record {
        valid = record {
          freeids_length = length-set a.freeids last slot ∙ v.freeids_length;
          flags_length = length-set a.flags slot false ∙ v.flags_length;
          in_bounds = omega (arith, v.in_bounds);
          counted = omega (arith, trues-set_down a.flags slot flagged, v.counted);
          once = λ j. ground (arith, v.once j, front j, flag j);
        };
        held_after = λ k. ground (arith, flag (k - a.beginid));
        sized = ground arith;
      },
    )

unchanged : (a : FixIdAlloc) (id : ℕ) → IsValid a → held a id ≡ false → IsFreed a id a
unchanged a id v h = record { valid = v; held_after = λ k. ground arith; sized = ground arith }

-- `free` of any number on a valid allocator leaves a valid one in which that id is not given out, and
-- every other id as it was; the count goes down by one exactly if the id was given out.
pub free-IsFreed : (a : FixIdAlloc) (id : ℕ) → IsValid a → IsFreed a id (free a id)
unfolding free give_back
free-IsFreed a id v = elim (Bool-cases (held a id)) [
  | inl h ↦
      let slot = id - a.beginid in
      let flagged : get_or a.flags slot false ≡ true = ground arith in
      let inside = flagged_inside a slot v flagged in
      let (given, freed) = give_back-IsFreed a slot v flagged in
      let e : slot + a.beginid ≡ id = ground arith in
      let t1 : ltb id a.beginid ≡ false = ground arith in
      let t2 : leb a.nall slot ≡ false = ground arith in
      let t3 : ltb 0 a.nalloc ≡ true = ground arith in
      simp (t1, t2, t3, flagged) (subst (λ k. IsFreed a k (give_back a slot)) e freed)
  | inr h ↦
      let same : free a id ≡ a = ground arith in
      subst (λ x. IsFreed a id x) (sym same) (unchanged a id v h)
]
