-- ===== src/Container/FixIdAlloc/Alloc.antt =====
-- xrbase/container/fix_id_alloc.h: `alloc`.
use libev_test.Base.{
  occurs, ℕ, suc, ◌+◌, ◌-◌, ◌<◌, ◌≡◌, refl, ap, ◌∙◌, arith, true, false, List, ◌==◌, if◌then◌else◌,
  length, get_or, set, drop, ltb, length-set, inl, inr, Bool-cases, ◌⊎◌,
}
use libev_test.Container.FixIdAlloc.{FixIdAlloc, alloc}
use libev_test.Container.FixIdAlloc.Slots.{
  drop-get_or, occurs-cons, occurs-past, trues-set_up, get_or-set,
}
use libev_test.Container.FixIdAlloc.Valid.{IsValid, held, in_range, bit, free_inside}

-- The id was free and is now given out, and nothing else has changed.
pub record IsFresh (a : FixIdAlloc) (a' : FixIdAlloc) (id : ℕ) : Type 0 where
  pub valid : IsValid a'
  pub ranged : in_range a id ≡ true
  pub free_before : held a id ≡ false
  pub held_after : (k : ℕ) → held a' k ≡ (if id == k then true else held a k)
  pub one_more : a'.nalloc ≡ a.nalloc + 1

-- No id of the range is left, and the answer is `max_n`.
pub record IsExhausted (max_n : ℕ) (a : FixIdAlloc) (a' : FixIdAlloc) (id : ℕ) : Type 0 where
  pub unchanged : a' ≡ a
  pub refused : id ≡ max_n
  pub all_held : (k : ℕ) → held a k ≡ in_range a k

-- Flagging a free slot that stands, in an array with the same free slots, at the end of the given ones.
pub take_slot :
    (a : FixIdAlloc) (ids : List ℕ) (slot : ℕ)
    → IsValid a
    → a.nalloc < a.nall
    → length ids ≡ a.nall
    → ((j : ℕ)
        → occurs j (drop a.nalloc a.freeids) ≡ bit (slot == j) + occurs j (drop (a.nalloc + 1) ids))
    → IsFresh a
        (record a { freeids = ids; nalloc = a.nalloc + 1; flags = set a.flags slot true })
        (slot + a.beginid)
take_slot a ids slot v room same_length counts =
    let (inside, was_free) = free_inside a slot v (ground (arith, counts slot)) in
    let flag = λ (j : ℕ). get_or-set a.flags slot j true (omega (arith, v.flags_length)) in
    record {
      valid = record {
        freeids_length = same_length;
        flags_length = length-set a.flags slot true ∙ v.flags_length;
        in_bounds = omega arith;
        counted =
            omega (
              arith,
              trues-set_up a.flags slot (omega (arith, v.flags_length)) was_free,
              v.counted,
            );
        once = λ j. ground (arith, v.once j, counts j, flag j, was_free);
      };
      ranged = ground arith;
      free_before = ground arith;
      held_after = λ k. ground (arith, flag (k - a.beginid));
      one_more = refl;
    }

pub free_front :
    (a : FixIdAlloc)
    → IsValid a
    → a.nalloc < a.nall
    → (j : ℕ)
    → occurs j (drop a.nalloc a.freeids)
      ≡ bit (get_or a.freeids a.nalloc 0 == j) + occurs j (drop (a.nalloc + 1) a.freeids)
free_front a v room j =
    let slot = get_or a.freeids a.nalloc 0 in
    ap (occurs j) (drop-get_or a.freeids a.nalloc (omega (arith, v.freeids_length)))
    ∙ occurs-cons j slot (drop (suc a.nalloc) a.freeids)
    ∙ ap (λ n. bit (slot == j) + occurs j (drop n a.freeids)) {x = suc a.nalloc} {y = a.nalloc + 1}
        (omega arith)

-- `alloc` on a valid allocator gives out an id of its range that nobody holds, and changes nothing
-- else; only when every id of the range is held does it answer `max_n`, and then nothing changes.
pub alloc_lem :
    (max_n : ℕ) (a : FixIdAlloc)
    → IsValid a
    → IsFresh a (alloc max_n a).0 (alloc max_n a).1
      ⊎ IsExhausted max_n a (alloc max_n a).0 (alloc max_n a).1
unfolding alloc
alloc_lem max_n a v = elim (Bool-cases (ltb a.nalloc a.nall)) [
  | inl room ↦ inl (
      simp room (
        take_slot a a.freeids (get_or a.freeids a.nalloc 0) v (ground arith) v.freeids_length
          (free_front a v (ground arith))))
  | inr filled ↦ inr (
      simp filled record {
        unchanged = refl;
        refused = refl;
        all_held = λ k. ground (
          arith,
          v.once (k - a.beginid),
          occurs-past (k - a.beginid) a.nalloc a.freeids (ground (arith, v.freeids_length)),
        );
      })
]
