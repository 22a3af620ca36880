-- ===== src/Container/FixIdAlloc/Valid.antt =====
-- xrbase/container/fix_id_alloc.h: the invariant of an allocator, and a new one.
use libev_test.Base.{
  occurs, ℕ, ◌+◌, ◌-◌, ◌≤◌, ◌<◌, ◌≡◌, arith, Bool, true, false, ◌&&◌, if◌then◌else◌, length, get_or,
  drop, replicate, ltb, leb, length-replicate, get_or-replicate,
}
use libev_test.Container.FixIdAlloc.{FixIdAlloc, init, count_up}
use libev_test.Container.FixIdAlloc.Slots.{trues, occurs-count_up, length-count_up, trues-replicate}

abbrev pub bit : Bool → ℕ
bit b = if b then 1 else 0

-- Each slot of the range is on the free list once or flagged, no other number is either, and as many
-- are flagged as are counted.
pub record IsValid (a : FixIdAlloc) : Type 0 where
  pub freeids_length : length a.freeids ≡ a.nall
  pub flags_length : length a.flags ≡ a.nall
  pub in_bounds : a.nalloc ≤ a.nall
  pub counted : trues a.flags ≡ a.nalloc
  pub once :
      (j : ℕ)
      → occurs j (drop a.nalloc a.freeids) + bit (get_or a.flags j false) ≡ bit (ltb j a.nall)

-- The ids of the allocator, and those that are given out.
abbrev pub in_range : FixIdAlloc → ℕ → Bool
in_range a id = leb a.beginid id && ltb id (a.beginid + a.nall)

abbrev pub held : FixIdAlloc → ℕ → Bool
held a id = leb a.beginid id && get_or a.flags (id - a.beginid) false

-- A slot that is flagged, or on the free list, is one of the range.
pub flagged_inside :
    (a : FixIdAlloc) (j : ℕ) → IsValid a → get_or a.flags j false ≡ true → j < a.nall
flagged_inside a j v h = ground (arith, v.once j)

pub free_inside :
    (a : FixIdAlloc) (j : ℕ)
    → IsValid a
    → 0 < occurs j (drop a.nalloc a.freeids)
    → (j < a.nall) × (get_or a.flags j false ≡ false)
free_inside a j v h = ground (arith, v.once j)

-- `init` that answers true makes a valid allocator with no id given out.
pub init-IsValid :
    (max_n count beginid : ℕ) (a : FixIdAlloc)
    → (init max_n count beginid a).0 ≡ true
    → IsValid (init max_n count beginid a).1
unfolding init
init-IsValid max_n count beginid a h =
    let new : FixIdAlloc = record {
      freeids = count_up 0 count;
      nall = count;
      nalloc = 0;
      flags = replicate count false;
      beginid = beginid;
    } in
    let v : IsValid new = record {
      freeids_length = length-count_up 0 count;
      flags_length = length-replicate count false;
      in_bounds = omega arith;
      counted = trues-replicate count;
      once = λ j. ground (arith, occurs-count_up j 0 count, get_or-replicate count j false);
    } in
    ground (arith, v)
