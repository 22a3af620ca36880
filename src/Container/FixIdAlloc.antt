-- ===== src/Container/FixIdAlloc.antt =====
-- xrbase/container/fix_id_alloc.h: identifiers from a fixed range, given out and taken back. The
-- template's type holds every number that occurs here; ids start at `beginid`.
pub mod Slots
pub mod Valid
pub mod Alloc
pub mod Free
pub mod Claim
pub mod Run
mod Tests
use libev_test.Base.{
  ℕ, zero, suc, ◌+◌, ◌-◌, Bool, true, false, not, ◌&&◌, ◌||◌, List, [], ◌∷◌, ltb, leb, ◌==◌,
  if◌then◌else◌, length, get_or, set, take, drop, replicate,
}

-- `_pfreeids`, `_nall`, `_nalloc`, `_pflags` and `_beginid`. The ids from `nalloc` on are free.
pub record FixIdAlloc : Type 0 where
  pub freeids : List ℕ
  pub nall : ℕ
  pub nalloc : ℕ
  pub flags : List Bool
  pub beginid : ℕ

-- The ids from a number on, as the loop of `init` stores them.
unfoldable pub count_up : ℕ → ℕ → List ℕ
count_up i zero = []
count_up i (suc n) = i ∷ count_up (i + 1) n

-- The template's `MAX_N`.
module _ (max_n : ℕ) where
  unfoldable pub init : ℕ → ℕ → FixIdAlloc → Bool × FixIdAlloc
  unfolding count_up
  init count beginid a =
      if count == 0 || (leb max_n count || leb max_n beginid) then (false, a) else (
        true,
        record {
          freeids = count_up 0 count;
          nall = count;
          nalloc = 0;
          flags = replicate count false;
          beginid = beginid;
        },
      )

  -- The answer is `max_n` if nothing is free.
  unfoldable pub alloc : FixIdAlloc → FixIdAlloc × ℕ
  alloc a =
      let id = get_or a.freeids a.nalloc 0 in
      if ltb a.nalloc a.nall
      then (record a { nalloc = a.nalloc + 1; flags = set a.flags id true }, id + a.beginid)
      else (a, max_n)

  pub is_valid : FixIdAlloc → ℕ → Bool
  is_valid a id = not (id == max_n || (ltb id a.beginid || leb a.nall (id - a.beginid)))

unfoldable pub release : FixIdAlloc → FixIdAlloc
release a = record a { freeids = []; nall = 0; nalloc = 0; flags = [] }

unfoldable pub full : FixIdAlloc → Bool
full a = a.nalloc == a.nall

unfoldable pub size : FixIdAlloc → ℕ
size a = a.nalloc

unfoldable pub free : FixIdAlloc → ℕ → FixIdAlloc
free a id =
    let slot = id - a.beginid in
    if ltb id a.beginid || leb a.nall slot
    then a
    else if ltb 0 a.nalloc && get_or a.flags slot false
    then record a {
      nalloc = a.nalloc - 1;
      freeids = set a.freeids (a.nalloc - 1) slot;
      flags = set a.flags slot false;
    }
    else a

-- `std::find`: the position of a value, or the length of the list.
unfoldable pub find : List ℕ → ℕ → ℕ
find [] id = 0
find (x ∷ xs) id = if x == id then 0 else suc (find xs id)

-- `std::swap` of two places of an array.
abbrev pub swap : List ℕ → ℕ → ℕ → List ℕ
swap xs i j = set (set xs i (get_or xs j 0)) j (get_or xs i 0)

-- `can_used`: takes the id if it is free, and answers whether the caller has it now.
unfoldable pub can_used : FixIdAlloc → ℕ → FixIdAlloc × Bool
unfolding find
can_used a id =
    let slot = id - a.beginid in
    let at = a.nalloc + find (take (a.nall - 1 - a.nalloc) (drop a.nalloc a.freeids)) slot in
    let taken = λ (ids : List ℕ). record a {
      freeids = ids;
      nalloc = a.nalloc + 1;
      flags = set a.flags slot true;
    } in
    if ltb id a.beginid || leb a.nall slot
    then (a, false)
    else if get_or a.flags slot false
    then (a, true)
    else if leb a.nall a.nalloc
    then (a, false)
    else if get_or a.freeids a.nalloc 0 == slot
    then (taken a.freeids, true)
    else if get_or a.freeids at 0 == slot
    then (taken (swap a.freeids a.nalloc at), true)
    else (a, false)
