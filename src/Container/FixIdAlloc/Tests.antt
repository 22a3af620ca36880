-- ===== src/Container/FixIdAlloc/Tests.antt =====
-- The theorems on the allocator at concrete inputs.
use libev_test.Base.{◌≡◌, ◌⊎◌, refl, List, [], ◌∷◌}
use libev_test.Container.FixIdAlloc.{FixIdAlloc, init, alloc, free, can_used}
use libev_test.Container.FixIdAlloc.Valid.{IsValid}
use libev_test.Container.FixIdAlloc.Alloc.{IsFresh, IsExhausted, alloc_lem}
use libev_test.Container.FixIdAlloc.Free.{IsFreed, free-IsFreed}
use libev_test.Container.FixIdAlloc.Claim.{IsClaimed, can_used-IsClaimed}
use libev_test.Container.FixIdAlloc.Run.{Call, allocates, frees, claims, run, run-IsValid}

abbrev none_yet : FixIdAlloc
none_yet = record { freeids = []; nall = 0; nalloc = 0; flags = []; beginid = 0 }

-- Three ids from 10 on: 10 and 12 are given out.
abbrev history : List Call
history = allocates ∷ claims 12 ∷ allocates ∷ frees 11 ∷ []

abbrev used : FixIdAlloc
used = run 1000 history (init 1000 3 10 none_yet).1

used-IsValid : IsValid used
unfolding init
used-IsValid = run-IsValid 1000 3 10 none_yet history refl

run-IsValid_example : IsValid (run 1000 history (init 1000 3 10 none_yet).1)
unfolding init
run-IsValid_example = run-IsValid 1000 3 10 none_yet history refl

alloc_lem_example :
    IsFresh used (alloc 1000 used).0 (alloc 1000 used).1
    ⊎ IsExhausted 1000 used (alloc 1000 used).0 (alloc 1000 used).1
alloc_lem_example = alloc_lem 1000 used used-IsValid

free-IsFreed_example : IsFreed used 12 (free used 12)
free-IsFreed_example = free-IsFreed used 12 used-IsValid

can_used-IsClaimed_example : IsClaimed used 11 (can_used used 11).0 (can_used used 11).1
can_used-IsClaimed_example = can_used-IsClaimed used 11 used-IsValid

alloc_again : (alloc 1000 used).1 ≡ 11
unfolding init alloc free can_used run
alloc_again = refl
