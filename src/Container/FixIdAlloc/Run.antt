-- ===== src/Container/FixIdAlloc/Run.antt =====
-- xrbase/container/fix_id_alloc.h: whole histories of an allocator.
use libev_test.Base.{ℕ, ◌≡◌, sym, true, List, [], ◌∷◌, inl, inr}
use libev_test.Container.FixIdAlloc.{FixIdAlloc, init, alloc, free, can_used}
use libev_test.Container.FixIdAlloc.Valid.{IsValid, init-IsValid}
use libev_test.Container.FixIdAlloc.Alloc.{alloc_lem}
use libev_test.Container.FixIdAlloc.Free.{free-IsFreed}
use libev_test.Container.FixIdAlloc.Claim.{can_used-IsClaimed}
use mathlib.Core.Path.{subst}

-- A call that changes an allocator.
pub data Call : Type 0 where
  allocates : Call
  frees claims : ℕ → Call

unfoldable pub run : ℕ → List Call → FixIdAlloc → FixIdAlloc
run max_n [] a = a
run max_n (allocates ∷ cs) a = run max_n cs (alloc max_n a).0
run max_n (frees id ∷ cs) a = run max_n cs (free a id)
run max_n (claims id ∷ cs) a = run max_n cs (can_used a id).0

run-IsValid_from :
    (max_n : ℕ) (cs : List Call) (a : FixIdAlloc) → IsValid a → IsValid (run max_n cs a)
unfolding run
run-IsValid_from max_n [] a v = v
run-IsValid_from max_n (allocates ∷ cs) a v =
    run-IsValid_from max_n cs (alloc max_n a).0 (elim (alloc_lem max_n a v) [
      | inl fresh ↦ fresh.valid
      | inr none_left ↦ subst IsValid (sym none_left.unchanged) v
    ])
run-IsValid_from max_n (frees id ∷ cs) a v =
    run-IsValid_from max_n cs (free a id) (free-IsFreed a id v).valid
run-IsValid_from max_n (claims id ∷ cs) a v =
    run-IsValid_from max_n cs (can_used a id).0 (can_used-IsClaimed a id v).valid

-- After an `init` that answers true and every history of `alloc`, `free` and `can_used`, with any
-- numbers given back or claimed, each slot of the range is on the free list once or flagged as given
-- out, and as many are flagged as are counted.
pub run-IsValid :
    (max_n count beginid : ℕ) (a : FixIdAlloc) (cs : List Call)
    → (init max_n count beginid a).0 ≡ true
    → IsValid (run max_n cs (init max_n count beginid a).1)
run-IsValid max_n count beginid a cs h =
    run-IsValid_from max_n cs (init max_n count beginid a).1 (init-IsValid max_n count beginid a h)
