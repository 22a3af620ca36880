-- ===== src/Time/Wheel/Edit.antt =====
-- Filing a timer at the head or the tail of a list, and taking one out, keep the invariant.
use libev_test.Base.{
  erase, occurs, ℕ, ◌+◌, ◌<◌, ◌≡◌, inl, inr, refl, arith, Bool, true, false, List, [], ◌∷◌, ◌++◌,
  Option, none, some, ◌==◌, if◌then◌else◌, Bool-cases,
}
use libev_test.Time.Wheel.{TimerNode, TimerMgr, Callback, store, find_handle_list, file, drop_timer}
use libev_test.Time.Wheel.Place.{Windows, Fits}
use libev_test.Time.Wheel.Valid.{Placed, IsValid}

pub occurs-append : (m : ℕ) (xs ys : List ℕ) → occurs m (xs ++ ys) ≡ occurs m xs + occurs m ys
unfolding occurs
occurs-append m [] ys = omega arith
occurs-append m (x ∷ xs) ys = omega (arith, occurs-append m xs ys)

-- At either end.
pub occurs-insert :
    (to_head : Bool) (m mid : ℕ) (xs : List ℕ)
    → occurs m (if to_head then mid ∷ xs else xs ++ mid ∷ [])
      ≡ (if mid == m then 1 else 0) + occurs m xs
unfolding occurs
occurs-insert true m mid xs = refl
occurs-insert false m mid xs = omega (arith, occurs-append m xs (mid ∷ []))

pub occurs-erase :
    (m mid : ℕ) (xs : List ℕ)
    → 0 < occurs mid xs
    → occurs m (erase mid xs) + (if mid == m then 1 else 0) ≡ occurs m xs
unfolding occurs
occurs-erase m mid [] h = absurd (omega arith)
occurs-erase m mid (x ∷ xs) h = ground (arith, occurs-erase m mid xs)

pub store-Placed :
    (k : Windows) (nodes : ℕ → Option TimerNode) (mid : ℕ) (o : Option TimerNode) (m : ℕ)
    → Placed k o
    → Placed k (nodes m)
    → Placed k (store nodes mid o m)
store-Placed k nodes mid o m new old = elim (Bool-cases (mid == m)) [
  | inl e ↦ rw e new
  | inr e ↦ rw e old
]

module _ (k : Windows) (w : TimerMgr) (mid : ℕ) (node : TimerNode) where
  -- A node that is not listed yet.
  pub file-IsValid :
      (to_head : Bool)
      → IsValid k w
      → w.nodes mid ≡ none
      → 0 < mid
      → Fits k (find_handle_list w.cur_tick node.expires) node.expires
      → node.interval < 0x80000000
      → IsValid k (file to_head mid node w)
  unfolding file
  file-IsValid to_head v fresh pos fits small =
      let list = find_handle_list w.cur_tick node.expires in
      record {
        listed = λ m s.
            ground (arith, v.listed m s, v.listed mid s, occurs-insert to_head m mid (w.vec s));
        placed = λ m. store-Placed k w.nodes mid (some _) m (fits, small) (v.placed m);
        no_zero = ground (arith, v.no_zero);
      }

  pub drop_timer-IsValid :
      IsValid k w → w.nodes mid ≡ some node → IsValid k (drop_timer node.lst_offset mid w)
  unfolding drop_timer
  drop_timer-IsValid v here = record {
    listed = λ m s. ground (arith, v.listed m s, v.listed mid s, occurs-erase m mid (w.vec s));
    placed = λ m. store-Placed k w.nodes mid none m tt (v.placed m);
    no_zero = ground (arith, v.no_zero);
  }

-- A node that is written where it is: its list, its expiry and its interval stay.
pub rewrite-IsValid :
    (k : Windows) (w : TimerMgr) (mid : ℕ) (node new : TimerNode) (calls : List Callback)
    → IsValid k w
    → w.nodes mid ≡ some node
    → new.lst_offset ≡ node.lst_offset
    → new.expires ≡ node.expires
    → new.interval ≡ node.interval
    → IsValid k (record w { nodes = store w.nodes mid (some new); calls = calls })
rewrite-IsValid k w mid node new calls v here same_list same_due same_interval =
    let old : Placed k (some node) = rw here at (v.placed mid) in
    record {
      listed = λ m s. ground (arith, v.listed m s, v.listed mid s);
      placed = λ m.
          store-Placed k w.nodes mid (some new) m (rw (same_list, same_due, same_interval) old)
            (v.placed m);
      no_zero = ground (arith, v.no_zero);
    }
