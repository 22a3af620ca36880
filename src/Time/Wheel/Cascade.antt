-- ===== src/Time/Wheel/Cascade.antt =====
-- A cascade empties one list of a wheel into the finer wheels and keeps the invariant.
pub mod Turn
pub mod Move
pub mod All
use libev_test.Base.{
  occurs, ℕ, suc, ◌+◌, ◌-◌, ◌*◌, ◌/◌, ◌%◌, ◌<◌, ◌≤◌, ◌≡◌, ◌≢◌, ◌⊎◌, inl, inr, refl, ap, sym, ◌∙◌,
  arith, Bool, true, false, List, [], ◌∷◌, ◌++◌, Option, none, some, ltb, ◌==◌, if◌then◌else◌,
  ==_iff, Bool-cases, Option-cases,
}
use libev_test.Time.Wheel.{TimerNode, TimerMgr, put, store, find_handle_list, file, refile, cascade}
use libev_test.Time.Wheel.Place.{Windows, Fits, Near, find_handle_list-Fits}
use libev_test.Time.Wheel.Valid.{filed, Placed, IsValid}
use libev_test.Time.Wheel.Edit.{occurs-insert, store-Placed}

-- `file` does not touch the clock or the trace.
pub refile-same :
    (ms : List ℕ) (w : TimerMgr)
    → ((refile ms w).cur_tick ≡ w.cur_tick) × ((refile ms w).calls ≡ w.calls)
unfolding refile file
refile-same [] w = (refl, refl)
refile-same (mid ∷ ms) w = elim (Option-cases (w.nodes mid)) [
  | inl e ↦ rw (e, refile) (refl, refl)
  | inr (node, e) ↦ rw (e, refile) (refile-same ms (file false mid node w))
]

-- The manager with the list `s` replaced.
abbrev pub with_list : ℕ → List ℕ → TimerMgr → TimerMgr
with_list s ms w = record w { vec = put w.vec s ms }

-- What the list `s` holds at tick `t` belongs into other lists.
abbrev pub IsDueElsewhere : Windows → ℕ → ℕ → Type 0
IsDueElsewhere k t s =
    (e : ℕ) → Fits k s e → Fits k (find_handle_list t e) e × (find_handle_list t e ≢ s)

module _ (k : Windows) (s t : ℕ) (moves : IsDueElsewhere k t s) where
  -- What stands at the head of the list is in use, and names the list.
  head_node :
      (mid : ℕ) (ms : List ℕ) (w : TimerMgr)
      → IsValid k (with_list s (mid ∷ ms) w)
      → (node : TimerNode) × (w.nodes mid ≡ some node)
        × (node.lst_offset ≡ s)
        × Placed k (some node)
  unfolding occurs
  head_node mid ms w v = elim (Option-cases (w.nodes mid)) [
    | inl e ↦ absurd (ground (arith, v.listed mid s))
    | inr (node, e) ↦ (node, e, ground (arith, v.listed mid s), rw e at (v.placed mid))
  ]

  step_IsValid :
      (mid : ℕ) (ms : List ℕ) (w : TimerMgr) (node : TimerNode)
      → w.cur_tick ≡ t
      → IsValid k (with_list s (mid ∷ ms) w)
      → w.nodes mid ≡ some node
      → node.lst_offset ≡ s
      → Placed k (some node)
      → IsValid k (with_list s ms (file false mid node w))
  unfolding file occurs
  step_IsValid mid ms w node now v here at p =
      let e = node.expires in
      let to = find_handle_list t e in
      let moved = moves e (rw (sym at) p.0) in
      rw now (record {
        listed = λ m l.
            ground
              (arith, moved.1, v.listed m l, v.listed mid l, occurs-insert false m mid (w.vec l));
        placed = λ m. store-Placed k w.nodes mid (some _) m (moved.0, p.1) (v.placed m);
        no_zero = ground (arith, v.no_zero);
      })

  pub refile-IsValid :
      (ms : List ℕ) (w : TimerMgr)
      → w.cur_tick ≡ t
      → IsValid k (with_list s ms w)
      → IsValid k (with_list s [] (refile ms w))
  unfolding refile file
  refile-IsValid [] w now v = v
  refile-IsValid (mid ∷ ms) w now v =
      let h = head_node mid ms w v in
      rw (h.1, refile)
        (refile-IsValid ms (file false mid h.0 w) now (step_IsValid mid ms w h.0 now v h.1 h.2 h.3))

  pub cascade-IsValid : (w : TimerMgr) → w.cur_tick ≡ t → IsValid k w → IsValid k (cascade s w)
  unfolding cascade
  cascade-IsValid w now v = refile-IsValid (w.vec s) w now (record {
    listed = λ m l. ground (arith, v.listed m l);
    placed = v.placed;
    no_zero = v.no_zero;
  })
