-- ===== src/Time/Wheel/Due.antt =====
-- A timer that waits for a tick is called when the main loop passes it.
pub mod Round
pub mod Loop
use libev_test.Base.{
  ℕ, zero, suc, ◌+◌, ◌/◌, ◌%◌, ◌<◌, ◌≤◌, ◌≡◌, ◌≢◌, ◌⊎◌, inl, inr, refl, sym, ap, ◌∙◌, arith, Bool,
  true, false, not, ◌&&◌, List, [], ◌∷◌, ◌++◌, Option, none, some, ltb, leb, ◌==◌, if◌then◌else◌,
  ==_iff, Bool-cases, Option-cases, List-cases,
}
use libev_test.Time.Wheel.{
  TimerNode, TimerMgr, NodePool, Request, Script, finish, add_timer, del_timer, store, file,
  drop_timer, add, Callback, spent, refile, cascade, cascades, new_node,
}
use libev_test.Time.Wheel.Place.{Windows, Fits}
use libev_test.Time.Wheel.Valid.{Placed, IsValid, IsSmall, Allowed, Anything, at_tick, head_in_use}
use libev_test.Time.Wheel.Run.{
  call_back, renew, fire_one, run_list, internal_run_timer, main_loop, run_script, del, del_node,
}
use libev_test.Time.Wheel.Fire.{IsOngoing, IsPending, add-IsAdded, run_script_inv}
use libev_test.Time.Wheel.Ready.{IsMid, IsReady, ArePunctual}
use libev_test.Time.Wheel.Tick.{
  call_back-IsOngoing, fire_one-IsMid, renew-IsValid, internal_run_timer-IsMid, main_loop-IsReady,
}
use libev_test.Time.Wheel.Cascade.All.{cascades-same}

-- A callback of the timer, for an expiry.
abbrev pub WasCalled : ℕ → ℕ → List Callback → Type 0
WasCalled m due [] = ⊥
WasCalled m due (call ∷ calls) =
    ((call.mid ≡ m) × (call.due ≡ due) × (call.tick ≡ due)) ⊎ WasCalled m due calls

pub WasCalled-append_old :
    (m due : ℕ) (calls : List Callback) (call : Callback)
    → WasCalled m due calls
    → WasCalled m due (calls ++ call ∷ [])
WasCalled-append_old m due [] call c = elim c [ ]
WasCalled-append_old m due (x ∷ calls) call c = elim c [
  | inl h ↦ inl h
  | inr h ↦ inr (WasCalled-append_old m due calls call h)
]

pub WasCalled-append_new :
    (m due : ℕ) (calls : List Callback) (call : Callback)
    → (call.mid ≡ m) × (call.due ≡ due) × (call.tick ≡ due)
    → WasCalled m due (calls ++ call ∷ [])
WasCalled-append_new m due [] call h = inl h
WasCalled-append_new m due (x ∷ calls) call h = inr (WasCalled-append_new m due calls call h)

pub IsPending-store :
    (due m : ℕ) (nodes : ℕ → Option TimerNode) (mid : ℕ) (o : Option TimerNode)
    → mid ≢ m
    → IsPending due (nodes m)
    → IsPending due (store nodes mid o m)
IsPending-store due m nodes mid o ne p = elim (Bool-cases (mid == m)) [
  | inl e ↦ absurd (ne ((==_iff mid m).0 e))
  | inr e ↦ rw e p
]

free_ne_pending :
    (due m : ℕ) (nodes : ℕ → Option TimerNode) (mid : ℕ)
    → nodes mid ≡ none
    → IsPending due (nodes m)
    → mid ≢ m
free_ne_pending due m nodes mid free p same = rw (sym same, free) at p

module _ (due m : ℕ) where
  -- A cascade writes a node again as it was, but for its list.
  refile-IsPending :
      (mids : List ℕ) (w : TimerMgr)
      → IsPending due (w.nodes m)
      → IsPending due ((refile mids w).nodes m)
  unfolding refile file
  refile-IsPending [] w p = p
  refile-IsPending (mid ∷ mids) w p = elim (Option-cases (w.nodes mid)) [
    | inl e ↦ rw (e, refile) p
    | inr (node, e) ↦
        rw (e, refile)
          (refile-IsPending mids (file false mid node w) (elim (Bool-cases (mid == m)) [
            | inl same ↦
                let old : IsPending due (some node) = rw (sym ((==_iff mid m).0 same), e) at p in
                rw same old
            | inr other ↦ rw other p
          ]))
  ]

  cascade-IsPending :
      (s : ℕ) (w : TimerMgr) → IsPending due (w.nodes m) → IsPending due ((cascade s w).nodes m)
  unfolding cascade
  cascade-IsPending s w p = refile-IsPending (w.vec s) w p

  pub cascades-IsPending :
      (w : TimerMgr) → IsPending due (w.nodes m) → IsPending due ((cascades w).nodes m)
  unfolding cascades
  cascades-IsPending w p =
      let t = w.cur_tick in
      let w2 = cascade (256 + (t / 256) % 64) w in
      let w3 = cascade (320 + (t / 16384) % 64) w2 in
      let w4 = cascade (384 + (t / 1048576) % 64) w3 in
      let p2 = cascade-IsPending (256 + (t / 256) % 64) w p in
      let p3 = cascade-IsPending (320 + (t / 16384) % 64) w2 p2 in
      let p4 = cascade-IsPending (384 + (t / 1048576) % 64) w3 p3 in
      let p5 = cascade-IsPending (448 + (t / 67108864) % 64) w4 p4 in ground arith

  pub add-IsPending :
      (pool : NodePool) (r : Request) (to_head : Bool) (w : TimerMgr)
      → IsPending due (w.nodes m)
      → IsPending due ((add pool r to_head w).1.nodes m)
  unfolding file
  add-IsPending pool r to_head w p = elim (add-IsAdded pool r to_head w) [
    | inl same ↦ rw same p
    | inr (mid, free, pos, made) ↦
        rw made (IsPending-store due m w.nodes mid _ (free_ne_pending due m w.nodes mid free p) p)
  ]

  pub del-IsPending :
      (mid : ℕ) (w : TimerMgr)
      → mid ≢ m
      → IsPending due (w.nodes m)
      → IsPending due ((del mid w).1.nodes m)
  unfolding del del_node drop_timer
  del-IsPending mid w ne p = elim (Bool-cases (mid == 0)) [
    | inl e ↦ rw e p
    | inr e ↦ elim (Option-cases (w.nodes mid)) [
      | inl none_here ↦ rw (e, none_here) p
      | inr (node, here) ↦ elim (Bool-cases node.is_running) [
        | inl r ↦ rw (e, here, r) (IsPending-store due m w.nodes mid _ ne p)
        | inr r ↦ rw (e, here, r) (IsPending-store due m w.nodes mid _ ne p)
      ]
    ]
  ]
