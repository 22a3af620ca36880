-- ===== src/Time/Wheel/Fire.antt =====
-- What callbacks do to the wheel: `add` and `del` keep the invariant and the timer that is running.
use libev_test.Base.{
  ℕ, ◌+◌, ◌%◌, ◌<◌, ◌≡◌, ◌≢◌, ◌⊎◌, inl, inr, refl, sym, ◌∙◌, arith, Bool, true, false, ◌&&◌, List,
  Option, none, some, ltb, leb, ◌==◌, if◌then◌else◌, ==_iff, Bool-cases, Option-cases, length,
}
use libev_test.Time.Wheel.{
  TimerNode, TimerMgr, NodePool, Request, Script, finish, add_timer, del_timer, store, file,
  drop_timer, add, new_node, Callback,
}
use libev_test.Time.Wheel.Place.{Windows, Near, find_handle_list-Fits}
use libev_test.Time.Wheel.Valid.{IsValid, IsSmall, Allowed, Anything}
use libev_test.Time.Wheel.Edit.{file-IsValid, rewrite-IsValid, drop_timer-IsValid}
use libev_test.Time.Wheel.Run.{del_node, del, run_script}

-- A new timer goes to a node that was free, or nothing changes.
abbrev pub IsAdded : Request → Bool → TimerMgr → TimerMgr → Type 0
IsAdded r to_head w w' =
    (w' ≡ w)
    ⊎ ((mid : ℕ) × (w.nodes mid ≡ none)
        × (0 < mid)
        × (w' ≡ file to_head mid (new_node w.cur_tick r) w))

pub add-IsAdded :
    (pool : NodePool) (r : Request) (to_head : Bool) (w : TimerMgr)
    → IsAdded r to_head w (add pool r to_head w).1
unfolding add
add-IsAdded pool r to_head w = elim (Option-cases (pool.alloc w.nodes)) [
  | inl e ↦ inl (rw e (ground arith))
  | inr (mid, e) ↦
      let fresh = pool.alloc_fresh w.nodes mid e in
      elim (Bool-cases (leb (length r.bytes % 0x100000000) 256)) [
        | inr b ↦ inl (rw b refl)
        | inl b ↦ elim (Bool-cases (ltb 0 r.timer_type && ltb r.timer_type 1023)) [
          | inr c ↦ inl (rw (b, c) refl)
          | inl c ↦ elim (Bool-cases (r.interval == 0 && r.num == 0)) [
            | inl d ↦ inl (rw (b, c, d) refl)
            | inr d ↦ elim (Bool-cases (w.timeout_funcs r.timer_type)) [
              | inr f ↦ inl (rw (b, c, d, f) refl)
              | inl f ↦ inr (mid, fresh.0, fresh.1, rw (b, c, d, f, e) refl)
            ]
          ]
        ]
      ]
]

-- The timer `mid` is in its callback, in the list `list`.
abbrev pub IsRunning : ℕ → ℕ → Option TimerNode → Type 0
IsRunning mid list none = ⊥
IsRunning mid list (some node) = (node.is_running ≡ true) × (node.lst_offset ≡ list)

-- The timer waits for tick `due`.
abbrev pub IsPending : ℕ → Option TimerNode → Type 0
IsPending due none = ⊥
IsPending due (some node) = (node.is_running ≡ false) × (node.expires ≡ due)

-- What `add` and `del` keep, a script keeps.
pub run_script_inv :
    (pool : NodePool) (P : TimerMgr → Type 0) (MayAdd : Request → Type 0) (MayDel : ℕ → Type 0)
    → ((r : Request) (to_head : Bool) (w : TimerMgr) → MayAdd r → P w → P (add pool r to_head w).1)
    → ((mid : ℕ) (w : TimerMgr) → MayDel mid → P w → P (del mid w).1)
    → (script : Script) (w : TimerMgr) → Allowed MayAdd MayDel script
    → P w
    → P (run_script pool script w)
unfolding run_script
run_script_inv pool P MayAdd MayDel adds dels finish w ok p = p
run_script_inv pool P MayAdd MayDel adds dels (add_timer r to_head next) w ok p =
    let added = add pool r to_head w in
    run_script_inv pool P MayAdd MayDel adds dels (next added.0) added.1 (ok.1 added.0)
      (adds r to_head w ok.0 p)
run_script_inv pool P MayAdd MayDel adds dels (del_timer mid next) w ok p =
    let deleted = del mid w in
    run_script_inv pool P MayAdd MayDel adds dels (next deleted.0) deleted.1 (ok.1 deleted.0)
      (dels mid w ok.0 p)

-- While a callback runs: the invariant, the tick, the trace, and the timer that is running.
pub record IsOngoing (k : Windows) (t mid list : ℕ) (calls : List Callback) (w : TimerMgr)
    : Type 0 where
  pub valid : IsValid k w
  pub clock : w.cur_tick ≡ t
  pub trace : w.calls ≡ calls
  pub running : IsRunning mid list (w.nodes mid)

IsRunning-store :
    (nodes : ℕ → Option TimerNode) (mid list m : ℕ) (o : Option TimerNode)
    → m ≢ mid
    → IsRunning mid list (nodes mid)
    → IsRunning mid list (store nodes m o mid)
IsRunning-store nodes mid list m o ne r = elim (Bool-cases (m == mid)) [
  | inl e ↦ absurd (ne ((==_iff m mid).0 e))
  | inr e ↦ rw e r
]

pub free_ne_running :
    (nodes : ℕ → Option TimerNode) (mid list m : ℕ)
    → nodes m ≡ none
    → IsRunning mid list (nodes mid)
    → m ≢ mid
free_ne_running nodes mid list m free r same = rw (sym same, free) at r

pub idle_ne_running :
    (mid list : ℕ) (nodes : ℕ → Option TimerNode) (m : ℕ) (node : TimerNode)
    → nodes m ≡ some node
    → node.is_running ≡ false
    → IsRunning mid list (nodes mid)
    → m ≢ mid
idle_ne_running mid list nodes m node here idle r same =
    let runs : IsRunning mid list (some node) = rw (sym same, here) at r in cc

-- A running timer that is written again in its list.
pub marked_runs :
    (mid list m : ℕ) (node new : TimerNode) (nodes : ℕ → Option TimerNode)
    → nodes m ≡ some node
    → new.is_running ≡ true
    → new.lst_offset ≡ node.lst_offset
    → IsRunning mid list (nodes mid)
    → IsRunning mid list (store nodes m (some new) mid)
marked_runs mid list m node new nodes here e same_list r = elim (Bool-cases (m == mid)) [
  | inl same ↦
      let old : IsRunning mid list (some node) = rw (sym ((==_iff m mid).0 same), here) at r in
      rw same (e, same_list ∙ old.1)
  | inr other ↦ rw other r
]

module _ (pool : NodePool) (k : Windows) (t mid list : ℕ) (calls : List Callback) (near : Near t k)
    (small : t < 0x8000000000000000) where
  pub add-IsOngoing :
      (r : Request) (to_head : Bool) (w : TimerMgr)
      → IsSmall r
      → IsOngoing k t mid list calls w
      → IsOngoing k t mid list calls (add pool r to_head w).1
  unfolding file
  add-IsOngoing r to_head w ok o = elim (add-IsAdded pool r to_head w) [
    | inl same ↦ rw same o
    | inr (m, free, pos, made) ↦ rw made (record {
      valid =
          file-IsValid k w m (new_node w.cur_tick r) to_head o.valid free pos
            (rw o.clock (
              find_handle_list-Fits t ((t + r.first) % 0x10000000000000000) (omega arith)
                (omega arith) small k near))
            ok.1;
      clock = o.clock;
      trace = o.trace;
      running =
          IsRunning-store w.nodes mid list m (some _)
            (free_ne_running w.nodes mid list m free o.running) o.running;
    })
  ]

  pub del_node-IsOngoing :
      (m : ℕ) (node : TimerNode) (w : TimerMgr)
      → w.nodes m ≡ some node
      → IsOngoing k t mid list calls w
      → IsOngoing k t mid list calls (del_node m node w)
  unfolding del_node drop_timer
  del_node-IsOngoing m node w here o = elim (Bool-cases node.is_running) [
    | inl e ↦
        rw (e, if◌then◌else◌)
          (record {
            valid = rewrite-IsValid k w m node _ w.calls o.valid here refl refl refl;
            clock = o.clock;
            trace = o.trace;
            running = marked_runs mid list m node _ w.nodes here refl refl o.running;
          })
    | inr e ↦
        rw (e, if◌then◌else◌)
          (record {
            valid = drop_timer-IsValid k w m node o.valid here;
            clock = o.clock;
            trace = o.trace;
            running =
                IsRunning-store w.nodes mid list m none
                  (idle_ne_running mid list w.nodes m node here e o.running) o.running;
          })
  ]

  pub del-IsOngoing :
      (m : ℕ) (w : TimerMgr)
      → IsOngoing k t mid list calls w
      → IsOngoing k t mid list calls (del m w).1
  unfolding del
  del-IsOngoing m w o = elim (Bool-cases (m == 0)) [
    | inl e ↦ rw e o
    | inr e ↦ elim (Option-cases (w.nodes m)) [
      | inl none_here ↦ rw (e, none_here) o
      | inr (node, here) ↦ rw (e, here) (del_node-IsOngoing m node w here o)
    ]
  ]

  pub run_script-IsOngoing :
      (script : Script) (w : TimerMgr)
      → Allowed IsSmall Anything script
      → IsOngoing k t mid list calls w
      → IsOngoing k t mid list calls (run_script pool script w)
  run_script-IsOngoing script w ok o =
      run_script_inv pool (IsOngoing k t mid list calls) IsSmall Anything add-IsOngoing
        (λ m w' _ o'. del-IsOngoing m w' o') script w ok o
