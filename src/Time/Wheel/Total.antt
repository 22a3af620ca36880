-- ===== src/Time/Wheel/Total.antt =====
-- When every new timer waits for a later tick, the loop of a tick ends.
pub mod Round
pub mod Loop
use libev_test.Base.{
  erase, occurs, ℕ, suc, ◌+◌, ◌%◌, ◌<◌, ◌≤◌, ◌≡◌, ◌≢◌, ◌⊎◌, inl, inr, refl, sym, ◌∙◌, arith, Bool,
  true, false, not, List, [], ◌∷◌, ◌++◌, Option, none, some, ltb, ◌==◌, if◌then◌else◌, ==_iff,
  Bool-cases, Option-cases, length, length-append, lt→ltb,
}
use libev_test.Time.Wheel.{
  TimerNode, TimerMgr, NodePool, Request, Script, put, store, find_handle_list, file, drop_timer,
  add, Callback, refile, cascade, cascades, new_node,
}
use libev_test.Time.Wheel.Place.{Windows, Near, idx_lem}
use libev_test.Time.Wheel.Valid.{IsValid, IsSmall, Allowed, Anything}
use libev_test.Time.Wheel.Run.{del, del_node, run_script}
use libev_test.Time.Wheel.Fire.{
  IsOngoing, IsRunning, IsAdded, add-IsAdded, add-IsOngoing, del-IsOngoing, run_script_inv,
  free_ne_running, idle_ne_running,
}

pub length-erase :
    (mid : ℕ) (xs : List ℕ) → 0 < occurs mid xs → suc (length (erase mid xs)) ≡ length xs
unfolding occurs
length-erase mid [] h = absurd (omega arith)
length-erase mid (x ∷ xs) h = ground (arith, length-erase mid xs)

pub length-erase_le : (mid : ℕ) (xs : List ℕ) → length (erase mid xs) ≤ length xs
length-erase_le mid [] = omega arith
length-erase_le mid (x ∷ xs) = ground (arith, length-erase_le mid xs)

-- A delay of one tick or more leads to another list than the running one.
pub later_ne_now :
    (t d : ℕ)
    → t < 0x8000000000000000
    → 0 < d
    → d < 0x100000000
    → find_handle_list t ((t + d) % 0x10000000000000000) ≢ t % 256
unfolding find_handle_list
later_ne_now t d small pos far =
    let same : (t + d) % 0x10000000000000000 ≡ t + d = omega arith in
    rw (same, idx_lem t (t + d) (omega arith) (omega arith) small) (ground arith)

-- The timer comes back later, if at all.
abbrev pub IsBrisk : Option TimerNode → Type 0
IsBrisk none = Unit
IsBrisk (some node) =
    (node.is_running ≡ false)
    × ((0 < node.interval) ⊎ ((node.is_forever ≡ false) × (node.repeats ≡ 1)))

-- The same while it runs.
abbrev pub IsBriskRun : Option TimerNode → Type 0
IsBriskRun none = Unit
IsBriskRun (some node) = (0 < node.interval) ⊎ ((node.is_forever ≡ false) × (node.repeats ≡ 0))

-- A request for a later tick that repeats, if at all, with a delay.
abbrev pub IsLater : Request → Type 0
IsLater r = IsSmall r × (0 < r.first) × ((0 < r.interval) ⊎ (r.num ≡ 1))

-- Inside a callback, with the length of the running list bounded.
pub record IsBusy (k : Windows) (t mid size : ℕ) (calls : List Callback) (w : TimerMgr)
    : Type 0 where
  pub ongoing : IsOngoing k t mid (t % 256) calls w
  pub others : (m : ℕ) → m ≢ mid → IsBrisk (w.nodes m)
  pub self : IsBriskRun (w.nodes mid)
  pub bounded : length (w.vec (t % 256)) ≤ size

IsBrisk-store :
    (nodes : ℕ → Option TimerNode) (m : ℕ) (o : Option TimerNode) (other : ℕ)
    → IsBrisk o
    → IsBrisk (nodes other)
    → IsBrisk (store nodes m o other)
IsBrisk-store nodes m o other new old = elim (Bool-cases (m == other)) [
  | inl e ↦ rw e new
  | inr e ↦ rw e old
]

store_ne :
    (nodes : ℕ → Option TimerNode) (m other : ℕ) (o : Option TimerNode)
    → m ≢ other
    → store nodes m o other ≡ nodes other
store_ne nodes m other o ne = ground arith

-- Between its callbacks no other timer is running.
running_is_mid :
    (mid m : ℕ) (w : TimerMgr) (node : TimerNode)
    → ((other : ℕ) → other ≢ mid → IsBrisk (w.nodes other))
    → w.nodes m ≡ some node
    → node.is_running ≡ true
    → m ≡ mid
running_is_mid mid m w node others here r = elim (Bool-cases (m == mid)) [
  | inl e ↦ (==_iff m mid).0 e
  | inr e ↦
      let brisk : IsBrisk (some node) =
        rw here at (others m (λ same. cc (e, (==_iff m mid).1 same))) in
      absurd (let h : true ≡ false = sym r ∙ brisk.0 in cc)
]

module _ (pool : NodePool) (k : Windows) (t mid size : ℕ) (calls : List Callback) (near : Near t k)
    (small : t < 0x8000000000000000) where
  pub add-IsBusy :
      (r : Request) (to_head : Bool) (w : TimerMgr)
      → IsLater r
      → IsBusy k t mid size calls w
      → IsBusy k t mid size calls (add pool r to_head w).1
  unfolding file
  add-IsBusy r to_head w ok b =
      let going =
        add-IsOngoing pool k t mid (t % 256) calls near small r to_head w ok.0 b.ongoing in
      elim (add-IsAdded pool r to_head w) [
        | inl same ↦ rw same b
        | inr (m, free, pos, made) ↦
            let ne = free_ne_running w.nodes mid (t % 256) m free b.ongoing.running in
            let brisk : IsBrisk (some (new_node w.cur_tick r)) =
              (refl, elim ok.2 [ inl h ↦ inl h | inr h ↦ inr (rw h refl, h) ]) in
            rw made (record {
              ongoing = rw made at going;
              others =
                  λ other out. IsBrisk-store w.nodes m (some _) other brisk (b.others other out);
              self = rw (store_ne w.nodes m mid (some _) ne) b.self;
              bounded =
                  rw b.ongoing.clock
                    (ground (arith, b.bounded, later_ne_now t r.first small ok.1 ok.0.0));
            })
      ]

  pub del-IsBusy :
      (m : ℕ) (w : TimerMgr) → IsBusy k t mid size calls w → IsBusy k t mid size calls (del m w).1
  unfolding del del_node drop_timer
  del-IsBusy m w b =
      let going = del-IsOngoing pool k t mid (t % 256) calls near small m w b.ongoing in
      elim (Bool-cases (m == 0)) [
        | inl e ↦ rw e b
        | inr e ↦ elim (Option-cases (w.nodes m)) [
          | inl none_here ↦ rw (e, none_here) b
          | inr (node, here) ↦ elim (Bool-cases node.is_running) [
            | inl r ↦
                let same = running_is_mid mid m w node b.others here r in
                rw (e, here, r)
                  (record {
                    ongoing = rw (e, here, r) at going;
                    others = λ other out.
                        rw (store_ne w.nodes m other (some _) (λ h. out (sym h ∙ same)))
                          (b.others other out);
                    self = rw (same, (==_iff mid mid).1 refl) (inr (refl, refl));
                    bounded = b.bounded;
                  })
            | inr r ↦
                let ne = idle_ne_running mid (t % 256) w.nodes m node here r b.ongoing.running in
                rw (e, here, r)
                  (record {
                    ongoing = rw (e, here, r) at going;
                    others =
                        λ other out. IsBrisk-store w.nodes m none other tt (b.others other out);
                    self = rw (store_ne w.nodes m mid none ne) b.self;
                    bounded = ground (arith, b.bounded, length-erase_le m (w.vec node.lst_offset));
                  })
          ]
        ]
      ]

  pub run_script-IsBusy :
      (script : Script) (w : TimerMgr)
      → Allowed IsLater Anything script
      → IsBusy k t mid size calls w
      → IsBusy k t mid size calls (run_script pool script w)
  run_script-IsBusy script w ok b =
      run_script_inv pool (IsBusy k t mid size calls) IsLater Anything add-IsBusy
        (λ m w' _ b'. del-IsBusy m w' b') script w ok b
