-- ===== src/Time/Wheel/Total/Round.antt =====
-- One round takes a timer out of the running list and puts none in.
use libev_test.Base.{
  occurs, ℕ, suc, ◌+◌, ◌%◌, ◌<◌, ◌≤◌, ◌≡◌, ◌≢◌, inl, inr, refl, sym, arith, true, false, ◌&&◌, List,
  [], ◌∷◌, ◌++◌, some, ◌==◌, ==_iff, Bool-cases, Option-cases, length, lt→ltb,
}
use libev_test.Time.Wheel.{TimerNode, TimerMgr, NodePool, Script, file, drop_timer, spent}
use libev_test.Time.Wheel.Valid.{Placed, Allowed, Anything}
use libev_test.Time.Wheel.Run.{start_call, call_back, renew, fire_one}
use libev_test.Time.Wheel.Cascade.Move.{in_tick}
use libev_test.Time.Wheel.Ready.{IsMid, start_call-IsOngoing}
use libev_test.Time.Wheel.Total.{
  length-erase, later_ne_now, IsBrisk, IsBriskRun, IsLater, IsBusy, run_script-IsBusy, store_ne,
}

-- No timer is running, and each comes back later, if at all.
abbrev pub AreBrisk : TimerMgr → Type 0
AreBrisk w = (m : ℕ) → IsBrisk (w.nodes m)

started :
    (node : TimerNode)
    → IsBrisk (some node)
    → IsBriskRun (
        some
          (record node { is_running = true; repeats = (node.repeats + 0xFFFFFFFF) % 0x100000000 }))
started node b = elim b.1 [ inl h ↦ inl h | inr h ↦ inr (h.0, rw h.1 refl) ]

-- What is renewed has an interval.
ended : (node : TimerNode) → IsBriskRun (some node) → spent node ≡ false → 0 < node.interval
ended node b live = elim b [
  | inl h ↦ h
  | inr h ↦ absurd (let no : true ≡ false = rw (h.0, h.1) at live in cc)
]

-- The list of the round is shorter, whatever else moves.
abbrev IsShorter : ℕ → TimerMgr → TimerMgr → Type 0
IsShorter list w w' = suc (length (w'.vec list)) ≤ length (w.vec list)

module _ (t : ℕ) (small : t < 0x8000000000000000) where
  drop-IsShorter :
      (mid : ℕ) (w : TimerMgr)
      → 0 < occurs mid (w.vec (t % 256))
      → IsShorter (t % 256) w (drop_timer (t % 256) mid w)
  unfolding drop_timer
  drop-IsShorter mid w h = ground (arith, length-erase mid (w.vec (t % 256)) h)

  renew_lem :
      (mid : ℕ) (node : TimerNode) (w : TimerMgr)
      → w.cur_tick ≡ t
      → 0 < occurs mid (w.vec (t % 256))
      → IsBriskRun (some node)
      → node.interval < 0x80000000
      → ((m : ℕ) → m ≢ mid → IsBrisk (w.nodes m))
      → AreBrisk (renew (t % 256) mid node w) × IsShorter (t % 256) w (renew (t % 256) mid node w)
  unfolding renew file drop_timer
  renew_lem mid node w now listed run narrow others = elim (Bool-cases (spent node)) [
    | inl e ↦ rw e (
      λ m. elim (Bool-cases (mid == m)) [
        | inl same ↦ rw same tt
        | inr out ↦ rw out (others m (λ h. cc (out, (==_iff mid m).1 (sym h))))
      ],
      drop-IsShorter mid w listed,
    )
    | inr e ↦
        let pos = ended node run e in
        let away = later_ne_now t node.interval small pos (omega arith) in
        rw e (
          λ m. elim (Bool-cases (mid == m)) [
            | inl same ↦ rw same (refl, inl pos)
            | inr out ↦ rw out (others m (λ h. cc (out, (==_iff mid m).1 (sym h))))
          ],
          rw (now, lt→ltb node.interval 0x80000000 narrow)
              (ground (arith, away, length-erase mid (w.vec (t % 256)) listed)),
        )
  ]

module _ (pool : NodePool) (react : ℕ → ℕ → List ℕ → Script)
    (later : (mid type : ℕ) (bytes : List ℕ) → Allowed IsLater Anything (react mid type bytes))
    (t : ℕ) (small : t < 0x8000000000000000) where
  call_back-IsBusy :
      (mid : ℕ) (node : TimerNode) (w : TimerMgr)
      → IsMid t w
      → AreBrisk w
      → w.nodes mid ≡ some node
      → node.lst_offset ≡ t % 256
      → IsBusy
          (in_tick t)
          t
          mid
          (length (w.vec (t % 256)))
          (w.calls ++ record { tick = t; mid = mid; due = node.expires } ∷ [])
          (call_back pool react mid node w)
  unfolding call_back
  call_back-IsBusy mid node w i brisk here in_list =
      let start = start_call-IsOngoing t mid (t % 256) node w i.valid i.clock here in_list in
      run_script-IsBusy pool (in_tick t) t mid (length (w.vec (t % 256))) _ (omega arith) small
        (react mid node.timer_type node.bytes) (start_call mid node w)
        (later mid node.timer_type node.bytes)
        (record {
          ongoing = start;
          others = λ m out. rw (store_ne w.nodes mid m (some _) (λ h. out (sym h))) (brisk m);
          self = rw ((==_iff mid mid).1 refl) (started node (rw here at (brisk mid)));
          bounded = omega arith;
        })

  pub fire_one-IsShorter :
      (mid : ℕ) (node : TimerNode) (w : TimerMgr)
      → IsMid t w
      → AreBrisk w
      → w.nodes mid ≡ some node
      → node.lst_offset ≡ t % 256
      → AreBrisk (fire_one pool react (t % 256) mid node w)
        × (suc (length ((fire_one pool react (t % 256) mid node w).vec (t % 256)))
            ≤ length (w.vec (t % 256)))
  unfolding fire_one
  fire_one-IsShorter mid node w i brisk here in_list =
      let called = call_back pool react mid node w in
      let b = call_back-IsBusy mid node w i brisk here in_list in
      let idle : IsBrisk (some node) = rw here at (brisk mid) in
      let quiet : (node.is_running && spent node) ≡ false = rw idle.0 refl in
      elim (Option-cases (called.nodes mid)) [
        | inl gone ↦ absurd (rw gone at b.ongoing.running)
        | inr (after, stays) ↦
            let run : IsBriskRun (some after) = rw stays at b.self in
            let same = (rw stays at b.ongoing.running).1 in
            let place : Placed (in_tick t) (some after) =
              rw stays at (b.ongoing.valid.placed mid) in
            let listed : 0 < occurs mid (called.vec (t % 256)) =
              ground (arith, rw stays at (b.ongoing.valid.listed mid (t % 256))) in
            let r =
              renew_lem t small mid after called b.ongoing.clock listed run place.1 b.others in
            rw (quiet, stays) (r.0, omega (arith, r.1, b.bounded))
      ]
