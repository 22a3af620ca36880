-- ===== src/Time/Wheel/Total/Loop.antt =====
-- The main loop comes to its end when every timer comes back later.
use libev_test.Base.{
  ℕ, zero, suc, ◌+◌, ◌/◌, ◌%◌, ◌<◌, ◌≤◌, ◌≡◌, inl, inr, refl, arith, false, List, [], ◌∷◌, none,
  some, ◌==◌, Bool-cases, Option-cases, List-cases, length,
}
use libev_test.Time.Wheel.{TimerMgr, NodePool, Script, file, refile, cascade, cascades}
use libev_test.Time.Wheel.Valid.{Allowed, Anything, IsSmall, head_in_use}
use libev_test.Time.Wheel.Run.{fire_one, run_list, internal_run_timer, main_loop}
use libev_test.Time.Wheel.Cascade.Move.{in_tick}
use libev_test.Time.Wheel.Ready.{IsMid, IsReady, cascades-IsMid, IsMid-IsReady}
use libev_test.Time.Wheel.Tick.{fire_one-IsMid, internal_run_timer-IsMid}
use libev_test.Time.Wheel.Due.Round.{Allowed-map}
use libev_test.Time.Wheel.Total.{IsLater}
use libev_test.Time.Wheel.Total.Round.{AreBrisk, fire_one-IsShorter}

refile-AreBrisk : (mids : List ℕ) (w : TimerMgr) → AreBrisk w → AreBrisk (refile mids w)
unfolding refile file
refile-AreBrisk [] w b = b
refile-AreBrisk (mid ∷ mids) w b = elim (Option-cases (w.nodes mid)) [
  | inl e ↦ rw (e, refile) b
  | inr (node, e) ↦
      rw (e, refile)
        (refile-AreBrisk mids (file false mid node w) (λ m. elim (Bool-cases (mid == m)) [
          | inl same ↦ rw same (rw e at (b mid))
          | inr other ↦ rw other (b m)
        ]))
]

cascade-AreBrisk : (s : ℕ) (w : TimerMgr) → AreBrisk w → AreBrisk (cascade s w)
unfolding cascade
cascade-AreBrisk s w b = refile-AreBrisk (w.vec s) w b

cascades-AreBrisk : (w : TimerMgr) → AreBrisk w → AreBrisk (cascades w)
unfolding cascades
cascades-AreBrisk w b m =
    let t = w.cur_tick in
    let w2 = cascade (256 + (t / 256) % 64) w in
    let w3 = cascade (320 + (t / 16384) % 64) w2 in
    let w4 = cascade (384 + (t / 1048576) % 64) w3 in
    let b2 = cascade-AreBrisk (256 + (t / 256) % 64) w b in
    let b3 = cascade-AreBrisk (320 + (t / 16384) % 64) w2 b2 in
    let b4 = cascade-AreBrisk (384 + (t / 1048576) % 64) w3 b3 in
    let b5 = cascade-AreBrisk (448 + (t / 67108864) % 64) w4 b4 in
    ground (arith, b m, b2 m, b3 m, b4 m, b5 m)

module _ (pool : NodePool) (react : ℕ → ℕ → List ℕ → Script) where
  -- More fuel does not change a result.
  run_list_mono :
      (f g list : ℕ) (w w' : TimerMgr)
      → f ≤ g
      → run_list pool react f list w ≡ some w'
      → run_list pool react g list w ≡ some w'
  unfolding run_list
  run_list_mono zero g list w w' le ran = cc
  run_list_mono (suc f) zero list w w' le ran = absurd (omega arith)
  run_list_mono (suc f) (suc g) list w w' le ran = elim (List-cases (w.vec list)) [
    | inl e ↦ rw (e, run_list) (rw (e, run_list) at ran)
    | inr (mid, mids, e) ↦ elim (Option-cases (w.nodes mid)) [
      | inl gone ↦ absurd (let h : none ≡ some w' = rw (e, gone, run_list) at ran in cc)
      | inr (node, here) ↦
          rw (e, here, run_list)
            (run_list_mono f g list (fire_one pool react list mid node w) w' (omega arith)
              (rw (e, here, run_list) at ran))
    ]
  ]

  internal_run_timer_mono :
      (f g : ℕ) (w w' : TimerMgr)
      → f ≤ g
      → internal_run_timer pool react f w ≡ some w'
      → internal_run_timer pool react g w ≡ some w'
  unfolding internal_run_timer
  internal_run_timer_mono f g w w' le ran =
      run_list_mono f g (w.cur_tick % 256) (cascades w) w' le ran

  main_loop_mono :
      (f g n : ℕ) (w w' : TimerMgr)
      → f ≤ g
      → main_loop pool react f n w ≡ some w'
      → main_loop pool react g n w ≡ some w'
  unfolding main_loop
  main_loop_mono f g zero w w' le ran = ran
  main_loop_mono f g (suc n) w w' le ran = elim (Option-cases (internal_run_timer pool react f w)) [
    | inl e ↦ absurd (let h : none ≡ some w' = rw (e, main_loop) at ran in cc)
    | inr (ran1, e) ↦
        rw (internal_run_timer_mono f g w ran1 le e, main_loop)
          (main_loop_mono f g n (record ran1 { cur_tick = ran1.cur_tick + 1 }) w' le
            (rw (e, main_loop) at ran))
  ]

module _ (pool : NodePool) (react : ℕ → ℕ → List ℕ → Script)
    (later : (mid type : ℕ) (bytes : List ℕ)
      → Allowed IsLater Anything (react mid type bytes)) where
  react-Allowed : (mid type : ℕ) (bytes : List ℕ) → Allowed IsSmall Anything (react mid type bytes)
  react-Allowed mid type bytes =
      Allowed-map IsLater IsSmall (λ r h. h.0) (λ d h. h) (react mid type bytes)
        (later mid type bytes)

  run_list-total :
      (t : ℕ)
      → t < 0x8000000000000000
      → (fuel : ℕ) (w : TimerMgr) → IsMid t w
      → AreBrisk w
      → length (w.vec (t % 256)) < fuel
      → (w' : TimerMgr) × (run_list pool react fuel (t % 256) w ≡ some w') × AreBrisk w'
  unfolding run_list
  run_list-total t small zero w i b h = absurd (omega arith)
  run_list-total t small (suc fuel) w i b h = elim (List-cases (w.vec (t % 256))) [
    | inl e ↦ (w, rw (e, run_list) refl, b)
    | inr (mid, mids, e) ↦
        let n = head_in_use (in_tick t) w (t % 256) mid mids i.valid e in
        let next = fire_one pool react (t % 256) mid n.0 w in
        let s = fire_one-IsShorter pool react later t small mid n.0 w i b n.1 n.2 in
        let r =
          run_list-total t small fuel next
            (fire_one-IsMid pool react react-Allowed t small mid n.0 w i n.1 n.2) s.0
            (omega (arith, s.1)) in
        (r.0, rw (e, n.1, run_list) r.1, r.2)
  ]

  -- One tick: more fuel than the list of the tick is long suffices.
  pub internal_run_timer-total :
      (fuel : ℕ) (w : TimerMgr)
      → w.cur_tick < 0x8000000000000000
      → IsReady w
      → AreBrisk w
      → length ((cascades w).vec (w.cur_tick % 256)) < fuel
      → (w' : TimerMgr) × (internal_run_timer pool react fuel w ≡ some w') × AreBrisk w'
  unfolding internal_run_timer
  internal_run_timer-total fuel w small ready b h =
      run_list-total w.cur_tick small fuel (cascades w) (cascades-IsMid w small ready)
        (cascades-AreBrisk w b) h

  -- On a wheel that is ready, where no timer is left running and each has an interval or one call to
  -- go, with callbacks that add only such timers, one tick or more ahead: for some fuel `main_loop`
  -- runs all its ticks to the end, and leaves such a wheel.
  pub main_loop-total :
      (n : ℕ) (w : TimerMgr)
      → w.cur_tick + n < 0x8000000000000000
      → IsReady w
      → AreBrisk w
      → (fuel : ℕ) × (w' : TimerMgr) × (main_loop pool react fuel n w ≡ some w') × AreBrisk w'
  unfolding main_loop
  main_loop-total zero w small ready b = (0, w, refl, b)
  main_loop-total (suc n) w small ready b =
      let first =
        internal_run_timer-total (suc (length ((cascades w).vec (w.cur_tick % 256)))) w
          (omega arith) ready b (omega arith) in
      let ran = first.0 in
      let i =
        internal_run_timer-IsMid pool react react-Allowed _ w ran (omega arith) ready first.1 in
      let next : TimerMgr = record ran { cur_tick = ran.cur_tick + 1 } in
      let rest =
        main_loop-total n next (omega (arith, i.0.clock)) (IsMid-IsReady w.cur_tick ran i.0 i.1)
          first.2 in
      let fuel = suc (length ((cascades w).vec (w.cur_tick % 256))) + rest.0 in
      (
        fuel,
        rest.1,
        rw (internal_run_timer_mono pool react _ fuel w ran (omega arith) first.1, main_loop)
            (main_loop_mono pool react rest.0 fuel n next rest.1 (omega arith) rest.2),
        rest.3,
      )
