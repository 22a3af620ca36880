-- ===== src/Time/Wheel/Due/Loop.antt =====
-- Tick by tick, a timer that waits is reached.
use libev_test.Base.{
  ℕ, zero, suc, ◌+◌, ◌%◌, ◌<◌, ◌≤◌, ◌≡◌, ◌≢◌, inl, inr, sym, arith, List, Option, none, some,
  Option-cases, List-cases,
}
use libev_test.Time.Wheel.{TimerNode, TimerMgr, NodePool, Script, cascades}
use libev_test.Time.Wheel.Place.{Fits}
use libev_test.Time.Wheel.Valid.{Placed, IsSmall, Allowed, at_tick, head_in_use}
use libev_test.Time.Wheel.Run.{fire_one, run_list, internal_run_timer, main_loop}
use libev_test.Time.Wheel.Fire.{IsPending}
use libev_test.Time.Wheel.Ready.{IsMid, cascades-IsMid, IsMid-IsReady, IsReady}
use libev_test.Time.Wheel.Tick.{fire_one-IsMid, internal_run_timer-IsMid, main_loop-IsReady}
use libev_test.Time.Wheel.Due.{WasCalled, cascades-IsPending}
use libev_test.Time.Wheel.Cascade.Move.{in_tick}
use libev_test.Time.Wheel.Due.Round.{IsTracked, react-Allowed, fire_one-IsTracked}
use libev_test.Time.Wheel.Cascade.All.{cascades-same}

-- No timer that is placed at a tick is overdue.
Fits-due : (t s e : ℕ) → Fits (at_tick t) s e → t ≤ e
Fits-due t s e fits = elim fits [
  | inl h ↦ omega arith
  | inr (inl h) ↦ omega arith
  | inr (inr (inl h)) ↦ omega arith
  | inr (inr (inr (inl h))) ↦ omega arith
  | inr (inr (inr (inr h))) ↦ omega arith
]

pub pending_due :
    (t due : ℕ) (o : Option TimerNode) → Placed (at_tick t) o → IsPending due o → t ≤ due
pending_due t due none p q = elim q [ ]
pending_due t due (some node) p q = rw q.1 at (Fits-due t node.lst_offset node.expires p.0)

module _ (pool : NodePool) (react : ℕ → ℕ → List ℕ → Script) (due m : ℕ)
    (spares : (mid type : ℕ) (bytes : List ℕ)
      → Allowed IsSmall (λ d. d ≢ m) (react mid type bytes)) where
  run_list-IsTracked :
      (t : ℕ)
      → t < 0x8000000000000000
      → (fuel : ℕ) (w w' : TimerMgr) → IsMid t w
      → IsTracked due m w
      → run_list pool react fuel (t % 256) w ≡ some w'
      → IsTracked due m w'
  unfolding run_list
  run_list-IsTracked t small zero w w' i tracked ran = cc
  run_list-IsTracked t small (suc fuel) w w' i tracked ran = elim (List-cases (w.vec (t % 256))) [
    | inl e ↦ let same : w ≡ w' = ground (arith, rw (e, run_list) at ran) in rw (sym same) tracked
    | inr (mid, mids, e) ↦
        let h = head_in_use (in_tick t) w (t % 256) mid mids i.valid e in
        run_list-IsTracked t small fuel (fire_one pool react (t % 256) mid h.0 w) w'
          (fire_one-IsMid pool react (react-Allowed pool react due m spares) t small mid h.0 w i h.1
            h.2)
          (fire_one-IsTracked pool react due m spares t small mid h.0 w i h.1 h.2 tracked)
          (rw (e, h.1, run_list) at ran)
  ]

  internal_run_timer-IsTracked :
      (fuel : ℕ) (w w' : TimerMgr)
      → w.cur_tick < 0x8000000000000000
      → IsReady w
      → IsTracked due m w
      → internal_run_timer pool react fuel w ≡ some w'
      → IsTracked due m w'
  unfolding internal_run_timer
  internal_run_timer-IsTracked fuel w w' small ready tracked ran =
      run_list-IsTracked w.cur_tick small fuel (cascades w) w' (cascades-IsMid w small ready)
        (elim tracked [
          | inl p ↦ inl (cascades-IsPending due m w p)
          | inr c ↦ inr (rw (cascades-same w).1 c)
        ])
        ran

  main_loop-IsTracked :
      (fuel tick_num : ℕ) (w w' : TimerMgr)
      → w.cur_tick + tick_num < 0x8000000000000000
      → IsReady w
      → IsTracked due m w
      → main_loop pool react fuel tick_num w ≡ some w'
      → IsTracked due m w'
  unfolding main_loop
  main_loop-IsTracked fuel zero w w' small ready tracked ran =
      let same : w ≡ w' = ground arith in rw (sym same) tracked
  main_loop-IsTracked fuel (suc n) w w' small ready tracked ran =
      elim (Option-cases (internal_run_timer pool react fuel w)) [
        | inl e ↦ absurd (let h : none ≡ some w' = rw (e, main_loop) at ran in cc)
        | inr (ran1, e) ↦
            let calm = react-Allowed pool react due m spares in
            let i = internal_run_timer-IsMid pool react calm fuel w ran1 (omega arith) ready e in
            let next : TimerMgr = record ran1 { cur_tick = ran1.cur_tick + 1 } in
            let tracked1 = internal_run_timer-IsTracked fuel w ran1 (omega arith) ready tracked e in
            main_loop-IsTracked fuel n next w' (omega arith) (IsMid-IsReady w.cur_tick ran1 i.0 i.1)
              tracked1 (rw (e, main_loop) at ran)
      ]

  -- On a wheel that is ready, with callbacks that add timers with delays below 2^32 and intervals
  -- below 2^31 ticks and delete any timer but `m`: if timer `m` waits for tick `due`, and
  -- `main_loop` has run past that tick with the counter below 2^63, then `m` has been called at
  -- exactly the tick `due`.
  pub main_loop-calls :
      (fuel tick_num : ℕ) (w w' : TimerMgr)
      → w.cur_tick + tick_num < 0x8000000000000000
      → IsReady w
      → IsPending due (w.nodes m)
      → due < w.cur_tick + tick_num
      → main_loop pool react fuel tick_num w ≡ some w'
      → WasCalled m due w'.calls
  main_loop-calls fuel tick_num w w' small ready p passed ran =
      let calm = react-Allowed pool react due m spares in
      let r = main_loop-IsReady pool react calm fuel tick_num w w' small ready ran in
      elim (main_loop-IsTracked fuel tick_num w w' small ready (inl p) ran) [
        | inl q ↦
            absurd
              (omega (arith, pending_due w'.cur_tick due (w'.nodes m) (r.0.valid.placed m) q, r.1))
        | inr c ↦ c
      ]
