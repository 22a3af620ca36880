-- ===== src/Time/Wheel/Tick.antt =====
-- One tick and the main loop keep the invariant, and call each timer at its own tick.
use libev_test.Base.{
  occurs, ℕ, zero, suc, ◌+◌, ◌%◌, ◌<◌, ◌≡◌, inl, inr, refl, sym, ◌∙◌, arith, false, ◌&&◌, List, [],
  ◌∷◌, ◌++◌, none, some, ==_iff, Bool-cases, Option-cases, List-cases, lt→ltb,
}
use libev_test.Time.Wheel.{
  TimerNode, TimerMgr, NodePool, Script, file, drop_timer, next_expiry, Callback, spent, cascades,
}
use libev_test.Time.Wheel.Place.{find_handle_list-Fits}
use libev_test.Time.Wheel.Valid.{Placed, IsValid, IsSmall, Allowed, Anything, head_in_use}
use libev_test.Time.Wheel.Edit.{file-IsValid, drop_timer-IsValid}
use libev_test.Time.Wheel.Run.{
  start_call, call_back, renew, fire_one, run_list, internal_run_timer, main_loop,
}
use libev_test.Time.Wheel.Fire.{IsOngoing, run_script-IsOngoing}
use libev_test.Time.Wheel.Cascade.Move.{in_tick}
use libev_test.Time.Wheel.Ready.{
  IsMid, due_now, IsReady, cascades-IsMid, IsMid-IsReady, start_call-IsOngoing, ArePunctual-append,
}

module _ (pool : NodePool) (react : ℕ → ℕ → List ℕ → Script)
    (react_small : (mid type : ℕ) (bytes : List ℕ)
      → Allowed IsSmall Anything (react mid type bytes)) where
  module _ (t : ℕ) (small : t < 0x8000000000000000) where
    pub call_back-IsOngoing :
        (mid : ℕ) (node : TimerNode) (w : TimerMgr)
        → IsValid (in_tick t) w
        → w.cur_tick ≡ t
        → w.nodes mid ≡ some node
        → IsOngoing
            (in_tick t)
            t
            mid
            node.lst_offset
            (w.calls ++ record { tick = t; mid = mid; due = node.expires } ∷ [])
            (call_back pool react mid node w)
    unfolding call_back
    call_back-IsOngoing mid node w v now here =
        run_script-IsOngoing pool (in_tick t) t mid node.lst_offset
          (w.calls ++ record { tick = t; mid = mid; due = node.expires } ∷ []) (omega arith) small
          (react mid node.timer_type node.bytes) (start_call mid node w)
          (react_small mid node.timer_type node.bytes)
          (start_call-IsOngoing t mid node.lst_offset node w v now here refl)

    again-IsValid :
        (mid : ℕ) (node : TimerNode) (w : TimerMgr)
        → IsValid (in_tick t) w
        → w.cur_tick ≡ t
        → w.nodes mid ≡ some node
        → IsValid (in_tick t) (drop_timer node.lst_offset mid w)
        → IsValid (in_tick t) (
            file false mid
              (record node { is_running = false; expires = next_expiry w.cur_tick node.interval })
              (drop_timer node.lst_offset mid w))
    unfolding drop_timer occurs
    again-IsValid mid node w v now here dropped =
        let old : Placed (in_tick t) (some node) = rw here at (v.placed mid) in
        let pos : 0 < mid = ground (arith, v.no_zero) in
        file-IsValid (in_tick t) (drop_timer node.lst_offset mid w) mid _ false dropped
          (rw ((==_iff mid mid).1 refl) refl) pos
          (rw (now, lt→ltb node.interval 0x80000000 old.1)
            (find_handle_list-Fits t ((t + node.interval) % 0x10000000000000000) (omega arith)
              (omega arith) small (in_tick t) (omega arith)))
          old.1

    pub renew-IsValid :
        (mid : ℕ) (node : TimerNode) (w : TimerMgr)
        → IsValid (in_tick t) w
        → w.cur_tick ≡ t
        → w.nodes mid ≡ some node
        → IsValid (in_tick t) (renew node.lst_offset mid node w)
          × ((renew node.lst_offset mid node w).cur_tick ≡ t)
          × ((renew node.lst_offset mid node w).calls ≡ w.calls)
    unfolding renew file drop_timer
    renew-IsValid mid node w v now here =
        let dropped = drop_timer-IsValid (in_tick t) w mid node v here in
        elim (Bool-cases (spent node)) [
          | inl e ↦ rw e (dropped, now, refl)
          | inr e ↦ rw e (again-IsValid mid node w v now here dropped, now, refl)
        ]

    -- One round: the timer at the head is due now, and is called unless it was left running.
    pub fire_one-IsMid :
        (mid : ℕ) (node : TimerNode) (w : TimerMgr)
        → IsMid t w
        → w.nodes mid ≡ some node
        → node.lst_offset ≡ t % 256
        → IsMid t (fire_one pool react (t % 256) mid node w)
    unfolding fire_one drop_timer
    fire_one-IsMid mid node w m here in_list =
        let call : Callback = record { tick = t; mid = mid; due = node.expires } in
        let fits : Placed (in_tick t) (some node) = rw here at (m.valid.placed mid) in
        let punctual =
          ArePunctual-append w.calls call m.punctual
            (sym (due_now t node.expires (rw in_list at fits.0))) in
        let o = call_back-IsOngoing mid node w m.valid m.clock here in
        elim (Bool-cases (node.is_running && spent node)) [
          | inl e ↦ rw e (record {
            valid = rw in_list at (drop_timer-IsValid (in_tick t) w mid node m.valid here);
            clock = m.clock;
            punctual = m.punctual;
          })
          | inr e ↦ elim (Option-cases ((call_back pool react mid node w).nodes mid)) [
            | inl gone ↦ absurd (rw gone at o.running)
            | inr (after, stays) ↦
                let same : after.lst_offset ≡ t % 256 = (rw stays at o.running).1 ∙ in_list in
                let r =
                  renew-IsValid mid after (call_back pool react mid node w) o.valid o.clock stays in
                rw (e, stays, sym same)
                  (record { valid = r.0; clock = r.1; punctual = rw (r.2, o.trace) punctual })
          ]
        ]

    pub run_list-IsMid :
        (fuel : ℕ) (w w' : TimerMgr)
        → IsMid t w
        → run_list pool react fuel (t % 256) w ≡ some w'
        → IsMid t w' × (w'.vec (t % 256) ≡ [])
    unfolding run_list
    run_list-IsMid zero w w' m ran = cc
    run_list-IsMid (suc fuel) w w' m ran = elim (List-cases (w.vec (t % 256))) [
      | inl e ↦ let same : w ≡ w' = ground (arith, rw (e, run_list) at ran) in rw (sym same) (m, e)
      | inr (mid, mids, e) ↦
          let h = head_in_use (in_tick t) w (t % 256) mid mids m.valid e in
          run_list-IsMid fuel (fire_one pool react (t % 256) mid h.0 w) w'
            (fire_one-IsMid mid h.0 w m h.1 h.2) (rw (e, h.1, run_list) at ran)
    ]

  pub internal_run_timer-IsMid :
      (fuel : ℕ) (w w' : TimerMgr)
      → w.cur_tick < 0x8000000000000000
      → IsReady w
      → internal_run_timer pool react fuel w ≡ some w'
      → IsMid w.cur_tick w' × (w'.vec (w.cur_tick % 256) ≡ [])
  unfolding internal_run_timer
  internal_run_timer-IsMid fuel w w' small ready ran =
      run_list-IsMid w.cur_tick small fuel (cascades w) w' (cascades-IsMid w small ready) ran

  -- On a wheel that is ready, whatever callbacks add or delete with delays below 2^32 and intervals
  -- below 2^31 ticks: when `main_loop` has run its ticks, with the tick counter below 2^63, the
  -- wheel is ready again, so that every timer in use stands once, in the list its `lst_offset`
  -- names and that fits its expiry, no earlier than the current tick; each callback made came at the
  -- tick its timer was due at; and the counter has advanced by the ticks run.
  pub main_loop-IsReady :
      (fuel tick_num : ℕ) (w w' : TimerMgr)
      → w.cur_tick + tick_num < 0x8000000000000000
      → IsReady w
      → main_loop pool react fuel tick_num w ≡ some w'
      → IsReady w' × (w'.cur_tick ≡ w.cur_tick + tick_num)
  unfolding main_loop
  main_loop-IsReady fuel zero w w' small ready ran =
      let same : w ≡ w' = ground arith in rw (sym same) (ready, omega arith)
  main_loop-IsReady fuel (suc n) w w' small ready ran =
      elim (Option-cases (internal_run_timer pool react fuel w)) [
        | inl e ↦ (let h : none ≡ some w' = rw (e, main_loop) at ran in cc)
        | inr (ran1, e) ↦
            let m = internal_run_timer-IsMid fuel w ran1 (omega arith) ready e in
            let next : TimerMgr = record ran1 { cur_tick = ran1.cur_tick + 1 } in
            let ready1 = IsMid-IsReady w.cur_tick ran1 m.0 m.1 in
            let r =
              main_loop-IsReady fuel n next w' (omega arith) ready1 (rw (e, main_loop) at ran) in
            (r.0, omega arith)
      ]
