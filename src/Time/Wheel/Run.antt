-- ===== src/Time/Wheel/Run.antt =====
-- xrbase/time/timer_wheel.cpp: `del`, callbacks, one tick, the main loop and the queries.
use libev_test.Base.{
  ℕ, zero, suc, ◌+◌, ◌-◌, ◌%◌, Bool, true, false, not, ◌&&◌, List, [], ◌∷◌, ◌++◌, Option, none,
  some, ltb, ◌==◌, if◌then◌else◌,
}
use libev_test.Time.Wheel.{
  TimerNode, TimerMgr, NodePool, Script, finish, add_timer, del_timer, store, file, drop_timer,
  cascades, spent, next_expiry, add,
}

-- The part of `del` behind the tests for null: a timer that is running is only marked. Its two assertions,
-- that the offset of the list lies inside the manager, are left out: a list is known by its place.
unfoldable pub del_node : ℕ → TimerNode → TimerMgr → TimerMgr
del_node mid node w =
    if node.is_running
    then record w {
      nodes = store w.nodes mid (some (record node { repeats = 0; is_forever = false }));
    }
    else drop_timer node.lst_offset mid w

-- `del`, with true for 0 and false for -1.
unfoldable pub del : ℕ → TimerMgr → Bool × TimerMgr
unfolding del_node
del mid w =
    if mid == 0
    then (true, w)
    else elim (w.nodes mid) [ none ↦ (false, w) | some node ↦ (true, del_node mid node w) ]

-- `is_finish`
unfoldable pub is_finish : ℕ → TimerMgr → Bool
is_finish mid w = elim (w.nodes mid) [
  | none ↦ true
  | some node ↦ node.repeats == 0 && not node.is_forever
]

-- `get_remain_tick`, for expiries that are not negative.
unfoldable pub get_remain_tick : ℕ → TimerMgr → ℕ
get_remain_tick mid w = elim (w.nodes mid) [
  | none ↦ 0
  | some node ↦ if ltb node.expires w.cur_tick then 0 else node.expires - w.cur_tick
]

-- From `is_running = 0` on: the timer is given up or put where it is due next.
unfoldable pub renew : ℕ → ℕ → TimerNode → TimerMgr → TimerMgr
renew list mid node w =
    if spent node
    then drop_timer list mid w
    else file false mid
        (record node { is_running = false; expires = next_expiry w.cur_tick node.interval })
        (drop_timer list mid w)

-- `is_running = 1`, `repeats--`, and the call itself.
abbrev pub start_call : ℕ → TimerNode → TimerMgr → TimerMgr
start_call mid node w = record w {
  nodes = store w.nodes mid (
      some
        (record node { is_running = true; repeats = (node.repeats + 0xFFFFFFFF) % 0x100000000 }));
  calls = w.calls ++ record { tick = w.cur_tick; mid = mid; due = node.expires } ∷ [];
}

module _ (pool : NodePool) where
  -- What a callback does.
  unfoldable pub run_script : Script → TimerMgr → TimerMgr
  run_script finish w = w
  run_script (add_timer r to_head next) w =
      let added = add pool r to_head w in run_script (next added.0) added.1
  run_script (del_timer mid next) w =
      let deleted = del mid w in run_script (next deleted.0) deleted.1

  -- The callbacks that the program has registered, by id, type and data.
  module _ (react : ℕ → ℕ → List ℕ → Script) where
    -- From `is_running = 1` to the return of the callback.
    unfoldable pub call_back : ℕ → TimerNode → TimerMgr → TimerMgr
    call_back mid node w = run_script (react mid node.timer_type node.bytes) (start_call mid node w)

    -- One round of the loop of `internal_run_timer` for the timer at the head of the list.
    unfoldable pub fire_one : ℕ → ℕ → TimerNode → TimerMgr → TimerMgr
    fire_one list mid node w =
        let called = call_back mid node w in
        if node.is_running && spent node
        then drop_timer list mid w
        else elim (called.nodes mid) [ none ↦ called | some after ↦ renew list mid after called ]

    -- The loop while the list has a head; `none` when the fuel runs out, or
    -- where the assertion on a missing node throws.
    unfoldable pub run_list : ℕ → ℕ → TimerMgr → Option TimerMgr
    run_list zero list w = none
    run_list (suc fuel) list w = elim (w.vec list) [
      | [] ↦ some w
      | mid ∷ _ ↦ elim (w.nodes mid) [
        | none ↦ none
        | some node ↦ run_list fuel list (fire_one list mid node w)
      ]
    ]

    -- `internal_run_timer`
    unfoldable pub internal_run_timer : ℕ → TimerMgr → Option TimerMgr
    internal_run_timer fuel w = run_list fuel (w.cur_tick % 256) (cascades w)

    -- The `for` of `main_loop` over the ticks that have passed.
    unfoldable pub main_loop : ℕ → ℕ → TimerMgr → Option TimerMgr
    main_loop fuel zero w = some w
    main_loop fuel (suc tick_num) w = elim (internal_run_timer fuel w) [
      | none ↦ none
      | some ran ↦ main_loop fuel tick_num (record ran { cur_tick = ran.cur_tick + 1 })
    ]
