-- ===== src/Time/Wheel/Tests.antt =====
-- The timer wheel on small inputs: the examples of its theorems.
use libev_test.Base.{
  occurs, ℕ, map, zero, suc, ◌+◌, ◌<◌, ◌≡◌, ◌≢◌, ◌⊎◌, inl, inr, refl, arith, true, false, List, [],
  ◌∷◌, Option, none, some, ◌==◌, if◌then◌else◌, Bool-cases, Option-cases,
}
use libev_test.Time.Wheel.{
  TimerNode, TimerMgr, NodePool, Request, Script, finish, add_timer, add, file, find_handle_list,
  cascades, cascade, refile, drop_timer,
}
use libev_test.Time.Wheel.Valid.{IsSmall, Allowed, Anything}
use libev_test.Time.Wheel.Run.{
  main_loop, internal_run_timer, run_list, fire_one, call_back, run_script, renew, del,
}
use libev_test.Time.Wheel.Fire.{IsPending}
use libev_test.Time.Wheel.Ready.{IsReady}
use libev_test.Time.Wheel.Tick.{main_loop-IsReady}
use libev_test.Time.Wheel.Due.{WasCalled}
use libev_test.Time.Wheel.Due.Loop.{main_loop-calls}
use libev_test.Time.Wheel.Calls.{add-IsReady, add_lem, del_lem, IsWanted, IsLocal, IsDeleted}
use libev_test.Time.Wheel.Total.{IsLater}
use libev_test.Time.Wheel.Total.Round.{AreBrisk}
use libev_test.Time.Wheel.Total.Loop.{main_loop-total}

-- A pool of eight nodes: the first that is free.
abbrev first_free : ℕ → ℕ → (ℕ → Option TimerNode) → Option ℕ
first_free zero i used = none
first_free (suc k) i used = elim (used i) [ none ↦ some i | some _ ↦ first_free k (suc i) used ]

first_free-fresh :
    (k i : ℕ) (used : ℕ → Option TimerNode) (mid : ℕ)
    → 0 < i
    → first_free k i used ≡ some mid
    → (used mid ≡ none) × (0 < mid)
first_free-fresh zero i used mid pos e = cc
first_free-fresh (suc k) i used mid pos e = elim (Option-cases (used i)) [
  | inl free ↦ let h : i ≡ mid = ground (arith, rw (free, first_free) at e) in rw (← h) (free, pos)
  | inr (node, here) ↦
      first_free-fresh k (suc i) used mid (omega arith) (rw (here, first_free) at e)
]

abbrev eight_nodes : NodePool
eight_nodes = record {
  alloc = first_free 8 1;
  alloc_fresh = λ used mid e. first_free-fresh 8 1 used mid (omega arith) e;
}

abbrev one : ℕ
one = 1

abbrev once : ℕ → ℕ → Request
once first type = record { first = first; interval = 0; num = 1; timer_type = type; bytes = [] }

-- A callback of type 1 starts a timer of type 2 for three ticks later.
abbrev react : ℕ → ℕ → List ℕ → Script
react mid type bytes = if type == 1 then add_timer (once 3 2) false (λ _. finish) else finish

abbrev no_timers : TimerMgr
no_timers = record {
  cur_tick = 500;
  vec = λ _. [];
  nodes = λ _. none;
  timeout_funcs = λ _. true;
  calls = [];
}

no_timers-IsReady : IsReady no_timers
unfolding occurs
no_timers-IsReady = record {
  valid = record { listed = λ m s. refl; placed = λ m. tt; no_zero = refl };
  punctual = tt;
}

abbrev one_timer : TimerMgr
one_timer = (add eight_nodes (once 270 1) false no_timers).1

one_timer-IsReady : IsReady one_timer
one_timer-IsReady =
    add-IsReady eight_nodes (once 270 1) false no_timers no_timers-IsReady (omega arith)
      (omega arith)

abbrev result : Option TimerMgr → TimerMgr
result none = no_timers
result (some w) = w

abbrev after : TimerMgr
after = result (main_loop eight_nodes react 5 280 one_timer)

after_runs : main_loop eight_nodes react 5 280 one_timer ≡ some after
unfolding main_loop add internal_run_timer run_list cascades file find_handle_list cascade refile
    fire_one call_back run_script renew drop_timer
after_runs = refl

after_calls : map (λ c. c.tick) after.calls ≡ 770 ∷ 773 ∷ []
unfolding main_loop add internal_run_timer run_list cascades file find_handle_list cascade refile
    fire_one call_back run_script renew drop_timer
after_calls = refl

react_spares : (mid type : ℕ) (bytes : List ℕ) → Allowed IsSmall (λ d. d ≢ 1) (react mid type bytes)
react_spares mid type bytes = elim (Bool-cases (type == 1)) [
  | inl e ↦ rw e ((omega arith, omega arith), λ made. tt)
  | inr e ↦ rw e tt
]

react-IsSmall : (mid type : ℕ) (bytes : List ℕ) → Allowed IsSmall Anything (react mid type bytes)
react-IsSmall mid type bytes = elim (Bool-cases (type == 1)) [
  | inl e ↦ rw e ((omega arith, omega arith), λ made. tt)
  | inr e ↦ rw e tt
]

react-IsLater : (mid type : ℕ) (bytes : List ℕ) → Allowed IsLater Anything (react mid type bytes)
react-IsLater mid type bytes = elim (Bool-cases (type == 1)) [
  | inl e ↦ rw e (((omega arith, omega arith), omega arith, inr refl), λ made. tt)
  | inr e ↦ rw e tt
]

one_timer-clock : one_timer.cur_tick ≡ 500
unfolding add file
one_timer-clock = refl

one_timer-IsPending : IsPending 770 (one_timer.nodes 1)
unfolding add file
one_timer-IsPending = (refl, refl)

one_timer-AreBrisk : AreBrisk one_timer
unfolding add file
one_timer-AreBrisk m = elim (Bool-cases (1 == m)) [
  | inl e ↦ rw e (refl, inr (refl, refl))
  | inr e ↦ rw e tt
]

main_loop-calls_example : WasCalled 1 770 after.calls
main_loop-calls_example =
    main_loop-calls eight_nodes react 770 1 react_spares 5 280 one_timer after
      (omega (arith, one_timer-clock)) one_timer-IsReady one_timer-IsPending
      (omega (arith, one_timer-clock)) after_runs

main_loop-IsReady_example : IsReady after × (after.cur_tick ≡ one_timer.cur_tick + 280)
main_loop-IsReady_example =
    main_loop-IsReady eight_nodes react react-IsSmall 5 280 one_timer after
      (omega (arith, one_timer-clock)) one_timer-IsReady after_runs

main_loop-total_example :
    (fuel : ℕ) × (w' : TimerMgr) × (main_loop eight_nodes react fuel 280 one_timer ≡ some w')
    × AreBrisk w'
main_loop-total_example =
    main_loop-total eight_nodes react react-IsLater 280 one_timer (omega (arith, one_timer-clock))
      one_timer-IsReady one_timer-AreBrisk

add_lem_example :
    let added = add eight_nodes (once 270 1) false no_timers in
    ((¬ IsWanted eight_nodes (once 270 1) no_timers) × (added ≡ (none, no_timers)))
    ⊎ ((wanted : IsWanted eight_nodes (once 270 1) no_timers) × (added.0 ≡ some wanted.5)
        × (no_timers.nodes wanted.5 ≡ none)
        × IsPending 770 (added.1.nodes wanted.5)
        × IsLocal wanted.5 no_timers added.1)
add_lem_example =
    add_lem eight_nodes (once 270 1) false no_timers no_timers-IsReady (omega arith)
      (omega arith, omega arith)

del_lem_example :
    ((one ≡ 0) × (del 1 one_timer ≡ (true, one_timer)))
    ⊎ ((0 < 1) × (one_timer.nodes 1 ≡ none) × (del 1 one_timer ≡ (false, one_timer)))
    ⊎ ((node : TimerNode) × (one_timer.nodes 1 ≡ some node)
        × ((del 1 one_timer).0 ≡ true)
        × IsDeleted 1 node (del 1 one_timer).1
        × IsLocal 1 one_timer (del 1 one_timer).1)
del_lem_example = del_lem 1 one_timer one_timer-IsReady
