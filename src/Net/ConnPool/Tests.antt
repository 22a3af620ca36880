-- ===== src/Net/ConnPool/Tests.antt =====
-- A connection pool of three ids: the examples of its theorems.
use libev_test.Base.{
  ℕ, ◌≡◌, ◌≢◌, ◌⊎◌, refl, arith, true, false, List, [], ◌∷◌, ◌++◌, Option, none, some,
}
use libev_test.Container.FixIdAlloc.{init, alloc, free, full, count_up}
use libev_test.Net.ConnPool.{
  NetConnPool, init_pool, new_conn, start_conn, kill_conn, on_net_conn_kill, on_net_conn_detect,
  has_kill, find_conn, del_conn, remove_each, remove_killed, place_conn, contains,
}
use libev_test.Net.ConnPool.Valid.{IsValid}
use libev_test.Net.ConnPool.Del.{IsDeleted, del_conn-IsDeleted}
use libev_test.Net.ConnPool.New.{IsOpened, new_conn_lem}
use libev_test.Net.ConnPool.Sweep.{overdue, waiting, AreSorted, on_net_conn_kill-IsDeleted}
use libev_test.Net.ConnPool.Sweep.Detect.{is_silent, silent, on_net_conn_detect-IsDeleted}
use libev_test.Net.ConnPool.Run.{
  Call, opens, starts, kills_at, Ran, call, run, run-Ran, Ran-IsValid,
}

abbrev unused : NetConnPool
unused = record {
  max_conns = 5000;
  conns = λ _. none;
  id_alloc = record { freeids = []; nall = 0; nalloc = 0; flags = []; beginid = 0 };
  user_ids = [];
  mapkill = [];
  detect_sec = 10;
}

-- Three connections, of which two are killed.
abbrev history : List Call
history =
    opens 0 ∷ opens 100 ∷ opens 0 ∷ starts 2 2 ∷ starts 20 0 ∷ kills_at 5 1 ∷ kills_at 9 0 ∷ []

init_three : (init_pool 3 unused).0 ≡ true
unfolding init_pool init
init_three = refl

abbrev started : NetConnPool
started = (init_pool 3 unused).1

-- The history, and one more connection, for which there is no id.
run-Ran_example : Ran (history ++ opens 7 ∷ []) started (run (history ++ opens 7 ∷ []) started)
run-Ran_example = run-Ran 3 unused (history ++ opens 7 ∷ []) refl refl init_three

no_room : run (history ++ opens 7 ∷ []) started ≡ none
unfolding run call init_pool init count_up new_conn alloc full place_conn start_conn kill_conn
    find_conn remove_killed remove_each del_conn free
no_room = refl

abbrev three : NetConnPool
three = elim (run history started) [ none ↦ unused | some p ↦ p ]

run-three : run history started ≡ some three
unfolding run call init_pool init count_up new_conn alloc full place_conn start_conn kill_conn
    find_conn
run-three = refl

three-IsValid : IsValid three
three-IsValid =
    Ran-IsValid history started (run history started)
      (run-Ran 3 unused history refl refl init_three) three run-three

three-mapkill : three.mapkill ≡ (1, 5) ∷ (0, 9) ∷ []
unfolding run call init_pool init count_up new_conn alloc full place_conn start_conn kill_conn
    find_conn
three-mapkill = refl

-- The pool without its kills, where a new connection is refused, and with one connection deleted.
new_conn_lem_example :
    let two = (del_conn 1 three).1 in
    ((full two.id_alloc ≡ true) × (two.mapkill ≢ []) × (new_conn 7 two ≡ none))
    ⊎ (((full two.id_alloc ≡ false) ⊎ (two.mapkill ≡ []))
        × ((r : Option ℕ × NetConnPool) × (new_conn 7 two ≡ some r) × IsOpened 7 two r))
new_conn_lem_example =
    new_conn_lem 7 (del_conn 1 three).1 (del_conn-IsDeleted 1 three three-IsValid).valid

three-AreSorted : AreSorted 0 three.mapkill
unfolding run call init_pool init count_up new_conn alloc full place_conn start_conn kill_conn
    find_conn
three-AreSorted = (omega arith, (omega arith, tt))

on_net_conn_kill-IsDeleted_example :
    IsDeleted (λ j. has_kill j (overdue 25 three.mapkill)) three (on_net_conn_kill 25 three)
    × ((on_net_conn_kill 25 three).mapkill ≡ waiting 25 three.mapkill)
on_net_conn_kill-IsDeleted_example =
    on_net_conn_kill-IsDeleted 25 three three-IsValid three-AreSorted

-- Connection 2 has received nothing since second 2.
two_is_silent : silent 25 three three.user_ids ≡ 2 ∷ []
unfolding silent is_silent run call init_pool init count_up new_conn alloc full place_conn
    start_conn kill_conn find_conn
two_is_silent = refl

on_net_conn_detect-IsDeleted_example :
    IsDeleted
      (λ j. contains j (silent 25 three three.user_ids))
      three
      (on_net_conn_detect 25 three).1
    × ((on_net_conn_detect 25 three).0 ≡ silent 25 three three.user_ids)
on_net_conn_detect-IsDeleted_example = on_net_conn_detect-IsDeleted 25 three three-IsValid
