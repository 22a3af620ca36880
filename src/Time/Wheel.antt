-- ===== src/Time/Wheel.antt =====
-- xrbase/time/timer_wheel.cpp and timer_wheel.h: timers in five wheels of lists, run tick by tick.
pub mod Place
pub mod Valid
pub mod Edit
pub mod Cascade
pub mod Run
pub mod Fire
pub mod Ready
pub mod Tick
pub mod Due
pub mod Total
pub mod Calls
mod Tests
use libev_test.Base.{
  erase, ℕ, zero, suc, ◌+◌, ◌-◌, ◌*◌, ◌/◌, ◌%◌, ◌^◌, ◌<◌, ◌≡◌, Bool, true, false, not, ◌&&◌, ◌||◌,
  List, [], ◌∷◌, ◌++◌, Option, none, some, ltb, leb, ◌==◌, if◌then◌else◌, length,
}

abbrev pub u64 : ℕ
u64 = 0x10000000000000000

abbrev pub u32_max : ℕ
u32_max = 0xFFFFFFFF

-- `timer_node`. Signed fields are held as bit patterns: `expires` on 64 bits, `interval` and
-- `repeats` on 32. `lst_offset` counts list heads from the first of `tv1`.
pub record TimerNode : Type 0 where
  pub expires : ℕ
  pub lst_offset : ℕ
  pub interval : ℕ
  pub repeats : ℕ
  pub is_forever : Bool
  pub is_running : Bool
  pub timer_type : ℕ
  pub bytes : List ℕ

-- One call of a `timeout_funcs` entry: the tick, the timer, and the tick that it was due at.
pub record Callback : Type 0 where
  pub tick : ℕ
  pub mid : ℕ
  pub due : ℕ

-- `TIMER_MGR` with the nodes of the pool that are in use, and the callbacks made so far. A list of
-- timers is the sequence of its ids.
pub record TimerMgr : Type 0 where
  pub cur_tick : ℕ
  pub vec : ℕ → List ℕ
  pub nodes : ℕ → Option TimerNode
  pub timeout_funcs : ℕ → Bool
  pub calls : List Callback

-- The pool of timer nodes: `shm_mgr::alloc_x` answers with the id of a node that is not in use.
pub record NodePool : Type 0 where
  pub alloc : (ℕ → Option TimerNode) → Option ℕ
  pub alloc_fresh :
      (used : ℕ → Option TimerNode) (mid : ℕ)
      → alloc used ≡ some mid
      → (used mid ≡ none) × (0 < mid)

-- The arguments of `add`, without `to_head`.
pub record Request : Type 0 where
  pub first : ℕ
  pub interval : ℕ
  pub num : ℕ
  pub timer_type : ℕ
  pub bytes : List ℕ

-- What a callback does to the wheel, each step after the answer to the one before. It goes on after
-- an `add` that throws; one that lets the exception pass is not modelled.
pub data Script : Type 0 where
  finish : Script
  add_timer : Request → Bool → (Option ℕ → Script) → Script
  del_timer : ℕ → (Bool → Script) → Script

-- `head`, `add_head`, `add_tail` and `del_node` of shm_mid_list on sequences.
abbrev pub put : (ℕ → List ℕ) → ℕ → List ℕ → ℕ → List ℕ
put vec list mids other = if list == other then mids else vec other

abbrev pub store : (ℕ → Option TimerNode) → ℕ → Option TimerNode → ℕ → Option TimerNode
store nodes mid node other = if mid == other then node else nodes other

-- `find_handle_list`
unfoldable pub find_handle_list : ℕ → ℕ → ℕ
find_handle_list cur_tick expires =
    let idx = (expires + u64 - cur_tick) % u64 in
    if ltb idx 256
    then expires % 256
    else if ltb idx 16384
    then 256 + (expires / 256) % 64
    else if ltb idx 1048576
    then 320 + (expires / 16384) % 64
    else if ltb idx 67108864
    then 384 + (expires / 1048576) % 64
    else if ltb u32_max idx
    then 448 + ((u32_max + cur_tick) % u64 / 67108864) % 64
    else 448 + (expires / 67108864) % 64

-- The end of a list that `find_handle_list` chooses gets the timer.
unfoldable pub file : Bool → ℕ → TimerNode → TimerMgr → TimerMgr
file to_head mid node w =
    let list = find_handle_list w.cur_tick node.expires in
    record w {
      vec = put w.vec list (if to_head then mid ∷ w.vec list else w.vec list ++ mid ∷ []);
      nodes = store w.nodes mid (some (record node { lst_offset = list }));
    }

-- `del_node` and `free_x`
unfoldable pub drop_timer : ℕ → ℕ → TimerMgr → TimerMgr
drop_timer list mid w = record w {
  vec = put w.vec list (erase mid (w.vec list));
  nodes = store w.nodes mid none;
}

-- The walk of `cascade` over the timers of a list. A missing node, which no list of a valid wheel
-- has, breaks it off; the assertion then throws.
unfoldable pub refile : List ℕ → TimerMgr → TimerMgr
refile [] w = w
refile (mid ∷ mids) w = elim (w.nodes mid) [
  | none ↦ w
  | some node ↦ refile mids (file false mid node w)
]

unfoldable pub cascade : ℕ → TimerMgr → TimerMgr
cascade list w = let moved = refile (w.vec list) w in record moved { vec = put moved.vec list [] }

-- The cascades at the start of `internal_run_timer`.
unfoldable pub cascades : TimerMgr → TimerMgr
cascades w =
    let t = w.cur_tick in
    let w2 = cascade (256 + (t / 256) % 64) w in
    let w3 = cascade (320 + (t / 16384) % 64) w2 in
    let w4 = cascade (384 + (t / 1048576) % 64) w3 in
    let w5 = cascade (448 + (t / 67108864) % 64) w4 in
    if not (t % 256 == 0)
    then w
    else if not ((t / 256) % 64 == 0)
    then w2
    else if not ((t / 16384) % 64 == 0)
    then w3
    else if not ((t / 1048576) % 64 == 0)
    then w4
    else w5

-- `repeats <= 0 && !is_forever`, the first as an `int32_t`.
abbrev pub spent : TimerNode → Bool
spent node = (node.repeats == 0 || leb 0x80000000 node.repeats) && not node.is_forever

-- `get_cur_ticks() + interval`, the interval with its sign extended.
abbrev pub next_expiry : ℕ → ℕ → ℕ
next_expiry cur_tick interval =
    (cur_tick + (if ltb interval 0x80000000 then interval else interval + 0xFFFFFFFF00000000)) % u64

-- The node that `add` fills in.
abbrev pub new_node : ℕ → Request → TimerNode
new_node cur_tick r = record {
  expires = (cur_tick + r.first) % u64;
  lst_offset = 0;
  interval = r.interval;
  repeats = r.num;
  is_forever = r.num == 0;
  is_running = false;
  timer_type = r.timer_type;
  bytes = r.bytes;
}

-- `set_timer_callback` with a function that is not null; none where an assertion fails, also the last
-- one, which asks for an entry that is set already.
unfoldable pub set_timer_callback : ℕ → TimerMgr → Option TimerMgr
set_timer_callback type w =
    if ltb type 1023 && w.timeout_funcs type
    then some (record w { timeout_funcs = λ t. if type == t then true else w.timeout_funcs t })
    else none

module _ (pool : NodePool) where
  -- `add`, with the id, or none where an assertion fails: `assert_retval` logs and throws.
  unfoldable pub add : Request → Bool → TimerMgr → Option ℕ × TimerMgr
  add r to_head w =
      if not (leb (length r.bytes % 0x100000000) 256)
      then (none, w)
      else if not (ltb 0 r.timer_type && ltb r.timer_type 1023)
      then (none, w)
      else if r.interval == 0 && r.num == 0
      then (none, w)
      else if not (w.timeout_funcs r.timer_type)
      then (none, w)
      else elim (pool.alloc w.nodes) [
        | none ↦ (none, w)
        | some mid ↦ (some mid, file to_head mid (new_node w.cur_tick r) w)
      ]
