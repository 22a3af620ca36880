-- ===== src/Net/ConnPool.antt =====
-- xrbase/net/base/NetConnPool.cpp with xrbase/stl/map_list.h, and the state of NetConn.cpp that the pool
-- sets: the connections of one network thread, by id.
pub mod Valid
pub mod Del
pub mod New
pub mod Sweep
pub mod Run
mod Tests
use libev_test.Base.{
  ℕ, zero, suc, ◌+◌, ◌-◌, Bool, true, false, not, ◌&&◌, ◌||◌, List, [], ◌∷◌, ◌++◌, Option, none,
  some, ltb, leb, ◌==◌, if◌then◌else◌,
}
use libev_test.Container.FixIdAlloc.{FixIdAlloc, init, alloc, free, full}
use libev_test.Net.Recv.{ParseResult, ok, cus_kill}

abbrev pub invalid_conn_oid : ℕ
invalid_conn_oid = 0xFFFF

abbrev pub def_max_buffer : ℕ
def_max_buffer = 4194304

-- `NetConn`: its id, whether `_type` is known, whether it holds a buffer of libevent (`_pBuff`), the
-- buffer limit, the time of the last receipt and the parse code. Its counters of received bytes are
-- modelled with `io_recv_msg_x`.
pub record NetConn : Type 0 where
  pub conn_id : ℕ
  pub known : Bool
  pub has_buff : Bool
  pub max_buff_size : ℕ
  pub tm_last : ℕ
  pub parse_code : ParseResult

-- `NetConn::NetConn`
abbrev pub create_conn : ℕ → NetConn
create_conn id = record {
  conn_id = id;
  known = false;
  has_buff = false;
  max_buff_size = def_max_buffer;
  tm_last = 0;
  parse_code = ok;
}

-- `NetConn::Release`; a buffer is freed.
abbrev pub release_conn : NetConn → NetConn
release_conn c = record {
  conn_id = invalid_conn_oid;
  known = false;
  has_buff = false;
  max_buff_size = def_max_buffer;
  tm_last = 0;
  parse_code = ok;
}

-- `NetConnPool` between an `Init` that answers true and its `Release`: `conns` is the array that `Init`
-- allocates. The set of ids in use is a list in the order that its iterators take; `mapkill` is
-- a `map_list` from ids to the times of their kill, in the order of insertion.
pub record NetConnPool : Type 0 where
  pub max_conns : ℕ
  pub conns : ℕ → Option NetConn
  pub id_alloc : FixIdAlloc
  pub user_ids : List ℕ
  pub mapkill : List (ℕ × ℕ)
  pub detect_sec : ℕ

-- `std::unordered_set::erase` and `insert`
abbrev pub erase_id : ℕ → List ℕ → List ℕ
erase_id id [] = []
erase_id id (x ∷ xs) = if x == id then erase_id id xs else x ∷ erase_id id xs

abbrev pub contains : ℕ → List ℕ → Bool
contains id [] = false
contains id (x ∷ xs) = x == id || contains id xs

abbrev pub insert_id : ℕ → List ℕ → List ℕ
insert_id id xs = if contains id xs then xs else id ∷ xs

-- `map_list::erase`, `exsit` and `insert`. The ids of a `map_list` differ.
abbrev pub erase_kill : ℕ → List (ℕ × ℕ) → List (ℕ × ℕ)
erase_kill id [] = []
erase_kill id (e ∷ es) = if e.0 == id then erase_kill id es else e ∷ erase_kill id es

abbrev pub has_kill : ℕ → List (ℕ × ℕ) → Bool
has_kill id [] = false
has_kill id (e ∷ es) = e.0 == id || has_kill id es

abbrev pub insert_kill : ℕ → ℕ → List (ℕ × ℕ) → List (ℕ × ℕ)
insert_kill id time es = if has_kill id es then es else es ++ (id, time) ∷ []

abbrev pub write_conn : (ℕ → Option NetConn) → ℕ → Option NetConn → ℕ → Option NetConn
write_conn conns id c other = if id == other then c else conns other

-- `Init` with `_idAlloc.init`; the answer is false without a change of the allocator, or at 0.
unfoldable pub init_pool : ℕ → NetConnPool → Bool × NetConnPool
init_pool max p =
    let ids = init invalid_conn_oid max 0 p.id_alloc in
    if max == 0
    then (false, p)
    else (ids.0, record p { max_conns = max; conns = λ _. none; id_alloc = ids.1 })

-- `IsVaild`
abbrev pub is_vaild : ℕ → NetConnPool → Bool
is_vaild id p = ltb id p.max_conns

-- `FindConn`
unfoldable pub find_conn : ℕ → NetConnPool → Option NetConn
find_conn id p = if is_vaild id p then p.conns id else none

-- `DelConn`, with true for 0 and false for -1.
unfoldable pub del_conn : ℕ → NetConnPool → Bool × NetConnPool
del_conn id p =
    if is_vaild id p
    then (
      true,
      record p {
        user_ids = erase_id id p.user_ids;
        id_alloc = free p.id_alloc id;
        conns =
            write_conn p.conns id
              (elim (p.conns id) [ none ↦ none | some c ↦ some (release_conn c) ]);
        mapkill = erase_kill id p.mapkill;
      },
    )
    else (false, p)

-- The loop of `remove_killed` over the entries of the map, in some order. The outcome is none, undefined behaviour,
-- if `DelConn` has erased the entry that the iterator stands on, since the loop then advances it.
unfoldable pub remove_each : List (ℕ × ℕ) → NetConnPool → Option NetConnPool
remove_each [] p = some p
remove_each (e ∷ es) p =
    let deleted = (del_conn e.0 p).1 in
    let rest = remove_each es deleted in if has_kill e.0 deleted.mapkill then rest else none

-- `remove_killed`
unfoldable pub remove_killed : NetConnPool → Option NetConnPool
remove_killed p = elim (remove_each p.mapkill p) [
  | none ↦ none
  | some p' ↦ some (record p' { mapkill = [] })
]

-- The part of `NewConn` behind `alloc`.
unfoldable pub place_conn : ℕ → ℕ → NetConnPool → Option ℕ × NetConnPool
place_conn max_buffer id p =
    let limit = if ltb 0 max_buffer then max_buffer else def_max_buffer in
    if is_vaild id p
    then (
      some id,
      record p {
        conns = write_conn p.conns id (some (record (create_conn id) { max_buff_size = limit }));
        user_ids = insert_id id p.user_ids;
      },
    )
    else (none, p)

-- `NewConn`; the connection is known by its id. The outcome is none if the behaviour is undefined.
unfoldable pub new_conn : ℕ → NetConnPool → Option (Option ℕ × NetConnPool)
new_conn max_buffer p = elim (if full p.id_alloc then remove_killed p else some p) [
  | none ↦ none
  | some room ↦
      let given = alloc invalid_conn_oid room.id_alloc in
      some (place_conn max_buffer given.1 (record room { id_alloc = given.0 }))
]

-- `NetConn::Init` of a connection found, at a time, when the socket calls succeed.
unfoldable pub start_conn : ℕ → ℕ → NetConnPool → NetConnPool
start_conn now id p = elim (find_conn id p) [
  | none ↦ p
  | some c ↦ record p {
    conns =
        write_conn p.conns id (some (record c { known = true; has_buff = true; tm_last = now }));
  }
]

-- `KillConn` at a time, with true for 0 and false for -1.
unfoldable pub kill_conn : ℕ → ℕ → NetConnPool → Bool × NetConnPool
kill_conn now id p = elim (find_conn id p) [
  | none ↦ (false, p)
  | some c ↦ (
    true,
    record p {
      conns = write_conn p.conns id (some (record c { parse_code = cus_kill }));
      mapkill = insert_kill id now p.mapkill;
    },
  )
]

-- The test of `_OnNetConnDetect`: something was received once, and nothing for too long.
abbrev pub is_quiet : ℕ → ℕ → NetConn → Bool
is_quiet now detect_sec c =
    not (c.tm_last == 0) && leb detect_sec ((now - c.tm_last) + (c.tm_last - now))

-- `_OnNetConnDetect` at one id of the set: the connections reported, by the ids they hold, and the
-- pool. The id leaves the set, and `DelConn` is called with the id that the connection holds.
unfoldable pub detect_one : ℕ → ℕ → NetConnPool → List ℕ × NetConnPool
detect_one now id p = elim (find_conn id p) [
  | none ↦ ([], p)
  | some c ↦
      if is_quiet now p.detect_sec c
      then (c.conn_id ∷ [], (del_conn c.conn_id (record p { user_ids = erase_id id p.user_ids })).1)
      else ([], p)
]

-- `_OnNetConnDetect`, on the ids in the order of the set.
unfoldable pub detect : ℕ → List ℕ → NetConnPool → List ℕ × NetConnPool
detect now [] p = ([], p)
detect now (id ∷ ids) p =
    let one = detect_one now id p in let rest = detect now ids one.1 in (one.0 ++ rest.0, rest.1)

unfoldable pub on_net_conn_detect : ℕ → NetConnPool → List ℕ × NetConnPool
on_net_conn_detect now p = detect now p.user_ids p

-- The loop of `_OnNetConnKill` over the entries from its iterator on.
unfoldable pub kill_due : ℕ → List (ℕ × ℕ) → NetConnPool → NetConnPool
kill_due now [] p = p
kill_due now (e ∷ es) p =
    let deleted = (del_conn e.0 (record p { mapkill = es })).1 in
    let rest = kill_due now es deleted in if leb (e.1 + 20) now then rest else p

-- `_OnNetConnKill`
unfoldable pub on_net_conn_kill : ℕ → NetConnPool → NetConnPool
on_net_conn_kill now p = kill_due now p.mapkill p
