-- ===== src/Net/ConnPool/Run.antt =====
-- Whole histories of a connection pool of NetConnPool.cpp.
use libev_test.Base.{
  occurs, ℕ, ◌-◌, ◌<◌, ◌≡◌, ◌≢◌, refl, sym, ap, ◌∙◌, arith, true, false, ◌||◌, List, [], ◌∷◌,
  Option, none, some, ltb, leb, ◌==◌, if◌then◌else◌, Bool-cases, Option-cases, inl, inr, ==_iff,
  get_or-replicate,
}
use mathlib.Core.Path.{subst}
use mathlib.Core.Option.{some-injective}
use libev_test.Container.FixIdAlloc.Valid.{held, bit, init-IsValid}
use libev_test.Container.FixIdAlloc.{FixIdAlloc, init, full}
use libev_test.Net.ConnPool.{
  NetConn, NetConnPool, init_pool, new_conn, del_conn, start_conn, kill_conn, on_net_conn_kill,
  on_net_conn_detect, write_conn, find_conn, invalid_conn_oid,
}
use libev_test.Net.ConnPool.Valid.{IsValid, kills, name_of, kills-insert_kill}
use libev_test.Net.ConnPool.Del.{del_conn-IsDeleted}
use libev_test.Net.ConnPool.New.{IsOpened, new_conn_lem}
use libev_test.Net.ConnPool.Sweep.Detect.{on_net_conn_detect-IsDeleted}
use libev_test.Net.ConnPool.Sweep.{kill_due-IsValid}

-- A call that changes the pool, with the time where the code reads the clock.
pub data Call : Type 0 where
  opens deletes : ℕ → Call
  starts kills_at : ℕ → ℕ → Call
  detects sweeps : ℕ → Call

-- A call's effect; none if its behaviour is undefined.
unfoldable pub call : Call → NetConnPool → Option NetConnPool
call (opens max_buffer) p = elim (new_conn max_buffer p) [ none ↦ none | some r ↦ some r.1 ]
call (deletes id) p = some (del_conn id p).1
call (starts now id) p = some (start_conn now id p)
call (kills_at now id) p = some (kill_conn now id p).1
call (detects now) p = some (on_net_conn_detect now p).1
call (sweeps now) p = some (on_net_conn_kill now p)

unfoldable pub run : List Call → NetConnPool → Option NetConnPool
run [] p = some p
run (c ∷ cs) p = elim (call c p) [ none ↦ none | some p' ↦ run cs p' ]

-- A connection that is there may be written, if it keeps its id.
written-created :
    (p : NetConnPool) (id j : ℕ) (c c' : NetConn)
    → IsValid p
    → p.conns id ≡ some c
    → c'.conn_id ≡ c.conn_id
    → held p.id_alloc j ≡ true
    → name_of (write_conn p.conns id (some c') j) ≡ some j
written-created p id j c c' v there same h = elim (Bool-cases (id == j)) [
  | inl e ↦
      let named : name_of (p.conns id) ≡ some j =
        subst (λ k. name_of (p.conns k) ≡ some j) (sym ((==_iff id j).0 e)) (v.created j h) in
      rw e (ap some same ∙ sym (ap name_of there) ∙ named)
  | inr e ↦ rw e (v.created j h)
]

kill_conn-IsValid : (now id : ℕ) (p : NetConnPool) → IsValid p → IsValid (kill_conn now id p).1
unfolding kill_conn find_conn
kill_conn-IsValid now id p v = elim (Bool-cases (ltb id p.max_conns)) [
  | inr e ↦ rw (e, kill_conn, find_conn) v
  | inl e ↦ elim (Option-cases (p.conns id)) [
    | inl n ↦ rw (e, n, kill_conn, find_conn) v
    | inr (c, h) ↦
        rw (e, h, kill_conn, find_conn)
          (record {
            ids = v.ids;
            from_zero = v.from_zero;
            sized = v.sized;
            limit = v.limit;
            users = v.users;
            created = λ j. written-created p id j c _ v h refl;
            once = λ j.
                kills-insert_kill j id now p.mapkill (bit (ltb j p.max_conns)) (v.once j)
                  (ground arith);
          })
  ]
]

find_conn-some :
    (id : ℕ) (p : NetConnPool) (c : NetConn) → find_conn id p ≡ some c → p.conns id ≡ some c
unfolding find_conn
find_conn-some id p c h = elim (Bool-cases (ltb id p.max_conns)) [
  | inl e ↦ rw (e, if◌then◌else◌) at h
  | inr e ↦ absurd (let no : none ≡ some c = rw (e, if◌then◌else◌) at h in cc)
]

start_conn-IsValid : (now id : ℕ) (p : NetConnPool) → IsValid p → IsValid (start_conn now id p)
unfolding start_conn
start_conn-IsValid now id p v = elim (Option-cases (find_conn id p)) [
  | inl n ↦ rw (n, start_conn) v
  | inr (c, found) ↦
      let h = find_conn-some id p c found in
      rw (found, start_conn)
        (record {
          ids = v.ids;
          from_zero = v.from_zero;
          sized = v.sized;
          limit = v.limit;
          users = v.users;
          created = λ j. written-created p id j c _ v h refl;
          once = v.once;
        })
]

on_net_conn_kill-IsValid :
    (now : ℕ) (p : NetConnPool) → IsValid p → IsValid (on_net_conn_kill now p)
unfolding on_net_conn_kill
on_net_conn_kill-IsValid now p v = kill_due-IsValid now p.mapkill p v refl

-- What a call comes to: a valid pool, or undefined behaviour of `NewConn` on a pool whose ids are all
-- in use while a connection waits for the end of its kill.
data Called (p : NetConnPool) : Call → Option NetConnPool → Type 0 where
  defined : (c : Call) (p' : NetConnPool) → IsValid p' → Called p c (some p')
  undefined :
      (max_buffer : ℕ) → full p.id_alloc ≡ true → p.mapkill ≢ [] → Called p (opens max_buffer) none

opened-IsValid :
    (max_buffer : ℕ) (p : NetConnPool) (r : Option ℕ × NetConnPool)
    → IsValid p
    → IsOpened max_buffer p r
    → IsValid r.1
opened-IsValid max_buffer p r v (inl h) = h.2.valid
opened-IsValid max_buffer p r v (inr h) = rw h.0 v

call-Called : (c : Call) (p : NetConnPool) → IsValid p → Called p c (call c p)
unfolding call
call-Called (opens max_buffer) p v = elim (new_conn_lem max_buffer p v) [
  | inl h ↦ rw (h.2, call) (undefined max_buffer h.0 h.1)
  | inr h ↦
      let (answer, e, o) = h.1 in
      rw (e, call) (defined (opens max_buffer) answer.1 (opened-IsValid max_buffer p answer v o))
]
call-Called (deletes id) p v = defined (deletes id) _ (del_conn-IsDeleted id p v).valid
call-Called (starts now id) p v = defined (starts now id) _ (start_conn-IsValid now id p v)
call-Called (kills_at now id) p v = defined (kills_at now id) _ (kill_conn-IsValid now id p v)
call-Called (detects now) p v =
    defined (detects now) _ (on_net_conn_detect-IsDeleted now p v).0.valid
call-Called (sweeps now) p v = defined (sweeps now) _ (on_net_conn_kill-IsValid now p v)

-- What a history comes to: a valid pool, or a valid pool where the next call is a `NewConn` whose
-- behaviour is undefined.
pub data Ran : List Call → NetConnPool → Option NetConnPool → Type 0 where
  finished : (p : NetConnPool) → IsValid p → Ran [] p (some p)
  stuck :
      (max_buffer : ℕ) (cs : List Call) (p : NetConnPool)
      → IsValid p
      → full p.id_alloc ≡ true
      → p.mapkill ≢ []
      → Ran (opens max_buffer ∷ cs) p none
  continued :
      (c : Call) (cs : List Call) (p p' : NetConnPool) (o : Option NetConnPool)
      → IsValid p
      → call c p ≡ some p'
      → Ran cs p' o
      → Ran (c ∷ cs) p o

Ran-Called :
    (c : Call) (cs : List Call) (p : NetConnPool) (o : Option NetConnPool)
    → IsValid p
    → Called p c o
    → call c p ≡ o
    → ((p' : NetConnPool) → IsValid p' → Ran cs p' (run cs p'))
    → Ran (c ∷ cs) p (elim o [ none ↦ none | some p' ↦ run cs p' ])
Ran-Called c cs p _ v (defined _ p' v') e rest = continued c cs p p' (run cs p') v e (rest p' v')
Ran-Called _ cs p _ v (undefined max_buffer f k) e rest = stuck max_buffer cs p v f k

run-Ran_pool : (cs : List Call) (p : NetConnPool) → IsValid p → Ran cs p (run cs p)
unfolding run
run-Ran_pool [] p v = finished p v
run-Ran_pool (c ∷ cs) p v =
    Ran-Called c cs p (call c p) v (call-Called c p v) refl (run-Ran_pool cs)

-- A history that ends has a valid pool at its end.
pub Ran-IsValid :
    (cs : List Call) (p : NetConnPool) (o : Option NetConnPool)
    → Ran cs p o
    → (q : NetConnPool) → o ≡ some q
    → IsValid q
Ran-IsValid _ _ _ (finished p v) q e = subst IsValid (some-injective p q e) v
Ran-IsValid _ _ _ (stuck max_buffer cs p v f k) q e = absurd cc
Ran-IsValid _ _ _ (continued c cs p p' o v e' h) q e = Ran-IsValid cs p' o h q e

-- A new allocator holds the ids from 0 on, and has given out nothing.
init_empty :
    (max : ℕ) (a : FixIdAlloc)
    → (init invalid_conn_oid max 0 a).0 ≡ true
    → ((init invalid_conn_oid max 0 a).1.beginid ≡ 0)
      × ((init invalid_conn_oid max 0 a).1.nall ≡ max)
      × (max < 0xFFFF)
      × ((j : ℕ) → held (init invalid_conn_oid max 0 a).1 j ≡ false)
unfolding init
init_empty max a h =
    elim (Bool-cases (max == 0 || (leb invalid_conn_oid max || leb invalid_conn_oid 0))) [
      | inl bad ↦ absurd (let no : false ≡ true = rw (bad, if◌then◌else◌) at h in cc)
      | inr good ↦
          rw (good, if◌then◌else◌)
            (refl, refl, ground arith, λ j. rw (get_or-replicate max (j - 0) false) (ground arith))
    ]

init_pool-IsValid :
    (max : ℕ) (p : NetConnPool)
    → p.user_ids ≡ []
    → p.mapkill ≡ []
    → (init_pool max p).0 ≡ true
    → IsValid (init_pool max p).1
unfolding init_pool occurs kills
init_pool-IsValid max p no_users no_kills h = elim (Bool-cases (max == 0)) [
  | inl e ↦ absurd (let no : false ≡ true = rw (e, if◌then◌else◌) at h in cc)
  | inr e ↦
      let started : (init invalid_conn_oid max 0 p.id_alloc).0 ≡ true =
        rw (e, if◌then◌else◌) at h in
      let new = init_empty max p.id_alloc started in
      rw (e, if◌then◌else◌)
        (record {
          ids = init-IsValid invalid_conn_oid max 0 p.id_alloc started;
          from_zero = new.0;
          sized = new.1;
          limit = new.2;
          users = λ j. rw (no_users, new.3 j) refl;
          created = λ j h. absurd (let no : false ≡ true = rw (new.3 j) at h in cc);
          once = λ j. rw no_kills (omega arith);
        })
]

-- An `Init` that answers true, of a pool with no user and no kill, and then any history of `NewConn`,
-- `NetConn::Init`, `DelConn`, `KillConn` and the two sweeps of the timer, with any ids and times. After
-- each call the pool is valid: the set of ids in use is what the allocator has given out, each id once;
-- each of them has a connection that holds this id; and the map of kills holds no id twice and none
-- above the limit. The history ends unless it comes to a `NewConn` while every id is in use and a
-- connection waits for the end of its kill; there the behaviour is undefined.
pub run-Ran :
    (max : ℕ) (p : NetConnPool) (cs : List Call)
    → p.user_ids ≡ []
    → p.mapkill ≡ []
    → (init_pool max p).0 ≡ true
    → Ran cs (init_pool max p).1 (run cs (init_pool max p).1)
run-Ran max p cs no_users no_kills h =
    run-Ran_pool cs (init_pool max p).1 (init_pool-IsValid max p no_users no_kills h)
