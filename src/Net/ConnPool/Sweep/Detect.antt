-- ===== src/Net/ConnPool/Sweep/Detect.antt =====
-- `_OnNetConnDetect` of NetConnPool.cpp deletes the connections that are silent for too long.
use libev_test.Base.{
  occurs, ℕ, ◌≤◌, ◌<◌, ◌≡◌, refl, ◌∙◌, ap, arith, Bool, true, false, List, [], ◌∷◌, none, some,
  ◌==◌, if◌then◌else◌, Bool-cases, Option-cases, inl, inr, lt→ltb,
}
use libev_test.Container.FixIdAlloc.Valid.{held, bit}
use libev_test.Net.ConnPool.{
  NetConnPool, del_conn, find_conn, contains, is_quiet, erase_id, detect_one, detect,
  on_net_conn_detect,
}
use libev_test.Net.ConnPool.Valid.{IsValid, held-lt, erase_id-erase_id}
use libev_test.Net.ConnPool.Del.{IsDeleted, IsDeleted-trans, nothing-IsDeleted, del_conn-IsDeleted}

-- Whether the connection of an id is there and silent.
unfoldable pub is_silent : ℕ → ℕ → NetConnPool → Bool
is_silent now id p = elim (find_conn id p) [ none ↦ false | some c ↦ is_quiet now p.detect_sec c ]

-- The ids of a list whose connections are silent, in its order.
unfoldable pub silent : ℕ → NetConnPool → List ℕ → List ℕ
silent now p [] = []
silent now p (id ∷ ids) = if is_silent now id p then id ∷ silent now p ids else silent now p ids

-- A deletion does not change whether another connection is silent.
module _ (now id : ℕ) (p p' : NetConnPool) (d : IsDeleted (λ j. id == j) p p')
    (same_sec : p'.detect_sec ≡ p.detect_sec) where
  is_silent-other : (j : ℕ) → (id == j) ≡ false → is_silent now j p' ≡ is_silent now j p
  unfolding is_silent find_conn
  is_silent-other j ne = ground (arith, d.same_limit, d.kept j ne, same_sec)

  silent-others : (ids : List ℕ) → occurs id ids ≡ 0 → silent now p' ids ≡ silent now p ids
  unfolding silent occurs
  silent-others [] h = refl
  silent-others (x ∷ ids) h =
      rw (is_silent-other x (ground arith), silent-others ids (ground arith)) refl

del_conn-detect_sec : (id : ℕ) (p : NetConnPool) → (del_conn id p).1.detect_sec ≡ p.detect_sec
unfolding del_conn
del_conn-detect_sec id p = ground arith

-- An id may leave the set before its connection is deleted.
del_conn-erased :
    (id : ℕ) (p : NetConnPool)
    → id < p.max_conns
    → del_conn id (record p { user_ids = erase_id id p.user_ids }) ≡ del_conn id p
unfolding del_conn
del_conn-erased id p h =
    rw (lt→ltb id p.max_conns h, if◌then◌else◌, erase_id-erase_id id p.user_ids) refl

-- A connection in use is reported and deleted if it is silent.
detect_one_lem :
    (now id : ℕ) (p : NetConnPool)
    → IsValid p
    → held p.id_alloc id ≡ true
    → detect_one now id p ≡ (if is_silent now id p then (id ∷ [], (del_conn id p).1) else ([], p))
unfolding detect_one is_silent find_conn
detect_one_lem now id p v h =
    let inside = held-lt p id v h in
    let named = v.created id h in
    let within = lt→ltb id p.max_conns inside in
    elim (Option-cases (p.conns id)) [
      | inl e ↦ absurd (let no : none ≡ some id = rw e at named in cc)
      | inr (c, e) ↦
          let same : c.conn_id ≡ id = (let both : some c.conn_id ≡ some id = rw e at named in cc) in
          rw (within, if◌then◌else◌, e, detect_one, find_conn, same, del_conn-erased id p inside)
            refl
    ]

detect-IsDeleted :
    (now : ℕ) (ids : List ℕ) (p : NetConnPool)
    → IsValid p
    → ((j : ℕ) → occurs j ids ≤ bit (held p.id_alloc j))
    → IsDeleted (λ j. contains j (silent now p ids)) p (detect now ids p).1
      × ((detect now ids p).0 ≡ silent now p ids)
unfolding detect silent occurs
detect-IsDeleted now [] p v in_use = (nothing-IsDeleted p v, refl)
detect-IsDeleted now (id ∷ ids) p v in_use =
    let taken : held p.id_alloc id ≡ true = ground (arith, in_use id) in
    elim (Bool-cases (is_silent now id p)) [
      | inl e ↦
          let one = del_conn-IsDeleted id p v in
          let p2 = (del_conn id p).1 in
          let same =
            silent-others now id p p2 one (del_conn-detect_sec id p) ids
              (ground (arith, in_use id)) in
          let rest =
            detect-IsDeleted now ids p2 one.valid
              (λ j. ground (arith, in_use j, one.held_after j)) in
          rw (detect_one_lem now id p v taken, e, if◌then◌else◌)
            (IsDeleted-trans one rest.0 (λ j. rw same refl), ap (◌∷◌ id) (rest.1 ∙ same))
      | inr e ↦
          let rest = detect-IsDeleted now ids p v (λ j. omega (arith, in_use j)) in
          rw (detect_one_lem now id p v taken, e, if◌then◌else◌) rest
    ]

-- On a valid pool `_OnNetConnDetect` reports and deletes each connection in use that has received
-- something once and nothing for the given seconds, once, in the order of the set, and no other: these
-- ids are not in use and not in the map of kills any more, their connections are released (no id, no
-- type, no buffer), and the pool stays valid.
pub on_net_conn_detect-IsDeleted :
    (now : ℕ) (p : NetConnPool)
    → IsValid p
    → IsDeleted (λ j. contains j (silent now p p.user_ids)) p (on_net_conn_detect now p).1
      × ((on_net_conn_detect now p).0 ≡ silent now p p.user_ids)
unfolding on_net_conn_detect
on_net_conn_detect-IsDeleted now p v =
    detect-IsDeleted now p.user_ids p v (λ j. omega (arith, v.users j))
