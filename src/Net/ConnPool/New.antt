-- ===== src/Net/ConnPool/New.antt =====
-- `NewConn` of NetConnPool.cpp hands out an id that is not in use.
use libev_test.Base.{
  occurs, ℕ, ◌<◌, ◌≡◌, ◌≢◌, ◌⊎◌, refl, sym, ap, arith, true, false, List, [], ◌∷◌, Option, none,
  some, ltb, ◌==◌, if◌then◌else◌, ==_iff, Bool-cases, List-cases, inl, inr, lt→ltb, le→ltb, ◌∙◌,
}
use libev_test.Container.FixIdAlloc.{alloc, full}
use libev_test.Container.FixIdAlloc.Valid.{held}
use libev_test.Container.FixIdAlloc.Alloc.{IsFresh, IsExhausted, alloc_lem}
use libev_test.Net.ConnPool.{
  NetConnPool, create_conn, place_conn, new_conn, remove_killed, remove_each, def_max_buffer,
  invalid_conn_oid, find_conn, has_kill, del_conn,
}
use libev_test.Net.ConnPool.Valid.{IsValid, kills-has_kill, occurs-insert_id, alloc_same}
use mathlib.Core.List.{cons-ne-nil}
use libev_test.Net.ConnPool.Del.{del_conn-IsDeleted}

-- A connection with a new id, in its initial state but for its limit.
pub record IsConnected (max_buffer id : ℕ) (p p' : NetConnPool) : Type 0 where
  pub valid : IsValid p'
  pub inside : id < p.max_conns
  pub free_before : held p.id_alloc id ≡ false
  pub held_after : (j : ℕ) → held p'.id_alloc j ≡ (if id == j then true else held p.id_alloc j)
  pub made :
      find_conn id p'
      ≡ some (record (create_conn id) {
        max_buff_size = if ltb 0 max_buffer then max_buffer else def_max_buffer;
      })
  pub others : (j : ℕ) → (id == j) ≡ false → p'.conns j ≡ p.conns j
  pub same_kills : p'.mapkill ≡ p.mapkill

module _ (max_buffer : ℕ) (p : NetConnPool) (v : IsValid p) where
  placed :
      let given = alloc invalid_conn_oid p.id_alloc in
      IsFresh p.id_alloc given.0 given.1
      → let r = place_conn max_buffer given.1 (record p { id_alloc = given.0 }) in
        (r.0 ≡ some given.1) × IsConnected max_buffer given.1 p r.1
  unfolding place_conn find_conn
  placed f =
      let a = alloc invalid_conn_oid p.id_alloc in
      let id = a.1 in
      let same = alloc_same invalid_conn_oid p.id_alloc in
      let inside : id < p.max_conns = ground (arith, f.ranged, v.from_zero, v.sized) in
      let absent : occurs id p.user_ids ≡ 0 = ground (arith, v.users id, f.free_before) in
      rw (lt→ltb id p.max_conns inside, if◌then◌else◌)
        (
          refl,
          record {
            valid = record {
              ids = f.valid;
              from_zero = same.0 ∙ v.from_zero;
              sized = same.1 ∙ v.sized;
              limit = v.limit;
              users = λ j. ground (
                arith,
                occurs-insert_id j id p.user_ids absent,
                v.users j,
                f.held_after j,
                f.free_before,
              );
              created = λ j h. elim (Bool-cases (id == j)) [
                | inl e ↦ rw e (ap some ((==_iff id j).0 e))
                | inr e ↦ rw e (v.created j (ground (arith, f.held_after j)))
              ];
              once = v.once;
            };
            inside = inside;
            free_before = f.free_before;
            held_after = f.held_after;
            made = rw (lt→ltb id p.max_conns inside, (==_iff id id).1 refl) refl;
            others = λ j h. rw h refl;
            same_kills = refl;
          },
        )

  refused :
      let given = alloc invalid_conn_oid p.id_alloc in
      IsExhausted invalid_conn_oid p.id_alloc given.0 given.1
      → (place_conn max_buffer given.1 (record p { id_alloc = given.0 }) ≡ (none, p))
        × ((j : ℕ) → held p.id_alloc j ≡ ltb j p.max_conns)
  unfolding place_conn
  refused e =
      let out : ltb (alloc invalid_conn_oid p.id_alloc).1 p.max_conns ≡ false =
        rw e.refused (le→ltb invalid_conn_oid p.max_conns (omega (arith, v.limit))) in
      (rw (out, e.unchanged) refl, λ j. e.all_held j ∙ rw (v.from_zero, v.sized) (ground arith))

-- What `NewConn` comes to: an id for a new connection, or no id is left.
abbrev pub IsOpened : ℕ → NetConnPool → Option ℕ × NetConnPool → Type 0
IsOpened max_buffer p r =
    ((id : ℕ) × (r.0 ≡ some id) × IsConnected max_buffer id p r.1)
    ⊎ ((r ≡ (none, p)) × ((j : ℕ) → held p.id_alloc j ≡ ltb j p.max_conns))

-- `NewConn` on a pool where it does not remove the killed connections, or where there are none.
opened :
    (max_buffer : ℕ) (p : NetConnPool)
    → IsValid p
    → IsOpened max_buffer p (
        let given = alloc invalid_conn_oid p.id_alloc in
        place_conn max_buffer given.1 (record p { id_alloc = given.0 }))
opened max_buffer p v = elim (alloc_lem invalid_conn_oid p.id_alloc v.ids) [
  | inl fresh ↦
      let made = placed max_buffer p v fresh in
      inl ((alloc invalid_conn_oid p.id_alloc).1, made.0, made.1)
  | inr used_up ↦ inr (refused max_buffer p v used_up)
]

remove_each-nil : (es : List (ℕ × ℕ)) (p : NetConnPool) → es ≡ [] → remove_each es p ≡ some p
unfolding remove_each
remove_each-nil es p h = rw h refl

remove_killed-nil : (p : NetConnPool) → p.mapkill ≡ [] → remove_killed p ≡ some p
unfolding remove_killed
remove_killed-nil p h =
    rw (remove_each-nil p.mapkill p h, remove_killed)
      (ap (λ es. some (record p { mapkill = es })) (sym h))

-- The first entry of the map is erased while the loop stands on it.
remove_each-some :
    (all : List (ℕ × ℕ)) (e : ℕ × ℕ) (es : List (ℕ × ℕ)) (p : NetConnPool)
    → all ≡ e ∷ es
    → has_kill e.0 (del_conn e.0 p).1.mapkill ≡ false
    → remove_each all p ≡ none
unfolding remove_each
remove_each-some all e es p first gone = rw (first, gone) refl

remove_killed-some :
    (e : ℕ × ℕ) (es : List (ℕ × ℕ)) (p : NetConnPool)
    → IsValid p
    → p.mapkill ≡ e ∷ es
    → remove_killed p ≡ none
unfolding remove_killed
remove_killed-some e es p v first =
    let d = del_conn-IsDeleted e.0 p v in
    let same : (e.0 == e.0) ≡ true = (==_iff e.0 e.0).1 refl in
    let gone : has_kill e.0 (del_conn e.0 p).1.mapkill ≡ false =
      kills-has_kill e.0 _ (d.kills_after e.0 ∙ rw same refl) in
    rw (remove_each-some p.mapkill e es p first gone, remove_killed) refl

abbrev opens_in : ℕ → NetConnPool → Option ℕ × NetConnPool
opens_in max_buffer p =
    let given = alloc invalid_conn_oid p.id_alloc in
    place_conn max_buffer given.1 (record p { id_alloc = given.0 })

new_conn-opens_in :
    (max_buffer : ℕ) (p : NetConnPool)
    → (full p.id_alloc ≡ false) ⊎ (p.mapkill ≡ [])
    → new_conn max_buffer p ≡ some (opens_in max_buffer p)
unfolding new_conn
new_conn-opens_in max_buffer p (inl e) = rw (e, new_conn) refl
new_conn-opens_in max_buffer p (inr h) = elim (Bool-cases (full p.id_alloc)) [
  | inr e ↦ rw (e, new_conn) refl
  | inl e ↦ rw (e, remove_killed-nil p h, new_conn) refl
]

new_conn-none :
    (max_buffer : ℕ) (p : NetConnPool)
    → full p.id_alloc ≡ true
    → remove_killed p ≡ none
    → new_conn max_buffer p ≡ none
unfolding new_conn
new_conn-none max_buffer p e h = rw (e, h, new_conn) refl

-- `NewConn` on a valid pool. If every id is in use and a connection waits for the end of its kill, the
-- behaviour is undefined, as `remove_killed` advances an iterator that `DelConn` has made invalid.
-- Otherwise it is defined: `NewConn` opens a connection with an id below the limit that was not in use
-- and is now, in its initial state with the limit asked for or the default, and changes no other; only
-- if every id is in use it answers null and changes nothing. The pool stays valid.
pub new_conn_lem :
    (max_buffer : ℕ) (p : NetConnPool)
    → IsValid p
    → ((full p.id_alloc ≡ true) × (p.mapkill ≢ []) × (new_conn max_buffer p ≡ none))
      ⊎ (((full p.id_alloc ≡ false) ⊎ (p.mapkill ≡ []))
          × ((r : Option ℕ × NetConnPool) × (new_conn max_buffer p ≡ some r)
              × IsOpened max_buffer p r))
new_conn_lem max_buffer p v = elim (Bool-cases (full p.id_alloc)) [
  | inr e ↦ inr (inl e, (_, new_conn-opens_in max_buffer p (inl e), opened max_buffer p v))
  | inl e ↦ elim (List-cases p.mapkill) [
    | inl h ↦ inr (inr h, (_, new_conn-opens_in max_buffer p (inr h), opened max_buffer p v))
    | inr (k, ks, h) ↦ inl (
      e,
      λ f. cons-ne-nil k ks (sym h ∙ f),
      new_conn-none max_buffer p e (remove_killed-some k ks p v h),
    )
  ]
]
