-- ===== src/Net/ConnPool/Del.antt =====
-- `DelConn` of NetConnPool.cpp takes one connection out of use.
use libev_test.Base.{
  ℕ, ◌<◌, ◌≡◌, refl, sym, arith, Bool, true, false, ◌||◌, Option, none, some, ltb, ◌==◌,
  if◌then◌else◌, Bool-cases, inl, inr, ◌∙◌,
}
use libev_test.Container.FixIdAlloc.Valid.{held}
use mathlib.Core.Path.{subst}
use libev_test.Net.Recv.{ok}
use libev_test.Container.FixIdAlloc.Free.{free-IsFreed}
use libev_test.Net.ConnPool.{NetConn, NetConnPool, release_conn, del_conn}
use libev_test.Net.ConnPool.Valid.{
  IsValid, kills, occurs-erase_id, kills-erase_kill, free_same, held-lt,
}

-- What `NetConn::Release` leaves: no connection that is there holds an id, a type or a buffer.
abbrev pub IsReleased : Option NetConn → Type 0
IsReleased none = Unit
IsReleased (some c) =
    (c.conn_id ≡ 0xFFFF)
    × (c.known ≡ false)
    × (c.has_buff ≡ false)
    × (c.max_buff_size ≡ 4194304)
    × (c.tm_last ≡ 0)
    × (c.parse_code ≡ ok)

-- The pool after the deletion of some ids: their connections are released, and the others are in use
-- as before.
pub record IsDeleted (gone : ℕ → Bool) (p p' : NetConnPool) : Type 0 where
  pub valid : IsValid p'
  pub held_after : (j : ℕ) → held p'.id_alloc j ≡ (if gone j then false else held p.id_alloc j)
  pub kills_after : (j : ℕ) → kills j p'.mapkill ≡ (if gone j then 0 else kills j p.mapkill)
  pub same_limit : p'.max_conns ≡ p.max_conns
  pub kept : (j : ℕ) → gone j ≡ false → p'.conns j ≡ p.conns j
  pub released : (j : ℕ) → gone j ≡ true → j < p.max_conns → IsReleased (p'.conns j)

-- Nothing is deleted.
pub nothing-IsDeleted : (p : NetConnPool) → IsValid p → IsDeleted (λ j. false) p p
nothing-IsDeleted p v = record {
  valid = v;
  held_after = λ j. refl;
  kills_after = λ j. refl;
  same_limit = refl;
  kept = λ j h. refl;
  released = λ j (h : false ≡ true). cc;
}

release_conn-IsReleased :
    (o : Option NetConn) → IsReleased (elim o [ none ↦ none | some c ↦ some (release_conn c) ])
release_conn-IsReleased none = tt
release_conn-IsReleased (some c) = (refl, refl, refl, refl, refl, refl)

pub del_conn-IsDeleted :
    (id : ℕ) (p : NetConnPool) → IsValid p → IsDeleted (λ j. id == j) p (del_conn id p).1
unfolding del_conn
del_conn-IsDeleted id p v = elim (Bool-cases (ltb id p.max_conns)) [
  | inr out ↦
      rw (out, if◌then◌else◌)
        (record {
          valid = v;
          held_after = λ j. ground (arith, held-lt p j v);
          kills_after = λ j. ground (arith, v.once j);
          same_limit = refl;
          kept = λ j h. refl;
          released = λ j h within. absurd (ground arith);
        })
  | inl inside ↦
      let f = free-IsFreed p.id_alloc id v.ids in
      let same = free_same p.id_alloc id in
      rw (inside, if◌then◌else◌)
        (record {
          valid = record {
            ids = f.valid;
            from_zero = same.0 ∙ v.from_zero;
            sized = same.1 ∙ v.sized;
            limit = v.limit;
            users = λ j. ground (arith, occurs-erase_id j id p.user_ids, v.users j, f.held_after j);
            created = λ j h. elim (Bool-cases (id == j)) [
              | inl e ↦ absurd (ground (arith, f.held_after j))
              | inr e ↦ rw e (v.created j (ground (arith, f.held_after j)))
            ];
            once = λ j. ground (arith, kills-erase_kill j id p.mapkill, v.once j);
          };
          held_after = f.held_after;
          kills_after = λ j. kills-erase_kill j id p.mapkill;
          same_limit = refl;
          kept = λ j h. rw h refl;
          released = λ j h within. rw h (release_conn-IsReleased (p.conns id));
        })
]

-- A deletion keeps what another one has released.
pub IsReleased-kept :
    {gone : ℕ → Bool} {p p' : NetConnPool}
    → IsDeleted gone p p'
    → (j : ℕ) → j < p.max_conns
    → IsReleased (p.conns j)
    → IsReleased (p'.conns j)
IsReleased-kept {gone} d j h e = elim (Bool-cases (gone j)) [
  | inl g ↦ d.released j g h
  | inr g ↦ subst IsReleased (sym (d.kept j g)) e
]

-- One deletion and then others.
pub IsDeleted-trans :
    {one rest both : ℕ → Bool} {p p1 p2 : NetConnPool}
    → IsDeleted one p p1
    → IsDeleted rest p1 p2
    → ((j : ℕ) → both j ≡ (one j || rest j))
    → IsDeleted both p p2
IsDeleted-trans {one} {rest} d e union = record {
  valid = e.valid;
  held_after = λ j. ground (arith, union j, d.held_after j, e.held_after j);
  kills_after = λ j. ground (arith, union j, d.kills_after j, e.kills_after j);
  same_limit = e.same_limit ∙ d.same_limit;
  kept = λ j h. e.kept j (ground (arith, union j)) ∙ d.kept j (ground (arith, union j));
  released = λ j h inside. elim (Bool-cases (rest j)) [
    | inl g ↦ e.released j g (omega (arith, d.same_limit))
    | inr g ↦
        IsReleased-kept e j (omega (arith, d.same_limit))
          (d.released j (ground (arith, union j)) inside)
  ];
}
