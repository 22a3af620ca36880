-- ===== src/Net/ConnPool/Valid.antt =====
-- The invariant of a connection pool.
use libev_test.Base.{
  occurs, ℕ, ◌+◌, ◌-◌, ◌<◌, ◌≤◌, ◌≡◌, refl, arith, Bool, true, false, List, [], ◌∷◌, ◌++◌, Option,
  none, some, ltb, ◌==◌, if◌then◌else◌, Bool-cases, inl, inr,
}
use libev_test.Container.FixIdAlloc.Valid as AllocValid
use libev_test.Container.FixIdAlloc.{FixIdAlloc, alloc, free}
use libev_test.Container.FixIdAlloc.Valid.{held, bit, in_range, flagged_inside, init-IsValid}
use libev_test.Net.ConnPool.{
  NetConn, NetConnPool, erase_id, insert_id, contains, erase_kill, insert_kill, has_kill,
}

unfoldable pub kills : ℕ → List (ℕ × ℕ) → ℕ
kills j [] = 0
kills j (e ∷ es) = (if e.0 == j then 1 else 0) + kills j es

-- The id that a connection holds, if there is one.
abbrev pub name_of : Option NetConn → Option ℕ
name_of none = none
name_of (some c) = some c.conn_id

-- The allocator is valid over the ids below the limit; the set of ids in use is what it has given out;
-- each of them has a connection that holds this id; and an id is killed at most once.
pub record IsValid (p : NetConnPool) : Type 0 where
  pub ids : AllocValid.IsValid p.id_alloc
  pub from_zero : p.id_alloc.beginid ≡ 0
  pub sized : p.id_alloc.nall ≡ p.max_conns
  pub limit : p.max_conns < 0xFFFF
  pub users : (j : ℕ) → occurs j p.user_ids ≡ bit (held p.id_alloc j)
  pub created : (j : ℕ) → held p.id_alloc j ≡ true → name_of (p.conns j) ≡ some j
  pub once : (j : ℕ) → kills j p.mapkill ≤ bit (ltb j p.max_conns)

pub occurs-erase_id :
    (j id : ℕ) (xs : List ℕ) → occurs j (erase_id id xs) ≡ (if id == j then 0 else occurs j xs)
unfolding occurs
occurs-erase_id j id [] = ground arith
occurs-erase_id j id (x ∷ xs) = ground (arith, occurs-erase_id j id xs)

pub erase_id-erase_id : (id : ℕ) (xs : List ℕ) → erase_id id (erase_id id xs) ≡ erase_id id xs
erase_id-erase_id id [] = refl
erase_id-erase_id id (x ∷ xs) = ground (arith, erase_id-erase_id id xs)

contains-occurs : (id : ℕ) (xs : List ℕ) → occurs id xs ≡ 0 → contains id xs ≡ false
unfolding occurs
contains-occurs id [] h = refl
contains-occurs id (x ∷ xs) h = ground (arith, contains-occurs id xs)

pub occurs-insert_id :
    (j id : ℕ) (xs : List ℕ)
    → occurs id xs ≡ 0
    → occurs j (insert_id id xs) ≡ (if id == j then 1 else 0) + occurs j xs
unfolding occurs
occurs-insert_id j id xs h = ground (arith, contains-occurs id xs h)

pub kills-erase_kill :
    (j id : ℕ) (es : List (ℕ × ℕ))
    → kills j (erase_kill id es) ≡ (if id == j then 0 else kills j es)
unfolding kills
kills-erase_kill j id [] = ground arith
kills-erase_kill j id (e ∷ es) = ground (arith, kills-erase_kill j id es)

kills-append :
    (j : ℕ) (es : List (ℕ × ℕ)) (e : ℕ × ℕ)
    → kills j (es ++ e ∷ []) ≡ kills j es + (if e.0 == j then 1 else 0)
unfolding kills
kills-append j [] e = omega arith
kills-append j (x ∷ es) e = omega (arith, kills-append j es e)

pub has_kill-kills : (id : ℕ) (es : List (ℕ × ℕ)) → has_kill id es ≡ false → kills id es ≡ 0
unfolding kills
has_kill-kills id [] h = refl
has_kill-kills id (e ∷ es) h = ground (arith, has_kill-kills id es)

pub kills-has_kill : (id : ℕ) (es : List (ℕ × ℕ)) → kills id es ≡ 0 → has_kill id es ≡ false
unfolding kills
kills-has_kill id [] h = refl
kills-has_kill id (e ∷ es) h = ground (arith, kills-has_kill id es)

pub kills-insert_kill :
    (j id time : ℕ) (es : List (ℕ × ℕ)) (n : ℕ)
    → kills j es ≤ n
    → (if id == j then 1 else 0) ≤ n
    → kills j (insert_kill id time es) ≤ n
kills-insert_kill j id time es n h k = elim (Bool-cases (has_kill id es)) [
  | inl e ↦ rw e h
  | inr e ↦ rw (e, kills-append j es (id, time)) (ground (arith, has_kill-kills id es e))
]

-- What the allocator's calls leave alone.
pub free_same :
    (a : FixIdAlloc) (id : ℕ) → ((free a id).beginid ≡ a.beginid) × ((free a id).nall ≡ a.nall)
unfolding free
free_same a id = (ground arith, ground arith)

pub alloc_same :
    (max : ℕ) (a : FixIdAlloc)
    → ((alloc max a).0.beginid ≡ a.beginid) × ((alloc max a).0.nall ≡ a.nall)
unfolding alloc
alloc_same max a = (ground arith, ground arith)

-- An id in use lies below the limit.
pub held-lt : (p : NetConnPool) (j : ℕ) → IsValid p → held p.id_alloc j ≡ true → j < p.max_conns
held-lt p j v h =
    let inside = flagged_inside p.id_alloc (j - p.id_alloc.beginid) v.ids (ground arith) in
    omega (arith, v.from_zero, v.sized, inside)

pub bit-le : (b : Bool) → bit b ≤ 1
bit-le true = omega arith
bit-le false = omega arith
