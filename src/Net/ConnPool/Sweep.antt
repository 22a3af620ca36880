-- ===== src/Net/ConnPool/Sweep.antt =====
-- The timer of NetConnPool.cpp: `_OnNetConnKill` and `_OnNetConnDetect`.
pub mod Detect
use libev_test.Base.{
  ℕ, ◌+◌, ◌-◌, ◌<◌, ◌≤◌, ◌≡◌, refl, sym, ◌∙◌, ap, arith, Bool, true, false, not, ◌&&◌, ◌||◌, List,
  [], ◌∷◌, Option, none, some, ltb, leb, ◌==◌, if◌then◌else◌, ==_iff, Bool-cases, inl, inr, leb→le,
}
use libev_test.Container.FixIdAlloc.Valid.{held, bit}
use libev_test.Net.ConnPool.{
  NetConn, NetConnPool, del_conn, has_kill, erase_kill, kill_due, on_net_conn_kill,
}
use libev_test.Net.ConnPool.Valid.{IsValid, kills}
use libev_test.Net.ConnPool.Del.{IsDeleted, IsDeleted-trans, nothing-IsDeleted, del_conn-IsDeleted}

-- The entries killed 20 seconds ago or more, and the others.
unfoldable pub overdue : ℕ → List (ℕ × ℕ) → List (ℕ × ℕ)
overdue now [] = []
overdue now (e ∷ es) = if leb (e.1 + 20) now then e ∷ overdue now es else overdue now es

unfoldable pub waiting : ℕ → List (ℕ × ℕ) → List (ℕ × ℕ)
waiting now [] = []
waiting now (e ∷ es) = if leb (e.1 + 20) now then waiting now es else e ∷ waiting now es

-- The times of the kills do not fall.
abbrev pub AreSorted : ℕ → List (ℕ × ℕ) → Type 0
AreSorted from [] = Unit
AreSorted from (e ∷ es) = (from ≤ e.1) × AreSorted e.1 es

none_overdue :
    (now from : ℕ) (es : List (ℕ × ℕ))
    → AreSorted from es
    → now < from + 20
    → (overdue now es ≡ []) × (waiting now es ≡ es)
unfolding overdue waiting
none_overdue now from [] s h = (refl, refl)
none_overdue now from (e ∷ es) s h =
    let rest = none_overdue now e.1 es s.1 (omega arith) in
    (ground (arith, rest.0), ground (arith, rest.1))

erase_kill-absent : (id : ℕ) (es : List (ℕ × ℕ)) → kills id es ≡ 0 → erase_kill id es ≡ es
unfolding kills
erase_kill-absent id [] h = refl
erase_kill-absent id (e ∷ es) h = ground (arith, erase_kill-absent id es)

del_conn-mapkill :
    (id : ℕ) (es : List (ℕ × ℕ)) (p : NetConnPool)
    → kills id es ≡ 0
    → (del_conn id (record p { mapkill = es })).1.mapkill ≡ es
unfolding del_conn
del_conn-mapkill id es p h = elim (Bool-cases (ltb id p.max_conns)) [
  | inl e ↦ rw e (erase_kill-absent id es h)
  | inr e ↦ rw e refl
]

-- The first entry leaves the map before its connection is deleted.
step-IsDeleted :
    (e : ℕ × ℕ) (es : List (ℕ × ℕ)) (p : NetConnPool)
    → IsValid p
    → p.mapkill ≡ e ∷ es
    → IsDeleted (λ j. e.0 == j) p (del_conn e.0 (record p { mapkill = es })).1
      × ((del_conn e.0 (record p { mapkill = es })).1.mapkill ≡ es)
unfolding kills
step-IsDeleted e es p v first =
    let bound = λ (j : ℕ). rw first at (v.once j) in
    let p1 : NetConnPool = record p { mapkill = es } in
    let v1 : IsValid p1 = record {
      ids = v.ids;
      from_zero = v.from_zero;
      sized = v.sized;
      limit = v.limit;
      users = v.users;
      created = v.created;
      once = λ j. omega (arith, bound j);
    } in
    let d = del_conn-IsDeleted e.0 p1 v1 in
    (
      record {
        valid = d.valid;
        held_after = d.held_after;
        kills_after = λ j. d.kills_after j ∙ rw first (ground arith);
        same_limit = d.same_limit;
        kept = d.kept;
        released = d.released;
      },
      del_conn-mapkill e.0 es p (ground (arith, bound e.0)),
    )

pub kill_due-IsValid :
    (now : ℕ) (es : List (ℕ × ℕ)) (p : NetConnPool)
    → IsValid p
    → p.mapkill ≡ es
    → IsValid (kill_due now es p)
unfolding kill_due
kill_due-IsValid now [] p v all = v
kill_due-IsValid now (e ∷ es) p v all =
    let one = step-IsDeleted e es p v all in
    let p2 = (del_conn e.0 (record p { mapkill = es })).1 in
    let rest = kill_due-IsValid now es p2 one.0.valid one.1 in
    elim (Bool-cases (leb (e.1 + 20) now)) [
      | inl due ↦ rw (due, if◌then◌else◌) rest
      | inr early ↦ rw (early, if◌then◌else◌) v
    ]

kill_due-IsDeleted :
    (now from : ℕ) (es : List (ℕ × ℕ)) (p : NetConnPool)
    → IsValid p
    → p.mapkill ≡ es
    → AreSorted from es
    → IsDeleted (λ j. has_kill j (overdue now es)) p (kill_due now es p)
      × ((kill_due now es p).mapkill ≡ waiting now es)
unfolding kill_due overdue waiting
kill_due-IsDeleted now from [] p v all s = (nothing-IsDeleted p v, all)
kill_due-IsDeleted now from (e ∷ es) p v all s = elim (Bool-cases (leb (e.1 + 20) now)) [
  | inl due ↦
      let one = step-IsDeleted e es p v all in
      let p2 = (del_conn e.0 (record p { mapkill = es })).1 in
      let rest = kill_due-IsDeleted now e.1 es p2 one.0.valid one.1 s.1 in
      rw (due, if◌then◌else◌) (IsDeleted-trans one.0 rest.0 (λ j. refl), rest.1)
  | inr early ↦
      let none_due = none_overdue now e.1 es s.1 (ground arith) in
      rw (early, if◌then◌else◌, none_due.0, none_due.1) (nothing-IsDeleted p v, all)
]

-- On a valid pool whose kills are entered in the order of their times, `_OnNetConnKill` deletes the
-- connections that were killed 20 seconds ago or more, and no other: these ids are not in use and not
-- in the map of kills any more, their connections are released (no id, no type, no buffer), the other
-- entries and connections stay, and the pool stays valid.
pub on_net_conn_kill-IsDeleted :
    (now : ℕ) (p : NetConnPool)
    → IsValid p
    → AreSorted 0 p.mapkill
    → IsDeleted (λ j. has_kill j (overdue now p.mapkill)) p (on_net_conn_kill now p)
      × ((on_net_conn_kill now p).mapkill ≡ waiting now p.mapkill)
unfolding on_net_conn_kill
on_net_conn_kill-IsDeleted now p v s = kill_due-IsDeleted now 0 p.mapkill p v refl s
