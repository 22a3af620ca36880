-- ===== src/Time/Wheel/Cascade/Move.antt =====
-- When the windows of the wheels may move on.
use libev_test.Base.{
  occurs, ℕ, ◌+◌, ◌/◌, ◌%◌, ◌≡◌, ◌≢◌, inl, inr, sym, arith, Option, some, none, [],
}
use libev_test.Time.Wheel.{TimerMgr, TimerNode, cascade}
use libev_test.Time.Wheel.Place.{Windows, Fits, InTv1, InTv2, InTv3, InTv4, InTv5}
use libev_test.Time.Wheel.Valid.{IsValid, Placed, filed}
use libev_test.Time.Wheel.Cascade.{IsDueElsewhere, cascade-IsValid, refile-same}

-- While a tick runs, the coarse wheels are past their turn.
abbrev pub in_tick : ℕ → Windows
in_tick t = record { w1 = t; w2 = t + 1; w3 = t + 1; w4 = t + 1; w5 = t + 1 }

pub cascade-same :
    (s : ℕ) (w : TimerMgr)
    → ((cascade s w).cur_tick ≡ w.cur_tick)
      × ((cascade s w).calls ≡ w.calls)
      × ((cascade s w).vec s ≡ [])
unfolding cascade
cascade-same s w = ((refile-same (w.vec s) w).0, (refile-same (w.vec s) w).1, ground arith)

-- Windows may move on where nothing stands that only the old ones allow.
Placed-move :
    (k k' : Windows) (s : ℕ) (o : Option TimerNode)
    → ((l e : ℕ) → l ≢ s → Fits k l e → Fits k' l e)
    → filed o s ≡ 0
    → Placed k o
    → Placed k' o
Placed-move k k' s none move f p = tt
Placed-move k k' s (some node) move f p =
    (move node.lst_offset node.expires (ground arith) p.0, p.1)

pub Placed-map :
    (k k' : Windows) (o : Option TimerNode)
    → ((l e : ℕ) → Fits k l e → Fits k' l e)
    → Placed k o
    → Placed k' o
Placed-map k k' none map p = tt
Placed-map k k' (some node) map p = (map node.lst_offset node.expires p.0, p.1)

pub IsValid-move :
    (k k' : Windows) (s : ℕ) (w : TimerMgr)
    → ((l e : ℕ) → l ≢ s → Fits k l e → Fits k' l e)
    → w.vec s ≡ []
    → IsValid k w
    → IsValid k' w
unfolding occurs
IsValid-move k k' s w move empty v = record {
  listed = v.listed;
  placed = λ m. Placed-move k k' s (w.nodes m) move (sym (rw empty at (v.listed m s))) (v.placed m);
  no_zero = v.no_zero;
}

-- One cascade, after which the windows may move on.
module _ (t s : ℕ) (k k' : Windows) (w : TimerMgr) (now : w.cur_tick ≡ t) where
  pub cascade_moves :
      IsDueElsewhere k t s
      → ((l e : ℕ) → l ≢ s → Fits k l e → Fits k' l e)
      → IsValid k w
      → IsValid k' (cascade s w)
  cascade_moves moves move v =
      IsValid-move k k' s (cascade s w) move (cascade-same s w).2
        (cascade-IsValid k s t moves w now v)

abbrev pub past_tv2 : ℕ → Windows
past_tv2 t = record { w1 = t; w2 = t + 1; w3 = t; w4 = t; w5 = t }

abbrev pub past_tv3 : ℕ → Windows
past_tv3 t = record { w1 = t; w2 = t + 1; w3 = t + 1; w4 = t; w5 = t }

abbrev pub past_tv4 : ℕ → Windows
past_tv4 t = record { w1 = t; w2 = t + 1; w3 = t + 1; w4 = t + 1; w5 = t }

-- A wheel whose turn it is not, and one that has had its turn.
module _ (t l e : ℕ) where
  pub move_tv2 : l ≢ 256 + (t / 256) % 64 → InTv2 t l e → InTv2 (t + 1) l e
  move_tv2 h f = (f.0, omega arith, omega arith)

  pub move_tv3 : l ≢ 320 + (t / 16384) % 64 → InTv3 t l e → InTv3 (t + 1) l e
  move_tv3 h f = (f.0, omega arith, omega arith)

  pub move_tv4 : l ≢ 384 + (t / 1048576) % 64 → InTv4 t l e → InTv4 (t + 1) l e
  move_tv4 h f = (f.0, omega arith, omega arith)

  pub move_tv5 : l ≢ 448 + (t / 67108864) % 64 → InTv5 t l e → InTv5 (t + 1) l e
  move_tv5 h f = (f.0, omega arith, omega arith)

  pub rest_tv2 : t % 256 ≢ 0 → InTv2 t l e → InTv2 (t + 1) l e
  rest_tv2 h f = (f.0, omega arith, omega arith)

  pub rest_tv3 : t % 16384 ≢ 0 → InTv3 t l e → InTv3 (t + 1) l e
  rest_tv3 h f = (f.0, omega arith, omega arith)

  pub rest_tv4 : t % 1048576 ≢ 0 → InTv4 t l e → InTv4 (t + 1) l e
  rest_tv4 h f = (f.0, omega arith, omega arith)

  pub rest_tv5 : t % 67108864 ≢ 0 → InTv5 t l e → InTv5 (t + 1) l e
  rest_tv5 h f = (f.0, omega arith, omega arith)

-- Wheel by wheel.
pub Fits-map :
    (k k' : Windows) (l e : ℕ)
    → (InTv1 k.w1 l e → InTv1 k'.w1 l e)
    → (InTv2 k.w2 l e → InTv2 k'.w2 l e)
    → (InTv3 k.w3 l e → InTv3 k'.w3 l e)
    → (InTv4 k.w4 l e → InTv4 k'.w4 l e)
    → (InTv5 k.w5 l e → InTv5 k'.w5 l e)
    → Fits k l e
    → Fits k' l e
Fits-map k k' l e f1 f2 f3 f4 f5 fits = elim fits [
  | inl h ↦ inl (f1 h)
  | inr (inl h) ↦ inr (inl (f2 h))
  | inr (inr (inl h)) ↦ inr (inr (inl (f3 h)))
  | inr (inr (inr (inl h))) ↦ inr (inr (inr (inl (f4 h))))
  | inr (inr (inr (inr h))) ↦ inr (inr (inr (inr (f5 h))))
]
