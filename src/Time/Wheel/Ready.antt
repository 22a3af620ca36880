-- ===== src/Time/Wheel/Ready.antt =====
-- The state between two rounds of a tick and between two ticks.
use libev_test.Base.{
  ℕ, ◌+◌, ◌%◌, ◌<◌, ◌≡◌, inl, inr, refl, ap, arith, List, [], ◌∷◌, ◌++◌, some, ==_iff,
}
use libev_test.Time.Wheel.{TimerNode, TimerMgr, Callback, cascades}
use libev_test.Time.Wheel.Place.{Fits}
use libev_test.Time.Wheel.Valid.{IsValid, at_tick}
use libev_test.Time.Wheel.Edit.{rewrite-IsValid}
use libev_test.Time.Wheel.Run.{start_call}
use libev_test.Time.Wheel.Fire.{IsOngoing}
use libev_test.Time.Wheel.Cascade.All.{cascades-IsValid, cascades-same}
use libev_test.Time.Wheel.Cascade.Move.{in_tick, IsValid-move, Fits-map}

-- Every callback came at the tick that its timer was due at.
abbrev pub ArePunctual : List Callback → Type 0
ArePunctual [] = Unit
ArePunctual (call ∷ calls) = (call.tick ≡ call.due) × ArePunctual calls

pub ArePunctual-append :
    (calls : List Callback) (call : Callback)
    → ArePunctual calls
    → call.tick ≡ call.due
    → ArePunctual (calls ++ call ∷ [])
ArePunctual-append [] call p e = (e, tt)
ArePunctual-append (c ∷ calls) call p e = (p.0, ArePunctual-append calls call p.1 e)

-- The state between two rounds of the loop of a tick.
pub record IsMid (t : ℕ) (w : TimerMgr) : Type 0 where
  pub valid : IsValid (in_tick t) w
  pub clock : w.cur_tick ≡ t
  pub punctual : ArePunctual w.calls

-- A timer in the list of the running tick is due now.
pub due_now : (t e : ℕ) → Fits (in_tick t) (t % 256) e → e ≡ t
due_now t e fits = elim fits [
  | inl h ↦ omega arith
  | inr (inl h) ↦ absurd (omega arith)
  | inr (inr (inl h)) ↦ absurd (omega arith)
  | inr (inr (inr (inl h))) ↦ absurd (omega arith)
  | inr (inr (inr (inr h))) ↦ absurd (omega arith)
]

-- Behind the last round no timer is left that is due now.
IsMid-next :
    (t next : ℕ) (w : TimerMgr)
    → next ≡ t + 1
    → IsMid t w
    → w.vec (t % 256) ≡ []
    → IsValid (at_tick next) (record w { cur_tick = next })
IsMid-next t next w behind m e = rw behind (
    IsValid-move (in_tick t) (at_tick (t + 1)) (t % 256) (record w { cur_tick = t + 1 })
      (λ l due out.
        Fits-map (in_tick t) (at_tick (t + 1)) l due (λ f. (f.0, omega arith, omega arith)) (λ f. f)
          (λ f. f) (λ f. f) (λ f. f))
      e (record { listed = m.valid.listed; placed = m.valid.placed; no_zero = m.valid.no_zero }))

-- Between ticks: the invariant at the tick that is next, and no callback early or late so far.
pub record IsReady (w : TimerMgr) : Type 0 where
  pub valid : IsValid (at_tick w.cur_tick) w
  pub punctual : ArePunctual w.calls

pub cascades-IsMid :
    (w : TimerMgr) → w.cur_tick < 0x8000000000000000 → IsReady w → IsMid w.cur_tick (cascades w)
cascades-IsMid w small ready = record {
  valid = cascades-IsValid w small ready.valid;
  clock = (cascades-same w).0;
  punctual = rw (cascades-same w).1 ready.punctual;
}

pub IsMid-IsReady :
    (t : ℕ) (w : TimerMgr)
    → IsMid t w
    → w.vec (t % 256) ≡ []
    → IsReady (record w { cur_tick = w.cur_tick + 1 })
IsMid-IsReady t w m e = record {
  valid = IsMid-next t (w.cur_tick + 1) w (omega (arith, m.clock)) m e;
  punctual = m.punctual;
}

pub start_call-IsOngoing :
    (t mid list : ℕ) (node : TimerNode) (w : TimerMgr)
    → IsValid (in_tick t) w
    → w.cur_tick ≡ t
    → w.nodes mid ≡ some node
    → node.lst_offset ≡ list
    → IsOngoing
        (in_tick t)
        t
        mid
        list
        (w.calls ++ record { tick = t; mid = mid; due = node.expires } ∷ [])
        (start_call mid node w)
start_call-IsOngoing t mid list node w v now here in_list = record {
  valid = rewrite-IsValid (in_tick t) w mid node _ _ v here refl refl refl;
  clock = now;
  trace = ap (λ n. w.calls ++ record { tick = n; mid = mid; due = node.expires } ∷ []) now;
  running = rw ((==_iff mid mid).1 refl) (refl, in_list);
}
