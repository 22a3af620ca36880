-- ===== src/Time/Wheel/Valid.antt =====
-- The invariant of the timer wheel, between ticks and inside one.
use libev_test.Base.{
  occurs, ℕ, ◌<◌, ◌≡◌, refl, arith, Bool, List, ◌∷◌, Option, none, some, ◌==◌, if◌then◌else◌,
}
use libev_test.Time.Wheel.{TimerNode, TimerMgr, Request, Script, finish, add_timer, del_timer}
use libev_test.Time.Wheel.Place.{Windows, Fits}

-- How often a timer in this state must stand in list `s`.
abbrev pub filed : Option TimerNode → ℕ → ℕ
filed none s = 0
filed (some node) s = if node.lst_offset == s then 1 else 0

-- A timer is where the windows allow it, and its interval is positive as an `int32_t`.
abbrev pub Placed : Windows → Option TimerNode → Type 0
Placed k none = Unit
Placed k (some node) = Fits k node.lst_offset node.expires × (node.interval < 0x80000000)

-- Every timer in use stands once, in the list that its `lst_offset` names; nothing else does.
pub record IsValid (k : Windows) (w : TimerMgr) : Type 0 where
  pub listed : (m s : ℕ) → occurs m (w.vec s) ≡ filed (w.nodes m) s
  pub placed : (m : ℕ) → Placed k (w.nodes m)
  pub no_zero : w.nodes 0 ≡ none

-- Between ticks all windows stand at the tick that is run next.
abbrev pub at_tick : ℕ → Windows
at_tick t = record { w1 = t; w2 = t; w3 = t; w4 = t; w5 = t }

-- Delays that fit `uint32_t`, and repeat intervals that fit `int32_t`.
abbrev pub IsSmall : Request → Type 0
IsSmall r = (r.first < 0x100000000) × (r.interval < 0x80000000)

-- A script each of whose steps is allowed, whatever the answers are.
abbrev pub Allowed : (Request → Type 0) → (ℕ → Type 0) → Script → Type 0
Allowed MayAdd MayDel finish = Unit
Allowed MayAdd MayDel (add_timer r to_head next) =
    MayAdd r × ((made : Option ℕ) → Allowed MayAdd MayDel (next made))
Allowed MayAdd MayDel (del_timer mid next) =
    MayDel mid × ((done : Bool) → Allowed MayAdd MayDel (next done))

abbrev pub Anything : ℕ → Type 0
Anything mid = Unit

-- What stands in a list is in use, and names the list.
pub filed-pos :
    (o : Option TimerNode) (s : ℕ)
    → 0 < filed o s
    → (node : TimerNode) × (o ≡ some node) × (node.lst_offset ≡ s)
filed-pos none s h = absurd (omega arith)
filed-pos (some node) s h = (node, refl, ground arith)

pub head_in_use :
    (k : Windows) (w : TimerMgr) (s mid : ℕ) (mids : List ℕ)
    → IsValid k w
    → w.vec s ≡ mid ∷ mids
    → (node : TimerNode) × (w.nodes mid ≡ some node) × (node.lst_offset ≡ s)
unfolding occurs
head_in_use k w s mid mids v e =
    filed-pos (w.nodes mid) s (ground (arith, rw e at (v.listed mid s)))
