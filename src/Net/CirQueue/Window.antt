-- ===== src/Net/CirQueue/Window.antt =====
-- The slots that a circular queue holds, read from the head on and round the end of the array.
use libev_test.Base.{
  ℕ, zero, suc, ◌+◌, ◌-◌, ◌≤◌, ◌<◌, ◌≡◌, ◌≢◌, refl, sym, ap, ◌∙◌, arith, List, [], ◌∷◌, ◌++◌, none,
  ltb, if◌then◌else◌, length, set, get_or, get_or-set_self, get_or-set_ne,
}
use mathlib.Core.Path.{ap₂}
use libev_test.Net.CirQueue.{ElemP, advance}

-- The slot `n` places behind slot `h`.
abbrev pub slot : ℕ → ℕ → ℕ → ℕ
slot max h n = if ltb (h + n) max then h + n else h + n - max

pub slot-advance :
    (max h n : ℕ) → h < max → suc n < max → slot max (advance max h) n ≡ slot max h (suc n)
slot-advance max h n hh hn = ground arith

pub advance-slot :
    (max h n : ℕ) → h < max → n < max → advance max (slot max h n) ≡ slot max h (suc n)
advance-slot max h n hh hn = ground arith

pub slot-ne : (max h n : ℕ) → h < max → suc n < max → slot max h (suc n) ≢ h
slot-ne max h n hh hn = ground arith

pub slot-lt : (max h n : ℕ) → h < max → n ≤ max → slot max h n < max
slot-lt max h n hh hn = ground arith

abbrev pub window : List ElemP → ℕ → ℕ → ℕ → List ElemP
window buf max h zero = []
window buf max h (suc n) = get_or buf h none ∷ window buf max (advance max h) n

pub length-window : (buf : List ElemP) (max h n : ℕ) → length (window buf max h n) ≡ n
length-window buf max h zero = refl
length-window buf max h (suc n) = ap suc (length-window buf max (advance max h) n)

-- A store in the slot behind the window appends to it.
pub window-set :
    (buf : List ElemP) (max h n i : ℕ) (x : ElemP)
    → length buf ≡ max
    → h < max
    → n < max
    → i ≡ slot max h n
    → window (set buf i x) max h (suc n) ≡ window buf max h n ++ (x ∷ [])
window-set buf max h zero i x hl hh hn e =
    let e' : i ≡ h = ground arith in
    ap (λ t. t ∷ [])
      (ap (λ k. get_or (set buf i x) k none) (ground arith)
        ∙ get_or-set_self buf i x none (omega arith))
window-set buf max h (suc n) i x hl hh hn e =
    ap₂ ◌∷◌ (get_or-set_ne buf i h x none (λ d. slot-ne max h n hh hn (ground arith))) (
      window-set buf max (advance max h) n i x hl (ground arith) (omega arith)
        (ground (arith, slot-advance max h n hh hn)))

-- A store in a slot that the window has left behind does not show in it.
pub window-set_behind :
    (buf : List ElemP) (max i j n : ℕ) (x : ElemP)
    → i < max
    → suc j + n ≤ max
    → window (set buf i x) max (slot max i (suc j)) n ≡ window buf max (slot max i (suc j)) n
window-set_behind buf max i j zero x hi hn = refl
window-set_behind buf max i j (suc n) x hi hn =
    ap₂ ◌∷◌
      (get_or-set_ne buf i (slot max i (suc j)) x none
        (λ d. slot-ne max i j hi (omega arith) (ground arith)))
      (ap (λ k. window (set buf i x) max k n) step
        ∙ window-set_behind buf max i (suc j) n x hi (omega arith)
        ∙ ap (λ k. window buf max k n) (ground (arith, step)))
  where
    step : advance max (slot max i (suc j)) ≡ slot max i (suc (suc j))
    step = advance-slot max i (suc j) hi (omega arith)

-- The same behind the slot that follows.
pub window-set-advance :
    (buf : List ElemP) (max i n : ℕ) (x : ElemP)
    → i < max
    → suc n ≤ max
    → window (set buf i x) max (advance max i) n ≡ window buf max (advance max i) n
window-set-advance buf max i n x hi hn =
    ap (λ k. window (set buf i x) max k n) one
    ∙ window-set_behind buf max i 0 n x hi (omega arith)
    ∙ ap (λ k. window buf max k n) (sym one)
  where
    one : advance max i ≡ slot max i 1
    one = ground arith

-- `window` matches on its length, which the code compares with 0.
pub window_of_zero : (buf : List ElemP) (max h n : ℕ) → n ≡ 0 → window buf max h n ≡ []
window_of_zero buf max h zero e = refl
window_of_zero buf max h (suc n) e = absurd (omega arith)

pub window_of_ne_zero :
    (buf : List ElemP) (max h n : ℕ)
    → n ≢ 0
    → window buf max h n ≡ get_or buf h none ∷ window buf max (advance max h) (n - 1)
window_of_ne_zero buf max h zero p = absurd (p refl)
window_of_ne_zero buf max h (suc n) p = ap (λ k. window buf max h (suc k)) (omega arith)
