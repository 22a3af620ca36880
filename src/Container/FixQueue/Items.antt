-- ===== src/Container/FixQueue/Items.antt =====
-- What a fix_queue holds, from the bottom on, and how its operations change it.
use libev_test.Base.{
  ℕ, zero, suc, ◌+◌, ◌-◌, ◌%◌, ◌<◌, ◌≤◌, ◌≡◌, ap, ◌∙◌, arith, false, List, [], ◌∷◌, ◌++◌, none,
  some, ltb, ◌==◌, get_or, get_elem?, set, length, length-set, Bool-cases, inl, inr, ltb→lt, ltb→le,
}
use native.Mathlib.Nat.{mod-eq_of_lt, mod-eq-sub-mod}
use libev_test.Net.CirQueue.{ElemP, advance}
use libev_test.Net.CirQueue.Window.{slot, window, window-set, slot-advance, window_of_ne_zero}
use libev_test.Container.FixQueue.{FixQueue, index, store, pop_front, empty, next}

pub record IsValid (n : ℕ) (q : FixQueue) : Type 0 where
  pub sized : length q.memory ≡ n
  pub inside : q.bottom < n
  pub bounded : q.used_count ≤ n

abbrev pub items : ℕ → FixQueue → List ElemP
items n q = window q.memory n q.bottom q.used_count

pub index_mod : (n b i : ℕ) → b < n → i ≤ n → (b + i) % n ≡ slot n b i
index_mod n b i hb hi = elim (Bool-cases (ltb (b + i) n)) [
  | inl e ↦ rw e (mod-eq_of_lt {n = b + i} {m = n} (ltb→lt (b + i) n e))
  | inr e ↦
      let past : n ≤ b + i = ltb→le (b + i) n e in
      rw e (
        mod-eq-sub-mod {n = b + i} {m = n} past
        ∙ mod-eq_of_lt {n = b + i - n} {m = n} (omega arith))
]

next_mod : (n b : ℕ) → b < n → (b + (0 + 1)) % n ≡ advance n b
next_mod n b hb = index_mod n b 1 hb (omega arith) ∙ ground arith

-- The elements by their places.
pub get_elem?-window :
    (buf : List ElemP) (max h n i : ℕ)
    → h < max
    → n ≤ max
    → i < n
    → get_elem? (window buf max h n) i ≡ some (get_or buf (slot max h i) none)
get_elem?-window buf max h zero i hh hn hi = absurd (omega arith)
get_elem?-window buf max h (suc n) zero hh hn hi =
    ap (λ k. some (get_or buf k none)) {x = h} {y = slot max h 0} (ground arith)
get_elem?-window buf max h (suc n) (suc i) hh hn hi =
    get_elem?-window buf max (advance max h) n i (ground arith) (omega arith) (omega arith)
    ∙ ap (λ k. some (get_or buf k none)) (slot-advance max h i hh (omega arith))

module _ (n : ℕ) (q : FixQueue) (v : IsValid n q) where
  pub store-items :
      (t : ElemP)
      → q.used_count < n
      → (items n (store n q t) ≡ items n q ++ t ∷ []) × IsValid n (store n q t)
  unfolding store index
  store-items t room =
      let i = (q.bottom + q.used_count) % n in
      let place : i ≡ slot n q.bottom q.used_count =
        index_mod n q.bottom q.used_count v.inside v.bounded in
      (
        ap (λ k. window (set q.memory i t) n q.bottom k) {y = suc q.used_count} (omega arith)
            ∙ window-set q.memory n q.bottom q.used_count i t v.sized v.inside room place,
        record {
          sized = length-set q.memory i t ∙ v.sized;
          inside = v.inside;
          bounded = omega arith;
        },
      )

  pub pop_front-items :
      0 < q.used_count
      → (items n q ≡ get_or q.memory q.bottom none ∷ items n (pop_front n q))
        × IsValid n (pop_front n q)
        × ((pop_front n q).used_count + 1 ≡ q.used_count)
  unfolding pop_front empty next index
  pop_front-items pos =
      let some_left : (q.used_count == 0) ≡ false = ground arith in
      rw (some_left, next_mod n q.bottom v.inside)
        (
          window_of_ne_zero q.memory n q.bottom q.used_count (omega arith),
          record { sized = v.sized; inside = ground arith; bounded = omega (arith, v.bounded) },
          omega arith,
        )
