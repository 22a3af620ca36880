-- ===== src/Shm/MidList/Del.antt =====
-- `del_node` of shm_mid_list.cpp takes an id out of the sequence.
use libev_test.Base.{
  erase, occurs, ℕ, ◌<◌, ◌≤◌, ◌≡◌, ◌≢◌, ◌⊎◌, refl, sym, ap, ◌∙◌, arith, List, [], ◌∷◌, Option, none,
  some, ◌==◌, ==_iff, Bool-cases, inl, inr,
}
use mathlib.Core.Path.{subst}
use libev_test.Shm.MidList.{MidNode, write_next, write_prev}
use libev_test.Shm.MidList.Linked.{
  first, Links, Links-agree, write_next-other, write_next_self, write_prev-other, write_prev_self,
}
use libev_test.Shm.MidList.Add.{object_ne_zero}

pub occurs-erase_le : (m obj : ℕ) (xs : List ℕ) → occurs m (erase obj xs) ≤ occurs m xs
unfolding occurs
occurs-erase_le m obj [] = omega arith
occurs-erase_le m obj (x ∷ xs) = ground (arith, occurs-erase_le m obj xs)

abbrev pub link : ℕ → ℕ → MidNode
link p n = record { prev_mid = p; next_mid = n }

pub link_eq :
    (nodes : ℕ → Option MidNode) (m p n p' n' : ℕ)
    → nodes m ≡ some (link p n)
    → nodes m ≡ some (link p' n')
    → (p ≡ p') × (n ≡ n')
link_eq nodes m p n p' n' h k =
    let e : some (link p n) ≡ some (link p' n') = sym h ∙ k in (ground arith, ground arith)

first_there : (xs : List ℕ) → (0 < occurs (first xs) xs) ⊎ (first xs ≡ 0)
unfolding occurs
first_there [] = inr refl
first_there (x ∷ xs) = inl (ground arith)

-- What the links of an id point at stands in the sequence, or at its ends.
neighbours :
    (nodes : ℕ → Option MidNode) (obj p n before y : ℕ) (xs : List ℕ)
    → Links nodes before (y ∷ xs)
    → 0 < occurs obj xs
    → nodes obj ≡ some (link p n)
    → (0 < occurs p (y ∷ xs)) × ((0 < occurs n (y ∷ xs)) ⊎ (n ≡ 0))
unfolding occurs
neighbours nodes obj p n before y [] links there here = absurd (omega arith)
neighbours nodes obj p n before y (x ∷ xs) links there here = elim (Bool-cases (x == obj)) [
  | inl e ↦
      let same : x ≡ obj = (==_iff x obj).0 e in
      let at_x : nodes x ≡ some (link p n) = rw same here in
      let eqs = link_eq nodes x p n y (first xs) at_x links.1.0 in
      (
        rw (eqs.0, (==_iff y y).1 refl) (omega arith),
        elim (first_there xs) [
          | inl h ↦
              let found : 0 < occurs n xs = subst (λ k. 0 < occurs k xs) (sym eqs.1) h in
              inl (omega (arith, found))
          | inr h ↦ inr (eqs.1 ∙ h)
        ],
      )
  | inr e ↦
      let rest = neighbours nodes obj p n y x xs links.1 (ground arith) here in
      (omega (arith, rest.0), elim rest.1 [ inl h ↦ inl (omega arith) | inr h ↦ inr h ])
]

module _ (nodes : ℕ → Option MidNode) (obj p n : ℕ) (here : nodes obj ≡ some (link p n))
    (no_zero : nodes 0 ≡ none) where
  -- The store behind `del_node`.
  abbrev unlinked : ℕ → Option MidNode
  unlinked = write_prev n p (write_next p n nodes)

  unlinked-other : (m : ℕ) → n ≢ m → p ≢ m → unlinked m ≡ nodes m
  unlinked-other m not_n not_p =
      write_prev-other n p (write_next p n nodes) m not_n ∙ write_next-other p n nodes m not_p

  -- Behind the id: its follower is linked to what stood before it.
  Links-behind :
      (before : ℕ) (xs : List ℕ)
      → p ≡ before
      → n ≡ first xs
      → Links nodes obj xs
      → occurs before xs ≡ 0
      → ((m : ℕ) → occurs m xs ≤ 1)
      → Links unlinked before xs
  unfolding occurs
  Links-behind before [] at_p at_n links out once = tt
  Links-behind before (x ∷ xs) at_p at_n links out once =
      let other : before ≢ x = ground arith in
      let old = write_next-other p n nodes x (λ e. other (sym at_p ∙ e)) ∙ links.0 in
      (
        ap unlinked (sym at_n)
            ∙ write_prev_self n p (write_next p n nodes) (link obj (first xs))
                (ap (write_next p n nodes) at_n ∙ old)
            ∙ ap (λ k. some (link k (first xs))) at_p,
        Links-agree nodes unlinked x xs
            (λ m h. let one = once m in unlinked-other m (λ e. ground arith) (λ e. ground arith))
            links.1,
      )

  -- A neighbour of the id in a sequence is none of the ids outside it.
  apart_from :
      (m x : ℕ) (xs : List ℕ) (node : MidNode)
      → (0 < occurs m xs) ⊎ (m ≡ 0)
      → occurs x xs ≡ 0
      → nodes x ≡ some node
      → m ≢ x
  apart_from m x xs node where_m out at_x e = elim where_m [
    | inl h ↦ absurd (omega (arith, h, out, ap (λ k. occurs k xs) e))
    | inr h ↦ object_ne_zero nodes x node no_zero at_x (sym h ∙ e)
  ]

  -- The links of an id before it.
  link_before :
      (before x y : ℕ) (xs : List ℕ)
      → Links nodes before (x ∷ y ∷ xs)
      → occurs x (y ∷ xs) ≡ 0
      → 0 < occurs obj (y ∷ xs)
      → unlinked x ≡ some (link before (first (erase obj (y ∷ xs))))
  unfolding occurs
  link_before before x y xs links out there = elim (Bool-cases (y == obj)) [
    | inl e ↦
        let same = (==_iff y obj).0 e in
        let eqs = link_eq nodes obj p n x (first xs) here (ap nodes (sym same) ∙ links.1.0) in
        let not_n : n ≢ x = λ h.
          apart_from (first xs) x xs _ (first_there xs) (omega (arith, out)) links.0
            (sym eqs.1 ∙ h) in
        rw e (
          write_prev-other n p (write_next p n nodes) x not_n
          ∙ ap (write_next p n nodes) (sym eqs.0)
          ∙ write_next_self p n nodes (link before y) (ap nodes eqs.0 ∙ links.0)
          ∙ ap (λ k. some (link before k)) eqs.1)
    | inr e ↦
        let near = neighbours nodes obj p n x y xs links.1 (ground arith) here in
        rw e (
          unlinked-other x (apart_from n x (y ∷ xs) _ near.1 out links.0)
            (apart_from p x (y ∷ xs) _ (inl near.0) out links.0)
          ∙ links.0)
  ]

  pub Links-erase :
      (before : ℕ) (xs : List ℕ)
      → Links nodes before xs
      → occurs before xs ≡ 0
      → ((m : ℕ) → occurs m xs ≤ 1)
      → 0 < occurs obj xs
      → Links unlinked before (erase obj xs)
  unfolding occurs
  Links-erase before [] links out once there = tt
  Links-erase before (x ∷ []) links out once there = elim (Bool-cases (x == obj)) [
    | inl e ↦ rw e tt
    | inr e ↦ absurd (ground arith)
  ]
  Links-erase before (x ∷ y ∷ xs) links out once there = elim (Bool-cases (x == obj)) [
    | inl e ↦
        let same = (==_iff x obj).0 e in
        let eqs = link_eq nodes obj p n before y here (ap nodes (sym same) ∙ links.0) in
        rw e (
          Links-behind before (y ∷ xs) eqs.0 eqs.1
            (subst (λ k. Links nodes k (y ∷ xs)) same links.1) (omega arith)
            (λ m. omega (arith, once m)))
    | inr e ↦
        let one = once x in
        let out_x : occurs x (y ∷ xs) ≡ 0 = ground arith in
        let left : 0 < occurs obj (y ∷ xs) = ground arith in
        rw e (
          link_before before x y xs links out_x left,
          Links-erase x (y ∷ xs) links.1 out_x (λ m. omega (arith, once m)) left,
        )
  ]
