-- ===== src/Shm/MidList/Refine.antt =====
-- shm_mid_list.cpp as a sequence of ids.
use libev_test.Base.{
  erase, occurs, ℕ, ◌<◌, ◌≤◌, ◌≡◌, ◌≢◌, refl, sym, ap, ◌∙◌, arith, Bool, true, false, List, [], ◌∷◌,
  Option, none, some, ◌==◌, if◌then◌else◌, ==_iff, Bool-cases, Option-cases, inl, inr,
}
use libev_test.Shm.MidList.{
  MidNode, MidList, put, write_next, write_prev, add_head, add_tail, del_node,
}
use libev_test.Shm.MidList.Linked.{first, last_from, Links, Represents}
use libev_test.Shm.MidList.Add.{object_ne_zero}
use libev_test.Shm.MidList.Add.Tail.{first-ne-last}
use libev_test.Shm.MidList.Del.{link, Links-erase, occurs-erase_le, link_eq}

abbrev pub is_some : Option MidNode → Bool
is_some none = false
is_some (some node) = true

ne_test : (a b : ℕ) → a ≢ b → (a == b) ≡ false
ne_test a b h = ground arith

none_of : (o : Option MidNode) → is_some o ≡ false → o ≡ none
none_of none h = refl
none_of (some node) h = cc

-- No write makes or removes an object.
put-is_some :
    (nodes : ℕ → Option MidNode) (mid : ℕ) (node : MidNode) (m : ℕ)
    → is_some (nodes mid) ≡ true
    → is_some (put nodes mid node m) ≡ is_some (nodes m)
put-is_some nodes mid node m h = elim (Bool-cases (mid == m)) [
  | inl e ↦ rw e (sym h ∙ ap (λ k. is_some (nodes k)) ((==_iff mid m).0 e))
  | inr e ↦ rw e refl
]

write_next-is_some :
    (at mid : ℕ) (nodes : ℕ → Option MidNode) (m : ℕ)
    → is_some (write_next at mid nodes m) ≡ is_some (nodes m)
unfolding write_next
write_next-is_some at mid nodes m = elim (Option-cases (nodes at)) [
  | inl e ↦ rw (e, write_next) refl
  | inr (node, e) ↦ rw (e, write_next) (put-is_some nodes at _ m (rw e refl))
]

write_prev-is_some :
    (at mid : ℕ) (nodes : ℕ → Option MidNode) (m : ℕ)
    → is_some (write_prev at mid nodes m) ≡ is_some (nodes m)
unfolding write_prev
write_prev-is_some at mid nodes m = elim (Option-cases (nodes at)) [
  | inl e ↦ rw (e, write_prev) refl
  | inr (node, e) ↦ rw (e, write_prev) (put-is_some nodes at _ m (rw e refl))
]

-- What is in the sequence has a node.
listed_node :
    (nodes : ℕ → Option MidNode) (before : ℕ) (xs : List ℕ) (m : ℕ)
    → Links nodes before xs
    → 0 < occurs m xs
    → (p : ℕ) × (n : ℕ) × (nodes m ≡ some (link p n))
unfolding occurs
listed_node nodes before [] m links h = absurd (omega arith)
listed_node nodes before (x ∷ xs) m links h = elim (Bool-cases (x == m)) [
  | inl e ↦ (before, first xs, ap nodes (sym ((==_iff x m).0 e)) ∙ links.0)
  | inr e ↦ listed_node nodes x xs m links.1 (ground arith)
]

zero_absent :
    (nodes : ℕ → Option MidNode) (before : ℕ) (xs : List ℕ)
    → Links nodes before xs
    → nodes 0 ≡ none
    → occurs 0 xs ≡ 0
unfolding occurs
zero_absent nodes before [] links h = refl
zero_absent nodes before (x ∷ xs) links h =
    let ne = object_ne_zero nodes x _ h links.0 in ground (arith, zero_absent nodes x xs links.1 h)

module _ (nodes : ℕ → Option MidNode) (obj p n : ℕ) (here : nodes obj ≡ some (link p n)) where
  last_from-erase :
      (before : ℕ) (xs : List ℕ)
      → Links nodes before xs
      → ((m : ℕ) → occurs m xs ≤ 1)
      → 0 < occurs obj xs
      → last_from before (erase obj xs)
        ≡ (if last_from before xs == obj then p else last_from before xs)
  unfolding occurs
  last_from-erase before [] links once there = absurd (omega arith)
  last_from-erase before (x ∷ []) links once there = elim (Bool-cases (x == obj)) [
    | inl e ↦
        let same = (==_iff x obj).0 e in
        rw e (sym (link_eq nodes obj p n before 0 here (ap nodes (sym same) ∙ links.0)).0)
    | inr e ↦ absurd (ground arith)
  ]
  last_from-erase before (x ∷ y ∷ xs) links once there = elim (Bool-cases (x == obj)) [
    | inl e ↦
        let ne = first-ne-last x y xs once in
        let same = (==_iff x obj).0 e in
        let other = ne_test (last_from y xs) obj (λ h. ne (same ∙ sym h)) in rw (e, other) refl
    | inr e ↦ rw e (last_from-erase x (y ∷ xs) links.1 (λ m. omega (arith, once m)) (ground arith))
  ]

  first-erase :
      (before : ℕ) (xs : List ℕ)
      → Links nodes before xs
      → 0 < occurs obj xs
      → first (erase obj xs) ≡ (if first xs == obj then n else first xs)
  unfolding occurs
  first-erase before [] links there = absurd (omega arith)
  first-erase before (x ∷ xs) links there = elim (Bool-cases (x == obj)) [
    | inl e ↦
        let same = (==_iff x obj).0 e in
        rw e (sym (link_eq nodes obj p n before (first xs) here (ap nodes (sym same) ∙ links.0)).1)
    | inr e ↦ rw e refl
  ]

pub del_node_lem :
    (obj : ℕ) (xs : List ℕ) (l : MidList)
    → Represents l xs
    → 0 < occurs obj xs
    → (l' : MidList) × (del_node obj l ≡ some l') × Represents l' (erase obj xs)
unfolding del_node
del_node_lem obj xs l r there =
    let found = listed_node l.nodes 0 xs obj r.links there in
    let p = found.0 in
    let n = found.1 in
    let out = zero_absent l.nodes 0 xs r.links r.no_zero in
    (
      record {
        head_mid = if l.head_mid == obj then n else l.head_mid;
        tail_mid = if l.tail_mid == obj then p else l.tail_mid;
        nodes = write_prev n p (write_next p n l.nodes);
      },
      rw (found.2, del_node) refl,
      record {
        heads = rw r.heads (sym (first-erase l.nodes obj p n found.2 0 xs r.links there));
        tails =
            rw r.tails (sym (last_from-erase l.nodes obj p n found.2 0 xs r.links r.once there));
        links = Links-erase l.nodes obj p n found.2 r.no_zero 0 xs r.links out r.once there;
        once = λ m. omega (arith, occurs-erase_le m obj xs, r.once m);
        no_zero = none_of (write_prev n p (write_next p n l.nodes) 0) (
            write_prev-is_some n p (write_next p n l.nodes) 0
            ∙ write_next-is_some p n l.nodes 0
            ∙ ap is_some r.no_zero);
      },
    )

-- The objects stay the same ones.
abbrev pub SameObjects : MidList → Option MidList → Type 0
SameObjects l none = Unit
SameObjects l (some l') = (m : ℕ) → is_some (l'.nodes m) ≡ is_some (l.nodes m)

pub add_head-SameObjects : (obj : ℕ) (l : MidList) → SameObjects l (add_head obj l)
unfolding add_head
add_head-SameObjects obj l = elim (Option-cases (l.nodes obj)) [
  | inl e ↦ rw (e, add_head) tt
  | inr (node, e) ↦ elim (Option-cases (l.nodes l.head_mid)) [
    | inl f ↦ rw (e, f, add_head) (λ m. put-is_some l.nodes obj _ m (rw e refl))
    | inr (old, f) ↦
        rw (e, f, add_head)
          (λ m.
            write_prev-is_some l.head_mid obj (put l.nodes obj _) m
            ∙ put-is_some l.nodes obj _ m (rw e refl))
  ]
]

pub add_tail-SameObjects : (obj : ℕ) (l : MidList) → SameObjects l (add_tail obj l)
unfolding add_tail
add_tail-SameObjects obj l = elim (Option-cases (l.nodes obj)) [
  | inl e ↦ rw (e, add_tail) tt
  | inr (node, e) ↦ elim (Option-cases (l.nodes l.tail_mid)) [
    | inl f ↦ rw (e, f, add_tail) (λ m. put-is_some l.nodes obj _ m (rw e refl))
    | inr (old, f) ↦
        rw (e, f, add_tail)
          (λ m.
            write_next-is_some l.tail_mid obj (put l.nodes obj _) m
            ∙ put-is_some l.nodes obj _ m (rw e refl))
  ]
]

pub del_node-SameObjects : (obj : ℕ) (l : MidList) → SameObjects l (del_node obj l)
unfolding del_node
del_node-SameObjects obj l = elim (Option-cases (l.nodes obj)) [
  | inl e ↦ rw (e, del_node) tt
  | inr (node, e) ↦
      rw (e, del_node)
        (λ m.
          write_prev-is_some node.next_mid node.prev_mid
            (write_next node.prev_mid node.next_mid l.nodes) m
          ∙ write_next-is_some node.prev_mid node.next_mid l.nodes m)
]
