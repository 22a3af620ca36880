-- ===== src/Word/Tree/Insert.antt =====
-- xrbase/trieword/WordTree.cpp: `Insert` adds one word to those of a tree.
use libev_test.Base.{
  ℕ, ◌≡◌, refl, ap, arith, Bool, true, false, not, ◌&&◌, List, [], ◌∷◌, none, some, ◌==◌,
  if◌then◌else◌, inl, inr, Option-cases, Bool-cases,
}
use mathlib.Core.Path.{subst}
use libev_test.Word.Tree.{
  Node, Children, node, no_more, child, children, is_node, is_leaf, set_node, new_node, find_child,
  put_child, insert_branch, insert_from, insert,
}

-- The tree has that path, and a word ends there.
unfoldable pub accepts : Node → List ℕ → Bool
accepts n [] = is_node n
accepts n (c ∷ rest) = elim (find_child (children n) c) [ none ↦ false | some k ↦ accepts k rest ]

unfoldable pub word_eq : List ℕ → List ℕ → Bool
word_eq [] [] = true
word_eq [] (d ∷ v) = false
word_eq (c ∷ w) [] = false
word_eq (c ∷ w) (d ∷ v) = c == d && word_eq w v

pub find_child-put_child :
    (m : Children) (c d : ℕ) (k n : Node)
    → find_child m c ≡ some k
    → find_child (put_child m c n) d ≡ (if c == d then some n else find_child m d)
unfolding find_child put_child
find_child-put_child no_more c d k n h = cc
find_child-put_child (child e k' m) c d k n h = ground (arith, find_child-put_child m c d k n)

accepts-new_node : (c : ℕ) (v : List ℕ) → accepts (new_node c) v ≡ false
unfolding accepts find_child
accepts-new_node c [] = refl
accepts-new_node c (d ∷ v) = refl

accepts-ending : (c : ℕ) (v : List ℕ) → accepts (set_node true (new_node c)) v ≡ word_eq [] v
unfolding accepts find_child word_eq
accepts-ending c [] = refl
accepts-ending c (d ∷ v) = refl

-- A branch for a word whose first character has no node yet.
accepts-insert_branch :
    (c : ℕ) (w : List ℕ) (t : ℕ) (b : Bool) (m : Children) (v : List ℕ)
    → find_child m c ≡ none
    → accepts (insert_branch (c ∷ w) (node t b m)) v
      ≡ (if word_eq (c ∷ w) v then true else accepts (node t b m) v)
unfolding accepts word_eq find_child insert_branch
accepts-insert_branch c [] t b m [] h = ground arith
accepts-insert_branch c [] t b m (d ∷ v) h = ground (arith, accepts-ending c v)
accepts-insert_branch c (e ∷ w) t b m [] h = ground arith
accepts-insert_branch c (e ∷ w) t b m (d ∷ v) h =
    ground (arith, accepts-insert_branch e w c false no_more v, accepts-new_node c v)

-- Replacing a child by one that has a word more.
accepts-put_child :
    (c : ℕ) (w : List ℕ) (t : ℕ) (b : Bool) (m : Children) (k n : Node) (v : List ℕ)
    → find_child m c ≡ some k
    → ((u : List ℕ) → accepts n u ≡ (if word_eq w u then true else accepts k u))
    → accepts (node t b (put_child m c n)) v
      ≡ (if word_eq (c ∷ w) v then true else accepts (node t b m) v)
unfolding accepts word_eq
accepts-put_child c w t b m k n [] e more = refl
accepts-put_child c w t b m k n (d ∷ v) e more =
    ground (arith, find_child-put_child m c d k n, more v, ap (λ x. find_child m x) {x = c} {y = d})

-- After the insertion below a node, the tree has the paths that it had and the word.
pub accepts-insert_from :
    (w : List ℕ) (n : Node) (v : List ℕ)
    → accepts (insert_from w n) v ≡ (if word_eq w v then true else accepts n v)
unfolding accepts word_eq insert_from
accepts-insert_from [] (node t b m) [] = refl
accepts-insert_from [] (node t b m) (d ∷ v) = refl
accepts-insert_from (c ∷ w) (node t b m) v = elim (Option-cases (find_child m c)) [
  | inl e ↦ rw (e, insert_from) (accepts-insert_branch c w t b m v e)
  | inr (k, e) ↦
      rw (e, insert_from)
        (accepts-put_child c w t b m k (insert_from w k) v e (accepts-insert_from w k))
]

-- Inserting a word of one character or more adds it and nothing else.
pub accepts-insert :
    (c : ℕ) (w : List ℕ) (root : Node) (v : List ℕ)
    → accepts (insert (c ∷ w) root) v ≡ (if word_eq (c ∷ w) v then true else accepts root v)
unfolding insert
accepts-insert c w root v = accepts-insert_from (c ∷ w) root v

-- Every leaf below ends a word.
abbrev mutual
  pub IsTidy : Node → Type 0
  IsTidy (node c b m) = AreTidy m

  pub AreTidy : Children → Type 0
  AreTidy no_more = Unit
  AreTidy (child d n m) = ((is_leaf n && not (is_node n)) ≡ false) × IsTidy n × AreTidy m

pub find_child-IsTidy :
    (m : Children) (c : ℕ) (k : Node)
    → AreTidy m
    → find_child m c ≡ some k
    → ((is_leaf k && not (is_node k)) ≡ false) × IsTidy k
unfolding find_child
find_child-IsTidy no_more c k v h = cc
find_child-IsTidy (child d n m) c k v h = elim (Bool-cases (d == c)) [
  | inl e ↦
      let same : n ≡ k = ground arith in
      subst (λ x. ((is_leaf x && not (is_node x)) ≡ false) × IsTidy x) same (v.0, v.1)
  | inr e ↦ find_child-IsTidy m c k v.2 (ground arith)
]

put_child-AreTidy :
    (m : Children) (c : ℕ) (n : Node)
    → AreTidy m
    → (is_leaf n && not (is_node n)) ≡ false
    → IsTidy n
    → AreTidy (put_child m c n)
unfolding put_child
put_child-AreTidy no_more c n v l h = tt
put_child-AreTidy (child d k m) c n v l h = elim (Bool-cases (d == c)) [
  | inl e ↦ rw e (l, h, v.2)
  | inr e ↦ rw e (v.0, v.1, put_child-AreTidy m c n v.2 l h)
]

-- A node under which something was inserted is no leaf, or ends a word.
insert_branch-not_bare :
    (d : ℕ) (w : List ℕ) (c : ℕ)
    → (is_leaf (insert_branch (d ∷ w) (new_node c))
        && not (is_node (insert_branch (d ∷ w) (new_node c))))
      ≡ false
unfolding insert_branch find_child
insert_branch-not_bare d [] c = refl
insert_branch-not_bare d (e ∷ w) c = refl

insert_branch-IsTidy :
    (c : ℕ) (w : List ℕ) (t : ℕ) (b : Bool) (m : Children)
    → AreTidy m
    → find_child m c ≡ none
    → IsTidy (insert_branch (c ∷ w) (node t b m))
unfolding insert_branch
insert_branch-IsTidy c [] t b m v e = rw (e, insert_branch) (refl, tt, v)
insert_branch-IsTidy c (d ∷ w) t b m v e =
    rw (e, insert_branch)
      (
        insert_branch-not_bare d w c,
        insert_branch-IsTidy d w c false no_more tt (unfold find_child in refl),
        v,
      )

insert_from-not_bare :
    (w : List ℕ) (n : Node) → (is_leaf (insert_from w n) && not (is_node (insert_from w n))) ≡ false
unfolding insert_from insert_branch put_child find_child
insert_from-not_bare [] (node t b no_more) = refl
insert_from-not_bare [] (node t b (child d k m)) = refl
insert_from-not_bare (c ∷ []) (node t b no_more) = refl
insert_from-not_bare (c ∷ e ∷ w) (node t b no_more) = refl
insert_from-not_bare (c ∷ []) (node t b (child d k m)) = ground arith
insert_from-not_bare (c ∷ e ∷ w) (node t b (child d k m)) = ground arith

insert_from-IsTidy : (w : List ℕ) (n : Node) → IsTidy n → IsTidy (insert_from w n)
unfolding insert_from
insert_from-IsTidy [] (node t b m) v = v
insert_from-IsTidy (c ∷ w) (node t b m) v = elim (Option-cases (find_child m c)) [
  | inl e ↦ rw (e, insert_from) (insert_branch-IsTidy c w t b m v e)
  | inr (k, e) ↦
      rw (e, insert_from)
        (put_child-AreTidy m c (insert_from w k) v (insert_from-not_bare w k)
          (insert_from-IsTidy w k (find_child-IsTidy m c k v e).1))
]

pub insert-IsTidy : (w : List ℕ) (root : Node) → IsTidy root → IsTidy (insert w root)
unfolding insert
insert-IsTidy [] root v = v
insert-IsTidy (c ∷ w) root v = insert_from-IsTidy (c ∷ w) root v
