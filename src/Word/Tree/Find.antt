-- ===== src/Word/Tree/Find.antt =====
-- xrbase/trieword/WordTree.cpp: `Find` finds the shortest word of the tree at the front of a text.
use libev_test.Base.{
  ℕ, ◌+◌, ◌≡◌, refl, sym, ap, ◌∙◌, arith, Bool, true, false, ◌||◌, List, [], ◌∷◌, Option, none,
  some, if◌then◌else◌, inl, inr, Option-cases,
}
use mathlib.Core.Path.{fun_ext}
use libev_test.Word.Tree.{
  Node, node, children, is_node, find_child, find_from, find, insert, empty_root,
}
use libev_test.Word.Tree.Insert.{
  accepts, word_eq, IsTidy, accepts-insert, insert-IsTidy, find_child-IsTidy,
}

-- The length of the shortest beginning of a text, of one character or more, that passes a test.
unfoldable pub shortest : (List ℕ → Bool) → List ℕ → Option ℕ
shortest p [] = none
shortest p (c ∷ w) =
    let rest = shortest (λ v. p (c ∷ v)) w in
    if p (c ∷ []) then some 1 else elim rest [ none ↦ none | some n ↦ some (n + 1) ]

-- A result of `Find` with its count.
abbrev pub hit : Bool × ℕ → Option ℕ
hit (true, n) = some n
hit (false, n) = none

abbrev shift : ℕ → Option ℕ → Option ℕ
shift count none = none
shift count (some n) = some (count + n)

pub shortest-none :
    (p : List ℕ → Bool) (w : List ℕ) → ((v : List ℕ) → p v ≡ false) → shortest p w ≡ none
unfolding shortest
shortest-none p [] h = refl
shortest-none p (c ∷ w) h = rw (h (c ∷ []), shortest-none (λ v. p (c ∷ v)) w (λ v. h (c ∷ v))) refl

pub shortest-ext :
    (p q : List ℕ → Bool) (w : List ℕ) → ((v : List ℕ) → p v ≡ q v) → shortest p w ≡ shortest q w
shortest-ext p q w h = ap (λ f. shortest f w) (fun_ext h)

accepts-below :
    (n first : Node) (c : ℕ) (v : List ℕ)
    → find_child (children n) c ≡ some first
    → accepts n (c ∷ v) ≡ accepts first v
unfolding accepts
accepts-below n first c v e = rw (e, accepts) refl

accepts-absent :
    (n : Node) (c : ℕ) (v : List ℕ) → find_child (children n) c ≡ none → accepts n (c ∷ v) ≡ false
unfolding accepts
accepts-absent n c v e = rw (e, accepts) refl

accepts-end : (n : Node) → accepts n [] ≡ is_node n
unfolding accepts
accepts-end n = refl

abbrev pub bump : Option ℕ → Option ℕ
bump none = none
bump (some n) = some (n + 1)

pub shortest-cons :
    (p : List ℕ → Bool) (c : ℕ) (w : List ℕ)
    → shortest p (c ∷ w) ≡ (if p (c ∷ []) then some 1 else bump (shortest (λ v. p (c ∷ v)) w))
unfolding shortest
shortest-cons p c w = ground arith

shortest-child :
    (n first : Node) (c : ℕ) (w : List ℕ)
    → find_child (children n) c ≡ some first
    → shortest (accepts n) (c ∷ w)
      ≡ (if is_node first then some 1 else bump (shortest (accepts first) w))
shortest-child n first c w e =
    shortest-cons (accepts n) c w
    ∙ ap (λ o. if accepts n (c ∷ []) then some 1 else bump o)
        (shortest-ext (λ v. accepts n (c ∷ v)) (accepts first) w (λ v. accepts-below n first c v e))
    ∙ ap (λ b. if b then some 1 else bump (shortest (accepts first) w))
        (accepts-below n first c [] e ∙ accepts-end first)

shortest-absent :
    (n : Node) (c : ℕ) (w : List ℕ)
    → find_child (children n) c ≡ none
    → shortest (accepts n) (c ∷ w) ≡ none
unfolding shortest
shortest-absent n c w e =
    rw
      (
        accepts-absent n c [] e,
        shortest-none (λ u. accepts n (c ∷ u)) w (λ u. accepts-absent n c u e),
      )
      refl

shortest-nil : (p : List ℕ → Bool) → shortest p [] ≡ none
unfolding shortest
shortest-nil p = refl

-- `Find` below a node that has counted so far.
find_from-shortest :
    (w : List ℕ) (n : Node) (count : ℕ)
    → IsTidy n
    → hit (find_from w n count) ≡ shift count (shortest (accepts n) w)
unfolding find_from
find_from-shortest [] n count v = ap (shift count) (sym (shortest-nil (accepts n)))
find_from-shortest (c ∷ []) (node t b m) count v = elim (Option-cases (find_child m c)) [
  | inl e ↦ rw (e, find_from, shortest-absent (node t b m) c [] e) refl
  | inr (first, e) ↦
      let tidy = (find_child-IsTidy m c first v e).0 in
      rw (shortest-child (node t b m) first c [] e, shortest-nil (accepts first)) ground arith
]
find_from-shortest (c ∷ d ∷ rest) (node t b m) count v = elim (Option-cases (find_child m c)) [
  | inl e ↦ rw (e, find_from, shortest-absent (node t b m) c (d ∷ rest) e) refl
  | inr (first, e) ↦
      let tidy = find_child-IsTidy m c first v e in
      let ih = find_from-shortest (d ∷ rest) first (count + 1) tidy.1 in
      rw (shortest-child (node t b m) first c (d ∷ rest) e) ground arith
]

shift-zero : (o : Option ℕ) → shift 0 o ≡ o
shift-zero none = refl
shift-zero (some n) = ap some (omega arith)

-- The words of a list inserted one after the other.
unfoldable pub load : Node → List (List ℕ) → Node
load root [] = root
load root (w ∷ ws) = load (insert w root) ws

unfoldable pub has_word : List (List ℕ) → List ℕ → Bool
has_word [] v = false
has_word (w ∷ ws) v = word_eq w v || has_word ws v

load-IsTidy : (root : Node) (ws : List (List ℕ)) → IsTidy root → IsTidy (load root ws)
unfolding load
load-IsTidy root [] v = v
load-IsTidy root (w ∷ ws) v = load-IsTidy (insert w root) ws (insert-IsTidy w root v)

insert-nil : (root : Node) → insert [] root ≡ root
unfolding insert
insert-nil root = refl

accepts-load :
    (root : Node) (ws : List (List ℕ)) (c : ℕ) (v : List ℕ)
    → accepts (load root ws) (c ∷ v) ≡ (has_word ws (c ∷ v) || accepts root (c ∷ v))
unfolding load has_word word_eq
accepts-load root [] c v = refl
accepts-load root ([] ∷ ws) c v = rw (insert-nil root, word_eq) (accepts-load root ws c v)
accepts-load root ((d ∷ w) ∷ ws) c v =
    ground (arith, accepts-load (insert (d ∷ w) root) ws c v, accepts-insert d w root (c ∷ v))

-- The test matters only at texts of one character or more.
shortest-ext_cons :
    (p q : List ℕ → Bool) (w : List ℕ)
    → ((c : ℕ) (v : List ℕ) → p (c ∷ v) ≡ q (c ∷ v))
    → shortest p w ≡ shortest q w
shortest-ext_cons p q [] h = shortest-nil p ∙ sym (shortest-nil q)
shortest-ext_cons p q (c ∷ w) h =
    shortest-cons p c w
    ∙ ap (λ b. if b then some 1 else bump (shortest (λ v. p (c ∷ v)) w)) (h c [])
    ∙ ap (λ o. if q (c ∷ []) then some 1 else bump o)
        (shortest-ext (λ v. p (c ∷ v)) (λ v. q (c ∷ v)) w (h c))
    ∙ sym (shortest-cons q c w)

accepts-empty : (c : ℕ) (v : List ℕ) → accepts empty_root (c ∷ v) ≡ false
unfolding accepts find_child
accepts-empty c v = refl

-- In a tree into which a list of words was inserted, `Find` finds something at the front of a text
-- exactly if one of the words that are not empty begins the text, and then the count is the length of
-- the shortest such word.
pub find-shortest :
    (ws : List (List ℕ)) (text : List ℕ)
    → hit (find text (load empty_root ws)) ≡ shortest (has_word ws) text
unfolding find
find-shortest ws text =
    let tree = load empty_root ws in
    find_from-shortest text tree 0 (load-IsTidy empty_root ws tt)
    ∙ shift-zero (shortest (accepts tree) text)
    ∙ shortest-ext_cons (accepts tree) (has_word ws) text
        (λ c v. accepts-load empty_root ws c v ∙ ground (arith, accepts-empty c v))
