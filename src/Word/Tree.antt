-- ===== src/Word/Tree.antt =====
-- xrbase/trieword/WordTreeNode.cpp and WordTree.cpp: words as paths in a tree. A character is its
-- number. The map of a node's children is a list with one entry for a character.
pub mod Insert
pub mod Find
mod Tests
use libev_test.Base.{
  ℕ, ◌+◌, Bool, true, false, ◌||◌, List, [], ◌∷◌, Option, none, some, ◌==◌, if◌then◌else◌,
}

mutual
  -- `WordTreeNode`: its character, whether a word ends here, its children. Nothing reads the parent.
  pub data Node : Type 0 where
    node : ℕ → Bool → Children → Node

  pub data Children : Type 0 where
    no_more : Children
    child : ℕ → Node → Children → Children

abbrev pub children : Node → Children
children (node c b m) = m

-- `IsNode`
abbrev pub is_node : Node → Bool
is_node (node c b m) = b

-- `SetNode`
abbrev pub set_node : Bool → Node → Node
set_node b (node c _ m) = node c b m

abbrev pub is_leaf : Node → Bool
is_leaf (node c b no_more) = true
is_leaf (node c b (child d n m)) = false

-- `_map.find`, and writing through the pointer that it gives.
unfoldable pub find_child : Children → ℕ → Option Node
find_child no_more c = none
find_child (child d n m) c = if d == c then some n else find_child m c

unfoldable pub put_child : Children → ℕ → Node → Children
put_child no_more c n = no_more
put_child (child d n' m) c n = if d == c then child d n m else child d n' (put_child m c n)

-- A `new WordTreeNode` with that character.
abbrev pub new_node : ℕ → Node
new_node c = node c false no_more

-- `InsertBranch`: a chain of new nodes, the last of which ends a word. The word is the keyword's rest.
unfoldable pub insert_branch : List ℕ → Node → Node
insert_branch [] parent = parent
insert_branch (c ∷ []) (node t b m) = elim (find_child m c) [
  | none ↦ node t b (child c (set_node true (new_node c)) m)
  | some _ ↦ node t b m
]
insert_branch (c ∷ d ∷ rest) (node t b m) =
    let branch = insert_branch (d ∷ rest) (new_node c) in
    elim (find_child m c) [ none ↦ node t b (child c branch m) | some _ ↦ node t b m ]

-- The private `Insert`.
unfoldable pub insert_from : List ℕ → Node → Node
insert_from [] parent = set_node true parent
insert_from (c ∷ rest) (node t b m) = elim (find_child m c) [
  | none ↦ insert_branch (c ∷ rest) (node t b m)
  | some first ↦ node t b (put_child m c (insert_from rest first))
]

-- `WordTree::Insert`, which ignores the empty word.
unfoldable pub insert : List ℕ → Node → Node
unfolding insert_from insert_branch
insert [] root = root
insert (c ∷ rest) root = insert_from (c ∷ rest) root

-- The root of a new `WordTree`.
abbrev pub empty_root : Node
empty_root = node 0 false no_more

-- The private `Find`: whether it gives a node, and `_count` afterwards.
unfoldable pub find_from : List ℕ → Node → ℕ → Bool × ℕ
find_from [] parent count = (false, 0)
find_from (c ∷ []) parent count = elim (find_child (children parent) c) [
  | none ↦ (false, 0)
  | some first ↦
      if is_leaf first || is_node first then (true, count + 1) else (is_node first, count + 1)
]
find_from (c ∷ d ∷ rest) parent count = elim (find_child (children parent) c) [
  | none ↦ (false, 0)
  | some first ↦
      let deeper = find_from (d ∷ rest) first (count + 1) in
      if is_leaf first || is_node first then (true, count + 1) else deeper
]

-- `WordTree::Find`, with `GetCount` afterwards.
unfoldable pub find : List ℕ → Node → Bool × ℕ
unfolding find_from
find keyword root = find_from keyword root 0
