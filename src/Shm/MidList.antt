-- ===== src/Shm/MidList.antt =====
-- xrbase/shm/shm_mid_list.cpp: a doubly linked list through ids of objects in shared memory.
pub mod Linked
pub mod Add
pub mod Del
pub mod Refine
pub mod Run
mod Tests
use libev_test.Base.{ℕ, Option, none, some, ◌==◌, if◌then◌else◌}

-- `list_mid_node`
pub record MidNode : Type 0 where
  pub prev_mid : ℕ
  pub next_mid : ℕ

-- A `head_mid_node`, with the objects that `shm_mgr::mid2ptr` finds.
pub record MidList : Type 0 where
  pub head_mid : ℕ
  pub tail_mid : ℕ
  pub nodes : ℕ → Option MidNode

abbrev pub put : (ℕ → Option MidNode) → ℕ → MidNode → ℕ → Option MidNode
put nodes mid node other = if mid == other then some node else nodes other

-- `prev->next_mid = mid` and `next->prev_mid = mid` where the pointer is not null.
unfoldable pub write_next : ℕ → ℕ → (ℕ → Option MidNode) → ℕ → Option MidNode
write_next at mid nodes = elim (nodes at) [
  | none ↦ nodes
  | some node ↦ put nodes at (record node { next_mid = mid })
]

unfoldable pub write_prev : ℕ → ℕ → (ℕ → Option MidNode) → ℕ → Option MidNode
write_prev at mid nodes = elim (nodes at) [
  | none ↦ nodes
  | some node ↦ put nodes at (record node { prev_mid = mid })
]

-- `add_head`; none where the assertion on the object throws.
unfoldable pub add_head : ℕ → MidList → Option MidList
add_head obj l = elim (l.nodes obj) [
  | none ↦ none
  | some _ ↦ elim (l.nodes l.head_mid) [
    | none ↦ some record {
      head_mid = obj;
      tail_mid = obj;
      nodes = put l.nodes obj (record { prev_mid = 0; next_mid = 0 });
    }
    | some _ ↦ some record {
      head_mid = obj;
      tail_mid = l.tail_mid;
      nodes =
          write_prev l.head_mid obj
            (put l.nodes obj (record { prev_mid = 0; next_mid = l.head_mid }));
    }
  ]
]

-- `add_tail`
unfoldable pub add_tail : ℕ → MidList → Option MidList
add_tail obj l = elim (l.nodes obj) [
  | none ↦ none
  | some _ ↦ elim (l.nodes l.tail_mid) [
    | none ↦ some record {
      head_mid = obj;
      tail_mid = obj;
      nodes = put l.nodes obj (record { prev_mid = 0; next_mid = 0 });
    }
    | some _ ↦ some record {
      head_mid = l.head_mid;
      tail_mid = obj;
      nodes =
          write_next l.tail_mid obj
            (put l.nodes obj (record { prev_mid = l.tail_mid; next_mid = 0 }));
    }
  ]
]

-- `del_node`. The writes to the neighbours do not change the node's own links.
unfoldable pub del_node : ℕ → MidList → Option MidList
del_node obj l = elim (l.nodes obj) [
  | none ↦ none
  | some node ↦ some record {
    head_mid = if l.head_mid == obj then node.next_mid else l.head_mid;
    tail_mid = if l.tail_mid == obj then node.prev_mid else l.tail_mid;
    nodes = write_prev node.next_mid node.prev_mid (write_next node.prev_mid node.next_mid l.nodes);
  }
]
