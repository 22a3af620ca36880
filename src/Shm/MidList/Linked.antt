-- ===== src/Shm/MidList/Linked.antt =====
-- The sequence of ids that a linked list stands for.
use libev_test.Base.{occurs, ℕ, ◌<◌, ◌≤◌, ◌≡◌, ◌≢◌, ◌∙◌, arith, List, [], ◌∷◌, Option, none, some}
use libev_test.Shm.MidList.{MidNode, MidList, put, write_next, write_prev}

-- The id at either end, 0 of an empty sequence.
abbrev pub first : List ℕ → ℕ
first [] = 0
first (x ∷ xs) = x

abbrev pub last_from : ℕ → List ℕ → ℕ
last_from before [] = before
last_from before (x ∷ xs) = last_from x xs

-- Each node of the sequence links its neighbours, where `before` stands in front of it.
abbrev pub Links : (ℕ → Option MidNode) → ℕ → List ℕ → Type 0
Links nodes before [] = Unit
Links nodes before (x ∷ xs) =
    (nodes x ≡ some (record { prev_mid = before; next_mid = first xs })) × Links nodes x xs

-- The list holds these ids, each once; 0 is the id of no object.
pub record Represents (l : MidList) (xs : List ℕ) : Type 0 where
  pub heads : l.head_mid ≡ first xs
  pub tails : l.tail_mid ≡ last_from 0 xs
  pub links : Links l.nodes 0 xs
  pub once : (m : ℕ) → occurs m xs ≤ 1
  pub no_zero : l.nodes 0 ≡ none

pub put_other :
    (nodes : ℕ → Option MidNode) (mid : ℕ) (node : MidNode) (m : ℕ)
    → mid ≢ m
    → put nodes mid node m ≡ nodes m
put_other nodes mid node m ne = ground arith

pub put_self :
    (nodes : ℕ → Option MidNode) (mid : ℕ) (node : MidNode) → put nodes mid node mid ≡ some node
put_self nodes mid node = ground arith

-- Two stores that agree on a sequence.
pub Links-agree :
    (nodes nodes' : ℕ → Option MidNode) (before : ℕ) (xs : List ℕ)
    → ((m : ℕ) → 0 < occurs m xs → nodes' m ≡ nodes m)
    → Links nodes before xs
    → Links nodes' before xs
unfolding occurs
Links-agree nodes nodes' before [] same l = tt
Links-agree nodes nodes' before (x ∷ xs) same l =
    (same x (ground arith) ∙ l.0, Links-agree nodes nodes' x xs (λ m h. same m (omega arith)) l.1)

-- A write to another node.
pub write_next-other :
    (at mid : ℕ) (nodes : ℕ → Option MidNode) (m : ℕ) → at ≢ m → write_next at mid nodes m ≡ nodes m
unfolding write_next
write_next-other at mid nodes m ne = ground arith

pub write_prev-other :
    (at mid : ℕ) (nodes : ℕ → Option MidNode) (m : ℕ) → at ≢ m → write_prev at mid nodes m ≡ nodes m
unfolding write_prev
write_prev-other at mid nodes m ne = ground arith

pub write_next_self :
    (at mid : ℕ) (nodes : ℕ → Option MidNode) (node : MidNode)
    → nodes at ≡ some node
    → write_next at mid nodes at ≡ some (record node { next_mid = mid })
unfolding write_next
write_next_self at mid nodes node h = rw (h, write_next) (put_self nodes at _)

pub write_prev_self :
    (at mid : ℕ) (nodes : ℕ → Option MidNode) (node : MidNode)
    → nodes at ≡ some node
    → write_prev at mid nodes at ≡ some (record node { prev_mid = mid })
unfolding write_prev
write_prev_self at mid nodes node h = rw (h, write_prev) (put_self nodes at _)
