-- ===== src/Shm/MidList/Add/Tail.antt =====
-- `add_tail` of shm_mid_list.cpp puts an id behind the sequence.
use libev_test.Base.{
  occurs, ℕ, ◌+◌, ◌<◌, ◌≤◌, ◌≡◌, ◌≢◌, refl, sym, ap, ◌∙◌, arith, List, [], ◌∷◌, ◌++◌, Option, some,
  ◌==◌, if◌then◌else◌,
}
use libev_test.Shm.MidList.{MidNode, MidList, put, write_next, add_tail}
use libev_test.Shm.MidList.Linked.{
  last_from, Links, Represents, put_other, put_self, write_next-other, write_next_self,
}
use libev_test.Shm.MidList.Add.{object_ne_zero, once_more}

pub occurs-last_from : (x : ℕ) (xs : List ℕ) → 0 < occurs (last_from x xs) (x ∷ xs)
unfolding occurs
occurs-last_from x [] = ground arith
occurs-last_from x (y ∷ xs) = omega (arith, occurs-last_from y xs)

-- In a sequence without repetition the last id is the first only of a single one.
pub first-ne-last :
    (x y : ℕ) (xs : List ℕ) → ((m : ℕ) → occurs m (x ∷ y ∷ xs) ≤ 1) → x ≢ last_from y xs
unfolding occurs
first-ne-last x y xs once e =
    let one = once (last_from y xs) in let many = occurs-last_from y xs in ground arith

last_from-snoc : (before obj : ℕ) (xs : List ℕ) → last_from before (xs ++ obj ∷ []) ≡ obj
last_from-snoc before obj [] = refl
last_from-snoc before obj (x ∷ xs) = last_from-snoc x obj xs

occurs-snoc :
    (m obj : ℕ) (xs : List ℕ)
    → occurs m (xs ++ obj ∷ []) ≡ (if obj == m then 1 else 0) + occurs m xs
unfolding occurs
occurs-snoc m obj [] = refl
occurs-snoc m obj (x ∷ xs) = omega (arith, occurs-snoc m obj xs)

once_snoc :
    (m obj : ℕ) (xs : List ℕ) → occurs obj xs ≡ 0 → occurs m xs ≤ 1 → occurs m (xs ++ obj ∷ []) ≤ 1
unfolding occurs
once_snoc m obj xs absent one = rw (occurs-snoc m obj xs) (once_more m obj xs absent one)

-- A store that links a new node behind the last one.
module _ (nodes nodes' : ℕ → Option MidNode) (obj : ℕ) where
  Links-snoc :
      (before x : ℕ) (xs : List ℕ)
      → Links nodes before (x ∷ xs)
      → ((m : ℕ) → occurs m (x ∷ xs) ≤ 1)
      → occurs obj (x ∷ xs) ≡ 0
      → nodes' obj ≡ some (record { prev_mid = last_from x xs; next_mid = 0 })
      → ((node : MidNode)
          → nodes (last_from x xs) ≡ some node
          → nodes' (last_from x xs) ≡ some (record node { next_mid = obj }))
      → ((m : ℕ) → obj ≢ m → last_from x xs ≢ m → nodes' m ≡ nodes m)
      → Links nodes' before (x ∷ xs ++ obj ∷ [])
  unfolding occurs
  Links-snoc before x [] links once absent new last rest = (last _ links.0, (new, tt))
  Links-snoc before x (y ∷ xs) links once absent new last rest = (
    rest x (ground arith) (λ e. first-ne-last x y xs once (sym e)) ∙ links.0,
    Links-snoc x y xs links.1 (λ m. omega (arith, once m)) (omega arith) new last rest,
  )

module _ (obj : ℕ) (node : MidNode) (l : MidList) (here : l.nodes obj ≡ some node) where
  add_tail-empty :
      Represents l [] → (l' : MidList) × (add_tail obj l ≡ some l') × Represents l' (obj ∷ [])
  unfolding add_tail occurs
  add_tail-empty r =
      let alone : MidNode = record { prev_mid = 0; next_mid = 0 } in
      (
        record { head_mid = obj; tail_mid = obj; nodes = put l.nodes obj alone },
        rw (here, r.tails, r.no_zero, add_tail) refl,
        record {
          heads = refl;
          tails = refl;
          links = (put_self l.nodes obj alone, tt);
          once = λ m. ground arith;
          no_zero =
              put_other l.nodes obj alone 0
                (λ e. object_ne_zero l.nodes obj node r.no_zero here (sym e))
              ∙ r.no_zero;
        },
      )

  -- The last node of a sequence is there.
  last_node :
      (nodes : ℕ → Option MidNode) (before x : ℕ) (xs : List ℕ)
      → Links nodes before (x ∷ xs)
      → (found : MidNode) × (nodes (last_from x xs) ≡ some found)
  last_node nodes before x [] links = (_, links.0)
  last_node nodes before x (y ∷ xs) links = last_node nodes x y xs links.1

  add_tail-behind :
      (x : ℕ) (xs : List ℕ)
      → Represents l (x ∷ xs)
      → occurs obj (x ∷ xs) ≡ 0
      → (l' : MidList) × (add_tail obj l ≡ some l') × Represents l' (x ∷ xs ++ obj ∷ [])
  unfolding add_tail
  add_tail-behind x xs r absent =
      let t = last_from x xs in
      let found = last_node l.nodes 0 x xs r.links in
      let new : MidNode = record { prev_mid = t; next_mid = 0 } in
      let nodes1 = put l.nodes obj new in
      let nodes2 = write_next t obj nodes1 in
      let apart : t ≢ obj =
        λ e. absurd (omega (arith, occurs-last_from x xs, ap (λ m. occurs m (x ∷ xs)) e)) in
      let ne0 = object_ne_zero l.nodes obj node r.no_zero here in
      let t0 = object_ne_zero l.nodes t found.0 r.no_zero found.1 in
      (
        record { head_mid = l.head_mid; tail_mid = obj; nodes = nodes2 },
        rw (here, r.tails, found.1, add_tail) (rw r.tails refl),
        record {
          heads = r.heads;
          tails = sym (last_from-snoc x obj xs);
          links =
              Links-snoc l.nodes nodes2 obj 0 x xs r.links r.once absent
                (write_next-other t obj nodes1 obj apart ∙ put_self l.nodes obj new)
                (λ old h.
                  write_next_self t obj nodes1 old
                    (put_other l.nodes obj new t (λ e. apart (sym e)) ∙ h))
                (λ m not_obj not_last.
                  write_next-other t obj nodes1 m not_last ∙ put_other l.nodes obj new m not_obj);
          once = λ m. once_snoc m obj (x ∷ xs) absent (r.once m);
          no_zero =
              write_next-other t obj nodes1 0 (λ e. t0 (sym e))
              ∙ put_other l.nodes obj new 0 (λ e. ne0 (sym e))
              ∙ r.no_zero;
        },
      )

  pub add_tail_lem :
      (xs : List ℕ)
      → Represents l xs
      → occurs obj xs ≡ 0
      → (l' : MidList) × (add_tail obj l ≡ some l') × Represents l' (xs ++ obj ∷ [])
  add_tail_lem [] r absent = add_tail-empty r
  add_tail_lem (x ∷ xs) r absent = add_tail-behind x xs r absent
