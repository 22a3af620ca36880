-- ===== src/Shm/MidList/Add.antt =====
-- `add_head` of shm_mid_list.cpp puts an id in front of the sequence.
pub mod Tail
use libev_test.Base.{
  occurs, ℕ, suc, ◌+◌, ◌<◌, ◌≤◌, ◌≡◌, ◌≢◌, refl, sym, ap, ◌∙◌, arith, Bool, true, false, List, [],
  ◌∷◌, ◌++◌, Option, none, some, ◌==◌, if◌then◌else◌, ==_iff, Bool-cases, inl, inr,
}
use libev_test.Shm.MidList.{MidNode, MidList, put, write_next, write_prev, add_head}
use libev_test.Shm.MidList.Linked.{
  first, last_from, Links, Represents, put_other, put_self, Links-agree, write_next-other,
  write_prev-other, write_next_self, write_prev_self,
}

-- The ids of objects are not 0.
pub object_ne_zero :
    (nodes : ℕ → Option MidNode) (m : ℕ) (node : MidNode)
    → nodes 0 ≡ none
    → nodes m ≡ some node
    → 0 ≢ m
object_ne_zero nodes m node h k e = ground (arith, rw (← e) at k)

pub once_more :
    (m obj : ℕ) (xs : List ℕ) → occurs obj xs ≡ 0 → occurs m xs ≤ 1 → occurs m (obj ∷ xs) ≤ 1
unfolding occurs
once_more m obj xs absent one = elim (Bool-cases (obj == m)) [
  | inl e ↦
      let same = (==_iff obj m).0 e in
      let none_of_m : occurs m xs ≡ 0 = rw same at absent in rw (e, none_of_m) (omega arith)
  | inr e ↦ rw e (omega (arith, one))
]

-- A later id of a sequence is neither the first nor one that is absent.
pub apart_of :
    (m obj x : ℕ) (xs : List ℕ)
    → 0 < occurs m xs
    → occurs m (x ∷ xs) ≤ 1
    → occurs obj (x ∷ xs) ≡ 0
    → (x ≢ m) × (obj ≢ m)
unfolding occurs
apart_of m obj x xs in_xs one absent = (λ e. ground arith, λ e. ground arith)

module _ (obj : ℕ) (node : MidNode) (l : MidList) (here : l.nodes obj ≡ some node) where
  add_head-empty :
      Represents l [] → (l' : MidList) × (add_head obj l ≡ some l') × Represents l' (obj ∷ [])
  unfolding add_head occurs
  add_head-empty r =
      let alone : MidNode = record { prev_mid = 0; next_mid = 0 } in
      (
        record { head_mid = obj; tail_mid = obj; nodes = put l.nodes obj alone },
        rw (here, r.heads, r.no_zero, add_head) refl,
        record {
          heads = refl;
          tails = refl;
          links = (put_self l.nodes obj alone, tt);
          once = λ m. ground arith;
          no_zero =
              put_other l.nodes obj alone 0
                (λ e. object_ne_zero l.nodes obj node r.no_zero here (sym e))
              ∙ r.no_zero;
        },
      )

  add_head-before :
      (x : ℕ) (xs : List ℕ)
      → Represents l (x ∷ xs)
      → occurs obj (x ∷ xs) ≡ 0
      → (l' : MidList) × (add_head obj l ≡ some l') × Represents l' (obj ∷ x ∷ xs)
  unfolding add_head occurs
  add_head-before x xs r absent =
      let new : MidNode = record { prev_mid = 0; next_mid = x } in
      let nodes1 = put l.nodes obj new in
      let nodes2 = write_prev x obj nodes1 in
      let apart : obj ≢ x = ground arith in
      let ne0 = object_ne_zero l.nodes obj node r.no_zero here in
      let x0 = object_ne_zero l.nodes x _ r.no_zero r.links.0 in
      let old = put_other l.nodes obj new x apart ∙ r.links.0 in
      (
        record { head_mid = obj; tail_mid = l.tail_mid; nodes = nodes2 },
        rw (here, r.heads, r.links.0, add_head) (rw r.heads refl),
        record {
          heads = refl;
          tails = r.tails;
          links = (
            write_prev-other x obj nodes1 obj (λ e. apart (sym e)) ∙ put_self l.nodes obj new,
            (
              write_prev_self x obj nodes1 _ old,
              Links-agree l.nodes nodes2 x xs
                  (λ m h.
                    let apart_m = apart_of m obj x xs h (r.once m) absent in
                    write_prev-other x obj nodes1 m apart_m.0
                    ∙ put_other l.nodes obj new m apart_m.1)
                  r.links.1,
            ),
          );
          once = λ m. once_more m obj (x ∷ xs) absent (r.once m);
          no_zero =
              write_prev-other x obj nodes1 0 (λ e. x0 (sym e))
              ∙ put_other l.nodes obj new 0 (λ e. ne0 (sym e))
              ∙ r.no_zero;
        },
      )

  pub add_head_lem :
      (xs : List ℕ)
      → Represents l xs
      → occurs obj xs ≡ 0
      → (l' : MidList) × (add_head obj l ≡ some l') × Represents l' (obj ∷ xs)
  add_head_lem [] r absent = add_head-empty r
  add_head_lem (x ∷ xs) r absent = add_head-before x xs r absent
