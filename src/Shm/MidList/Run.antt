-- ===== src/Shm/MidList/Run.antt =====
-- Whole histories of a list of shm_mid_list.cpp.
use libev_test.Base.{
  erase, occurs, ℕ, ◌<◌, ◌≡◌, refl, ◌∙◌, arith, true, List, [], ◌∷◌, ◌++◌, Option, none, some,
}
use libev_test.Shm.MidList.{MidNode, MidList, add_head, add_tail, del_node}
use libev_test.Shm.MidList.Linked.{Represents}
use libev_test.Shm.MidList.Add.{add_head_lem}
use libev_test.Shm.MidList.Add.Tail.{add_tail_lem}
use libev_test.Shm.MidList.Refine.{
  is_some, SameObjects, del_node_lem, add_head-SameObjects, add_tail-SameObjects,
  del_node-SameObjects,
}

pub data Call : Type 0 where
  puts_head puts_tail deletes : ℕ → Call

unfoldable pub call : Call → MidList → Option MidList
call (puts_head obj) l = add_head obj l
call (puts_tail obj) l = add_tail obj l
call (deletes obj) l = del_node obj l

-- The same on the sequence.
unfoldable pub call_spec : Call → List ℕ → List ℕ
call_spec (puts_head obj) xs = obj ∷ xs
call_spec (puts_tail obj) xs = xs ++ obj ∷ []
call_spec (deletes obj) xs = erase obj xs

-- An object is put in when it is out, and out when it is in.
abbrev pub IsLegal : (ℕ → Option MidNode) → Call → List ℕ → Type 0
IsLegal objects (puts_head obj) xs = (is_some (objects obj) ≡ true) × (occurs obj xs ≡ 0)
IsLegal objects (puts_tail obj) xs = (is_some (objects obj) ≡ true) × (occurs obj xs ≡ 0)
IsLegal objects (deletes obj) xs = 0 < occurs obj xs

unfoldable pub run : List Call → MidList → Option MidList
run [] l = some l
run (c ∷ cs) l = elim (call c l) [ none ↦ none | some l' ↦ run cs l' ]

unfoldable pub run_spec : List Call → List ℕ → List ℕ
run_spec [] xs = xs
run_spec (c ∷ cs) xs = run_spec cs (call_spec c xs)

abbrev pub AreLegal : (ℕ → Option MidNode) → List Call → List ℕ → Type 0
AreLegal objects [] xs = Unit
AreLegal objects (c ∷ cs) xs = IsLegal objects c xs × AreLegal objects cs (call_spec c xs)

some_node : (o : Option MidNode) → is_some o ≡ true → (node : MidNode) × (o ≡ some node)
some_node none h = cc
some_node (some node) h = (node, refl)

abbrev Done : MidList → Option MidList → List ℕ → Type 0
Done l result xs =
    (l' : MidList) × (result ≡ some l')
    × Represents l' xs
    × ((m : ℕ) → is_some (l'.nodes m) ≡ is_some (l.nodes m))

same_of :
    (l l' : MidList) (o : Option MidList)
    → SameObjects l o
    → o ≡ some l'
    → (m : ℕ) → is_some (l'.nodes m) ≡ is_some (l.nodes m)
same_of l l' o s e = rw e at s

call-Done :
    (c : Call) (l : MidList) (xs : List ℕ)
    → Represents l xs
    → IsLegal l.nodes c xs
    → Done l (call c l) (call_spec c xs)
unfolding call call_spec
call-Done (puts_head obj) l xs r ok =
    let here = some_node (l.nodes obj) ok.0 in
    let d = add_head_lem obj here.0 l here.1 xs r ok.1 in
    (d.0, d.1, d.2, same_of l d.0 (add_head obj l) (add_head-SameObjects obj l) d.1)
call-Done (puts_tail obj) l xs r ok =
    let here = some_node (l.nodes obj) ok.0 in
    let d = add_tail_lem obj here.0 l here.1 xs r ok.1 in
    (d.0, d.1, d.2, same_of l d.0 (add_tail obj l) (add_tail-SameObjects obj l) d.1)
call-Done (deletes obj) l xs r ok =
    let d = del_node_lem obj xs l r ok in
    (d.0, d.1, d.2, same_of l d.0 (del_node obj l) (del_node-SameObjects obj l) d.1)

-- Whether a call is legal depends on which objects there are only.
IsLegal-same :
    (c : Call) (nodes objects : ℕ → Option MidNode) (xs : List ℕ)
    → ((m : ℕ) → is_some (nodes m) ≡ is_some (objects m))
    → IsLegal objects c xs
    → IsLegal nodes c xs
IsLegal-same (puts_head obj) nodes objects xs same ok = (same obj ∙ ok.0, ok.1)
IsLegal-same (puts_tail obj) nodes objects xs same ok = (same obj ∙ ok.0, ok.1)
IsLegal-same (deletes obj) nodes objects xs same ok = ok

run-Represents :
    (objects : ℕ → Option MidNode) (cs : List Call) (l : MidList) (xs : List ℕ)
    → ((m : ℕ) → is_some (l.nodes m) ≡ is_some (objects m))
    → Represents l xs
    → AreLegal objects cs xs
    → (l' : MidList) × (run cs l ≡ some l') × Represents l' (run_spec cs xs)
unfolding run run_spec
run-Represents objects [] l xs same r ok = (l, refl, r)
run-Represents objects (c ∷ cs) l xs same r ok =
    let d = call-Done c l xs r (IsLegal-same c l.nodes objects xs same ok.0) in
    let rest = run-Represents objects cs d.0 (call_spec c xs) (λ m. d.3 m ∙ same m) d.2 ok.1 in
    (rest.0, rw (d.1, run) rest.1, rest.2)

-- Over objects with ids other than 0, every history of `add_head`, `add_tail` and `del_node` of a list
-- that starts empty, which puts an object in only when it is out and takes it out only when it is in,
-- runs without a failing assertion, and the list then links, in both directions and from both ends,
-- exactly the sequence that the same history gives with putting in front, putting behind and removing.
pub run_mid_list_refines :
    (objects : ℕ → Option MidNode) (cs : List Call)
    → objects 0 ≡ none
    → AreLegal objects cs []
    → (l' : MidList) × (run cs (record { head_mid = 0; tail_mid = 0; nodes = objects }) ≡ some l')
      × Represents l' (run_spec cs [])
unfolding occurs
run_mid_list_refines objects cs no_zero ok =
    run-Represents objects cs (record { head_mid = 0; tail_mid = 0; nodes = objects }) []
      (λ m. refl)
      (record {
        heads = refl;
        tails = refl;
        links = tt;
        once = λ m. omega arith;
        no_zero = no_zero;
      })
      ok
