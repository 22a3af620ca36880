-- ===== src/Shm/MidList/Tests.antt =====
-- A list over four objects: the example of its theorem.
use libev_test.Base.{
  occurs, ℕ, ◌≡◌, refl, arith, List, [], ◌∷◌, Option, none, some, ltb, ◌&&◌, if◌then◌else◌,
}
use libev_test.Shm.MidList.{MidNode, MidList}
use libev_test.Shm.MidList.Linked.{Represents}
use libev_test.Shm.MidList.Run.{
  Call, puts_head, puts_tail, deletes, run, run_spec, call_spec, AreLegal, run_mid_list_refines,
}

abbrev objects : ℕ → Option MidNode
objects m = if ltb 0 m && ltb m 5 then some (record { prev_mid = 7; next_mid = 7 }) else none

abbrev history : List Call
history =
    puts_tail 2 ∷ puts_head 1 ∷ puts_tail 3 ∷ deletes 2 ∷ puts_head 4 ∷ deletes 3 ∷ puts_tail 2 ∷ []

history-AreLegal : AreLegal objects history []
unfolding occurs call_spec
history-AreLegal = (
  (refl, refl),
  ((refl, refl), ((refl, refl), (omega arith, ((refl, refl), (omega arith, ((refl, refl), tt)))))),
)

sequence : run_spec history [] ≡ 4 ∷ 1 ∷ 2 ∷ []
unfolding run_spec call_spec
sequence = refl

run_mid_list_refines_example :
    (l' : MidList) × (run history (record { head_mid = 0; tail_mid = 0; nodes = objects })
      ≡ some l')
    × Represents l' (run_spec history [])
run_mid_list_refines_example = run_mid_list_refines objects history refl history-AreLegal
