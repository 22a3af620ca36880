-- ===== src/Word/Tree/Tests.antt =====
-- The word tree at concrete words.
use libev_test.Base.{ℕ, ◌≡◌, refl, List, [], ◌∷◌, true, some, if◌then◌else◌}
use libev_test.Word.Tree.{empty_root, insert, find, find_child, put_child}
use libev_test.Word.Tree.Insert.{accepts, word_eq, accepts-insert}
use libev_test.Word.Tree.Find.{shortest, has_word, hit, load, find-shortest}

abbrev words : List (List ℕ)
words = (1 ∷ 2 ∷ 3 ∷ []) ∷ (1 ∷ 2 ∷ []) ∷ (7 ∷ []) ∷ []

find-shortest_example :
    hit (find (1 ∷ 2 ∷ 3 ∷ 4 ∷ []) (load empty_root words))
    ≡ shortest (has_word words) (1 ∷ 2 ∷ 3 ∷ 4 ∷ [])
find-shortest_example = find-shortest words (1 ∷ 2 ∷ 3 ∷ 4 ∷ [])

find_two : hit (find (1 ∷ 2 ∷ 3 ∷ 4 ∷ []) (load empty_root words)) ≡ some 2
unfolding find insert load find_child put_child
find_two = refl

accepts-insert_example : accepts (insert (1 ∷ 5 ∷ []) (load empty_root words)) (1 ∷ 2 ∷ []) ≡ (
    if word_eq (1 ∷ 5 ∷ []) (1 ∷ 2 ∷ [])
    then true
    else accepts (load empty_root words) (1 ∷ 2 ∷ []))
accepts-insert_example = accepts-insert 1 (5 ∷ []) (load empty_root words) (1 ∷ 2 ∷ [])
