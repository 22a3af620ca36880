-- ===== src/Word/Filter/Tests.antt =====
-- The filter on a concrete text.
use libev_test.Base.{ℕ, ◌≡◌, refl, arith, List, [], ◌∷◌, true, not, some}
use libev_test.Word.Tree.{insert, find, find_child}
use libev_test.Word.Tree.Find.{has_word, load}
use libev_test.Word.Filter.{WordFilter, censor, is_censor}
use libev_test.Word.Filter.Masked.{any_word, has_star}
use libev_test.Word.Filter.Censor.{tree_of, is_censor-any_word, Censors, censor-Censors}

abbrev words : List (List ℕ)
words = (1 ∷ 2 ∷ []) ∷ (7 ∷ []) ∷ []

abbrev filter : WordFilter
filter = record { initialized = true; tree = tree_of words }

abbrev same : List ℕ → List ℕ
same text = text

is_censor-any_word_example :
    is_censor same same same (5 ∷ 1 ∷ 2 ∷ []) filter
    ≡ not (any_word (has_word words) (5 ∷ 1 ∷ 2 ∷ []))
is_censor-any_word_example =
    is_censor-any_word same same same words filter (5 ∷ 1 ∷ 2 ∷ []) refl refl (omega arith)

censor-Censors_example : Censors same same same words filter 5 (5 ∷ 1 ∷ 2 ∷ 7 ∷ [])
unfolding has_star
censor-Censors_example =
    censor-Censors same same same words filter (5 ∷ 1 ∷ 2 ∷ 7 ∷ []) refl refl (refl, (refl, tt))
      refl (omega arith)

masked_text : censor same same same 5 (5 ∷ 1 ∷ 2 ∷ 7 ∷ []) filter ≡ some (5 ∷ 0x2a ∷ 0x2a ∷ [])
unfolding censor find insert load find_child
masked_text = refl
