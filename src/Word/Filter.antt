-- ===== src/Word/Filter.antt =====
-- xrbase/trieword/WordFilter.cpp: whether a text holds a word of the tree, and the text with such
-- words masked. Lower case, and the conversions between UTF-8 and wide characters
-- (xrbase/text/char_set.cpp), are arguments.
pub mod Masked
pub mod Censor
mod Tests
use libev_test.Base.{
  ℕ, zero, suc, ◌+◌, Bool, true, false, not, List, [], ◌∷◌, ◌++◌, Option, none, some, ltb, ◌==◌,
  if◌then◌else◌, length, take, drop,
}
use libev_test.Word.Tree.{Node, empty_root, insert, find}

-- `SHIELD_CHAR` and `SHIELD_WCHAR`
abbrev pub star : ℕ
star = 0x2a

pub record WordFilter : Type 0 where
  pub initialized : Bool
  pub tree : Node

-- The constructor, `Init` without a file, and `Clear`.
unfoldable pub create : WordFilter
create = record { initialized = false; tree = empty_root }

unfoldable pub init : WordFilter → WordFilter
init f = record f { initialized = true }

unfoldable pub clear : WordFilter → WordFilter
clear f = record { initialized = true; tree = empty_root }

-- `wstring::replace(i, n, L"*")`
abbrev pub mask_at : ℕ → ℕ → List ℕ → List ℕ
mask_at i n text = take i text ++ (star ∷ drop (i + n) text)

-- How the loop of `Censor` ends: with both texts, with the answer "*", or out of rounds.
pub data Masking : Type 0 where
  masked : List ℕ → List ℕ → Masking
  shielded : Masking
  spins : Masking

-- The loop of `Censor` over the text in lower case and the text itself.
censor_loop : ℕ → ℕ → Node → List ℕ → List ℕ → Masking
censor_loop zero i tree dest ret = spins
censor_loop (suc rounds) i tree dest ret =
    let (found, count) = find (drop i dest) tree in
    let masks = censor_loop rounds (i + 1) tree (mask_at i count dest) (mask_at i count ret) in
    let keeps = censor_loop rounds (i + 1) tree dest ret in
    if ltb i (length dest)
    then if found
      then if length (mask_at i count ret) == length (mask_at i count dest) then masks else shielded
      else keeps
    else masked dest ret

-- The loop of `IsCensor`, with the positions that are left.
check_loop : Node → List ℕ → ℕ → ℕ → Bool
check_loop tree dest i zero = true
check_loop tree dest i (suc left) =
    let rest = check_loop tree dest (i + 1) left in
    if (find (drop i dest) tree).0 then false else rest

module _ (lower to_wide to_utf8 : List ℕ → List ℕ) where
  -- `AddWordUft8`
  unfoldable pub add_word_utf8 : List ℕ → WordFilter → WordFilter × Bool
  add_word_utf8 word f =
      let dest = to_wide (lower word) in
      if not f.initialized
      then (f, true)
      else if length dest == 0
      then (f, false)
      else (record f { tree = insert dest f.tree }, true)

  -- `Censor`; none if the rounds ran out.
  unfoldable pub censor : ℕ → List ℕ → WordFilter → Option (List ℕ)
  unfolding censor_loop
  censor rounds source f =
      let dest = to_wide (lower source) in
      let ret = to_wide source in
      let shield = some (star ∷ []) in
      if not f.initialized
      then some source
      else if not (length dest == length ret)
      then shield
      else if length dest == 0
      then shield
      else elim (censor_loop rounds 0 f.tree dest ret) [
        | masked dest' ret' ↦ if length ret' == 0 then shield else some (to_utf8 ret')
        | shielded ↦ shield
        | spins ↦ none
      ]

  -- `IsCensor`
  pub is_censor : List ℕ → WordFilter → Bool
  unfolding check_loop
  is_censor source f =
      let dest = to_wide (lower source) in
      if not f.initialized
      then true
      else if length dest == 0
      then false
      else check_loop f.tree dest 0 (length dest)
