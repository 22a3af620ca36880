-- ===== src/Container/FixIdAlloc/Slots.antt =====
-- Occurrences in the list of free ids, and flags that are set.
use libev_test.Base.{
  occurs, ℕ, zero, suc, ◌+◌, ◌-◌, ◌≤◌, ◌<◌, ◌≡◌, refl, ap, ◌∙◌, arith, Bool, true, false, List, [],
  ◌∷◌, ◌==◌, if◌then◌else◌, length, get_or, set, take, drop, replicate, ltb,
}
use libev_test.Container.FixIdAlloc.{find, count_up}

unfoldable pub trues : List Bool → ℕ
trues [] = 0
trues (b ∷ bs) = (if b then 1 else 0) + trues bs

abbrev pub AllBelow : ℕ → List ℕ → Type 0
AllBelow n [] = Unit
AllBelow n (x ∷ xs) = (x < n) × AllBelow n xs

pub drop-get_or :
    (xs : List ℕ) (n : ℕ) → n < length xs → drop n xs ≡ get_or xs n 0 ∷ drop (suc n) xs
drop-get_or [] n h = absurd (omega arith)
drop-get_or (x ∷ xs) zero h = refl
drop-get_or (x ∷ xs) (suc n) h = drop-get_or xs n (omega arith)

pub drop-set_self :
    (xs : List ℕ) (n v : ℕ) → n < length xs → drop n (set xs n v) ≡ v ∷ drop (suc n) xs
drop-set_self [] n v h = absurd (omega arith)
drop-set_self (x ∷ xs) zero v h = refl
drop-set_self (x ∷ xs) (suc n) v h = drop-set_self xs n v (omega arith)

-- Behind the place of a write.
pub drop-set_lt : (xs : List ℕ) (n p v : ℕ) → p < n → drop n (set xs p v) ≡ drop n xs
drop-set_lt [] n p v h = refl
drop-set_lt (x ∷ xs) zero p v h = absurd (omega arith)
drop-set_lt (x ∷ xs) (suc n) zero v h = refl
drop-set_lt (x ∷ xs) (suc n) (suc p) v h = drop-set_lt xs n p v (omega arith)

pub drop-set_add : (xs : List ℕ) (n k v : ℕ) → drop n (set xs (n + k) v) ≡ set (drop n xs) k v
drop-set_add xs zero k v = ap (λ p. set xs p v) (omega arith)
drop-set_add [] (suc n) k v = refl
drop-set_add (x ∷ xs) (suc n) k v =
    ap (λ p. drop (suc n) (set (x ∷ xs) p v)) {y = suc (n + k)} (omega arith)
    ∙ drop-set_add xs n k v

pub get_or-drop : (xs : List ℕ) (n k : ℕ) → get_or (drop n xs) k 0 ≡ get_or xs (n + k) 0
get_or-drop xs zero k = ap (λ p. get_or xs p 0) (omega arith)
get_or-drop [] (suc n) k = refl
get_or-drop (x ∷ xs) (suc n) k =
    get_or-drop xs n k ∙ ap (λ p. get_or (x ∷ xs) p 0) {x = suc (n + k)} (omega arith)

-- A write exchanges an occurrence of the old value for one of the new.
pub occurs-set :
    (j : ℕ) (xs : List ℕ) (k v : ℕ)
    → k < length xs
    → occurs j (set xs k v) + (if get_or xs k 0 == j then 1 else 0)
      ≡ occurs j xs + (if v == j then 1 else 0)
unfolding occurs
occurs-set j [] k v h = absurd (omega arith)
occurs-set j (x ∷ xs) zero v h = omega arith
occurs-set j (x ∷ xs) (suc k) v h = omega (arith, occurs-set j xs k v (omega arith))

pub AllBelow-set : (n : ℕ) (xs : List ℕ) (k v : ℕ) → v < n → AllBelow n xs → AllBelow n (set xs k v)
AllBelow-set n [] k v h all = tt
AllBelow-set n (x ∷ xs) zero v h all = (h, all.1)
AllBelow-set n (x ∷ xs) (suc k) v h all = (all.0, AllBelow-set n xs k v h all.1)

-- `std::find` over all but the last place finds a value that occurs, at the last place at least.
pub get_or-find :
    (id : ℕ) (xs : List ℕ)
    → 0 < occurs id xs
    → (find (take (length xs - 1) xs) id < length xs)
      × (get_or xs (find (take (length xs - 1) xs) id) 0 ≡ id)
unfolding occurs find
get_or-find id [] h = absurd (omega arith)
get_or-find id (x ∷ []) h = ground arith
get_or-find id (x ∷ y ∷ xs) h = ground (arith, get_or-find id (y ∷ xs))

pub trues-set_up :
    (bs : List Bool) (k : ℕ)
    → k < length bs
    → get_or bs k false ≡ false
    → trues (set bs k true) ≡ trues bs + 1
unfolding trues
trues-set_up [] k h e = absurd (omega arith)
trues-set_up (b ∷ bs) zero h e = ground arith
trues-set_up (b ∷ bs) (suc k) h e = omega (arith, trues-set_up bs k (omega arith) e)

pub trues-set_down :
    (bs : List Bool) (k : ℕ) → get_or bs k false ≡ true → trues (set bs k false) + 1 ≡ trues bs
unfolding trues
trues-set_down [] k e = absurd (ground arith)
trues-set_down (b ∷ bs) zero e = ground arith
trues-set_down (b ∷ bs) (suc k) e = omega (arith, trues-set_down bs k e)

pub trues-replicate : (n : ℕ) → trues (replicate n false) ≡ 0
unfolding trues
trues-replicate zero = refl
trues-replicate (suc n) = omega (arith, trues-replicate n)

pub length-count_up : (i n : ℕ) → length (count_up i n) ≡ n
unfolding count_up
length-count_up i zero = refl
length-count_up i (suc n) = ap suc (length-count_up (i + 1) n)

pub occurs-count_up :
    (j i n : ℕ) → occurs j (count_up i n) ≡ (if ltb j i then 0 else if ltb j (i + n) then 1 else 0)
unfolding occurs count_up
occurs-count_up j i zero = ground arith
occurs-count_up j i (suc n) = ground (arith, occurs-count_up j (i + 1) n)

pub AllBelow-count_up : (m i n : ℕ) → i + n ≤ m → AllBelow m (count_up i n)
unfolding count_up
AllBelow-count_up m i zero h = tt
AllBelow-count_up m i (suc n) h = (omega arith, AllBelow-count_up m (i + 1) n (omega arith))

pub get_or-set :
    (bs : List Bool) (i j : ℕ) (b : Bool)
    → i < length bs
    → get_or (set bs i b) j false ≡ (if i == j then b else get_or bs j false)
get_or-set [] i j b h = absurd (omega arith)
get_or-set (c ∷ bs) zero zero b h = ground arith
get_or-set (c ∷ bs) zero (suc j) b h = ground arith
get_or-set (c ∷ bs) (suc i) zero b h = ground arith
get_or-set (c ∷ bs) (suc i) (suc j) b h = ground (arith, get_or-set bs i j b)

pub occurs-cons :
    (j x : ℕ) (xs : List ℕ) → occurs j (x ∷ xs) ≡ (if x == j then 1 else 0) + occurs j xs
unfolding occurs
occurs-cons j x xs = refl

pub occurs-past : (j n : ℕ) (xs : List ℕ) → length xs ≤ n → occurs j (drop n xs) ≡ 0
unfolding occurs
occurs-past j zero [] h = refl
occurs-past j (suc n) [] h = refl
occurs-past j zero (x ∷ xs) h = absurd (omega arith)
occurs-past j (suc n) (x ∷ xs) h = occurs-past j n xs (omega arith)
