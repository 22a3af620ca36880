-- ===== src/Word/Filter/Masked.antt =====
-- The masked text, described without positions, and texts without words.
use libev_test.Base.{
  ℕ, zero, suc, ◌-◌, ◌≤◌, ◌≡◌, refl, ap, ◌∙◌, arith, Bool, true, false, ◌||◌, List, [], ◌∷◌, ◌++◌,
  none, some, ◌==◌, if◌then◌else◌, length, take, drop, length-drop, inl, inr, Option-cases,
}
use libev_test.Word.Tree.Find.{shortest, shortest-none, has_word, shortest-cons, bump}
use libev_test.Word.Tree.Insert.{word_eq}
use libev_test.Word.Filter.{star}

-- Where a word begins, a star stands for the shortest such word, in both texts at once; elsewhere the
-- characters stay. The rounds are to be as many as the text has characters.
unfoldable pub mask : (List ℕ → Bool) → ℕ → List ℕ → List ℕ → List ℕ × List ℕ
mask p rounds [] ys = ([], ys)
mask p zero (x ∷ xs) ys = (x ∷ xs, ys)
mask p (suc rounds) (x ∷ xs) ys = elim (shortest p (x ∷ xs)) [
  | none ↦ let (d, r) = mask p rounds xs (drop 1 ys) in (x ∷ d, take 1 ys ++ r)
  | some n ↦ let (d, r) = mask p rounds (drop n (x ∷ xs)) (drop n ys) in (star ∷ d, star ∷ r)
]

-- A word that passes the test begins at some place of the text.
unfoldable pub any_word : (List ℕ → Bool) → List ℕ → Bool
any_word p [] = false
any_word p (x ∷ xs) = elim (shortest p (x ∷ xs)) [ none ↦ any_word p xs | some n ↦ true ]

unfoldable pub has_star : List ℕ → Bool
has_star [] = false
has_star (x ∷ xs) = x == star || has_star xs

-- No text with a star passes the test.
abbrev pub IsStarless : (List ℕ → Bool) → Type 0
IsStarless p = (v : List ℕ) → has_star v ≡ true → p v ≡ false

IsStarless-below : (p : List ℕ → Bool) (x : ℕ) → IsStarless p → IsStarless (λ v. p (x ∷ v))
unfolding has_star
IsStarless-below p x h v s = h (x ∷ v) (ground arith)

shortest-star : (q : List ℕ → Bool) (w : List ℕ) → IsStarless q → shortest q (star ∷ w) ≡ none
unfolding has_star
shortest-star q w h =
    let nothing = λ (v : List ℕ). h (star ∷ v) (ground arith) in
    shortest-cons q star w
    ∙ ap (λ b. if b then some 1 else bump (shortest (λ v. q (star ∷ v)) w)) (nothing [])
    ∙ ap bump (shortest-none (λ v. q (star ∷ v)) w nothing)

shortest-tail :
    (q : List ℕ → Bool) (x : ℕ) (w : List ℕ)
    → shortest q (x ∷ w) ≡ none
    → (q (x ∷ []) ≡ false) × (shortest (λ v. q (x ∷ v)) w ≡ none)
shortest-tail q x w h = ground (arith, shortest-cons q x w)

shortest-head :
    (q : List ℕ → Bool) (x : ℕ) (w : List ℕ)
    → q (x ∷ []) ≡ false
    → shortest (λ v. q (x ∷ v)) w ≡ none
    → shortest q (x ∷ w) ≡ none
shortest-head q x w h k = ground (arith, shortest-cons q x w)

module _ (p : List ℕ → Bool) where
  -- Masking makes no word at the front of the text.
  mask-keeps :
      (rounds : ℕ) (q : List ℕ → Bool) (xs ys : List ℕ)
      → IsStarless q
      → shortest q xs ≡ none
      → shortest q (mask p rounds xs ys).0 ≡ none
  unfolding mask
  mask-keeps rounds q [] ys h e = e
  mask-keeps zero q (x ∷ xs) ys h e = e
  mask-keeps (suc rounds) q (x ∷ xs) ys h e = elim (Option-cases (shortest p (x ∷ xs))) [
    | inl k ↦
        let (here, later) = shortest-tail q x xs e in
        rw (k, mask)
          (shortest-head q x (mask p rounds xs (drop 1 ys)).0 here
            (mask-keeps rounds (λ v. q (x ∷ v)) xs (drop 1 ys) (IsStarless-below q x h) later))
    | inr (n, k) ↦ rw (k, mask) (shortest-star q (mask p rounds (drop n (x ∷ xs)) (drop n ys)).0 h)
  ]

any_word-skip :
    (p : List ℕ → Bool) (x : ℕ) (w : List ℕ)
    → shortest p (x ∷ w) ≡ none
    → any_word p w ≡ false
    → any_word p (x ∷ w) ≡ false
unfolding any_word
any_word-skip p x w e h = rw (e, any_word) h

-- A word found has one character at least, and lies in the text.
pub shortest_bounds :
    (p : List ℕ → Bool) (w : List ℕ) (n : ℕ) → shortest p w ≡ some n → (1 ≤ n) × (n ≤ length w)
unfolding shortest
shortest_bounds p [] n h = cc
shortest_bounds p (c ∷ w) n h = elim (Option-cases (shortest (λ v. p (c ∷ v)) w)) [
  | inl e ↦ ground (arith, e)
  | inr (k, e) ↦ let deeper = shortest_bounds (λ v. p (c ∷ v)) w k e in ground (arith, e, deeper)
]

module _ (p : List ℕ → Bool) (starless : IsStarless p) where
  -- No word is left in the masked text.
  pub any_word-mask :
      (rounds : ℕ) (xs ys : List ℕ)
      → length xs ≤ rounds
      → any_word p (mask p rounds xs ys).0 ≡ false
  unfolding mask
  any_word-mask rounds [] ys h = unfold any_word in refl
  any_word-mask zero (x ∷ xs) ys h = absurd (omega arith)
  any_word-mask (suc rounds) (x ∷ xs) ys h = elim (Option-cases (shortest p (x ∷ xs))) [
    | inl k ↦
        let (here, later) = shortest-tail p x xs k in
        let still = shortest-head p x (mask p rounds xs (drop 1 ys)).0 here (
          mask-keeps p rounds (λ v. p (x ∷ v)) xs (drop 1 ys) (IsStarless-below p x starless)
            later) in
        rw (k, mask)
          (any_word-skip p x (mask p rounds xs (drop 1 ys)).0 still
            (any_word-mask rounds xs (drop 1 ys) (omega arith)))
    | inr (n, k) ↦
        let ih =
          any_word-mask rounds (drop n (x ∷ xs)) (drop n ys)
            (omega (arith, length-drop n (x ∷ xs), shortest_bounds p (x ∷ xs) n k)) in
        let out = (mask p rounds (drop n (x ∷ xs)) (drop n ys)).0 in
        rw (k, mask) (any_word-skip p star out (shortest-star p out starless) ih)
  ]

-- The two masked texts have the same length, and something is left.
pub length-mask :
    (p : List ℕ → Bool) (m : ℕ) (xs ys : List ℕ)
    → length ys ≡ length xs
    → (length (mask p m xs ys).1 ≡ length (mask p m xs ys).0)
      × (length xs - (length xs - 1) ≤ length (mask p m xs ys).0)
unfolding mask
length-mask p m [] ys same = (same, omega arith)
length-mask p zero (x ∷ xs) ys same = (same, omega arith)
length-mask p (suc m) (x ∷ xs) [] same = absurd (omega arith)
length-mask p (suc m) (x ∷ xs) (y ∷ ys) same = elim (Option-cases (shortest p (x ∷ xs))) [
  | inl e ↦ let ih = length-mask p m xs ys (omega arith) in rw (e, mask) (ap suc ih.0, omega arith)
  | inr (n, e) ↦
      let ih =
        length-mask p m (drop n (x ∷ xs)) (drop n (y ∷ ys))
          (omega (arith, length-drop n (x ∷ xs), length-drop n (y ∷ ys))) in
      rw (e, mask) (ap suc ih.0, omega arith)
]

-- None of the words has a star.
abbrev pub AreStarless : List (List ℕ) → Type 0
AreStarless [] = Unit
AreStarless (w ∷ ws) = (has_star w ≡ false) × AreStarless ws

word_eq-star : (w v : List ℕ) → word_eq w v ≡ true → has_star v ≡ has_star w
unfolding word_eq has_star
word_eq-star [] [] h = refl
word_eq-star [] (d ∷ v) h = cc
word_eq-star (c ∷ w) [] h = cc
word_eq-star (c ∷ w) (d ∷ v) h = ground (arith, word_eq-star w v)

pub has_word-IsStarless : (ws : List (List ℕ)) → AreStarless ws → IsStarless (has_word ws)
unfolding has_word
has_word-IsStarless [] h v s = refl
has_word-IsStarless (w ∷ ws) h v s =
    ground (arith, has_word-IsStarless ws h.1 v s, word_eq-star w v)
