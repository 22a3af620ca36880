-- ===== src/Text/RingBuf/Slices.antt =====
-- Parts of lists that the ring's bytes are made of.
use libev_test.Base.{
  ℕ, zero, suc, ◌+◌, ◌-◌, ◌≤◌, ◌≡◌, refl, sym, ap, ◌∙◌, arith, List, [], ◌∷◌, ◌++◌, length, take,
  drop, length-take, length-drop, take-append, drop-append, take-append_self, drop-append_self,
  drop-append_add, drop-drop, take-append-drop, length-append,
}
use libev_test.Base.{overwrite}

take-nil : (n : ℕ) → take {A = ℕ} n [] ≡ []
take-nil zero = refl
take-nil (suc n) = refl

pub take-add : (a b : ℕ) (xs : List ℕ) → take (a + b) xs ≡ take a xs ++ take b (drop a xs)
take-add zero b xs = ap (λ n. take n xs) (omega arith)
take-add (suc a) b [] = take-nil (suc a + b) ∙ sym (take-nil b)
take-add (suc a) b (x ∷ xs) =
    ap (λ n. take n (x ∷ xs)) {x = suc a + b} {y = suc (a + b)} (omega arith)
    ∙ ap (◌∷◌ x) (take-add a b xs)

pub take-all : (n : ℕ) (xs : List ℕ) → length xs ≤ n → take n xs ≡ xs
take-all n [] h = take-nil n
take-all zero (x ∷ xs) h = absurd (omega arith)
take-all (suc n) (x ∷ xs) h = ap (◌∷◌ x) (take-all n xs (omega arith))

pub drop-all : (n : ℕ) (xs : List ℕ) → length xs ≤ n → drop n xs ≡ []
drop-all zero [] h = refl
drop-all (suc n) [] h = refl
drop-all zero (x ∷ xs) h = absurd (omega arith)
drop-all (suc n) (x ∷ xs) h = drop-all n xs (omega arith)

pub take-append_add : (n : ℕ) (xs ys : List ℕ) → take (length xs + n) (xs ++ ys) ≡ xs ++ take n ys
take-append_add n [] ys = ap (λ k. take k ys) (omega arith)
take-append_add n (x ∷ xs) ys =
    ap (λ k. take k (x ∷ (xs ++ ys))) {x = length (x ∷ xs) + n} {y = suc (length xs + n)}
      (omega arith)
    ∙ ap (◌∷◌ x) (take-append_add n xs ys)

-- The part of a list from one place to another.
abbrev pub slice : ℕ → ℕ → List ℕ → List ℕ
slice from to xs = take (to - from) (drop from xs)

pub drop-take : (a b : ℕ) (xs : List ℕ) → drop a (take b xs) ≡ slice a b xs
drop-take zero b xs = ap (λ n. take n xs) {x = b} {y = b - 0} (omega arith)
drop-take (suc a) zero xs =
    sym (ap (λ n. take n (drop (suc a) xs)) {x = 0 - suc a} {y = 0} (omega arith))
drop-take (suc a) (suc b) [] = sym (take-nil (suc b - suc a))
drop-take (suc a) (suc b) (x ∷ xs) =
    drop-take a b xs ∙ ap (λ n. take n (drop a xs)) {x = b - a} {y = suc b - suc a} (omega arith)

-- A part splits at each place between its ends.
pub slice-split :
    (a b c : ℕ) (xs : List ℕ) → a ≤ b → b ≤ c → slice a c xs ≡ slice a b xs ++ slice b c xs
slice-split a b c xs h k =
    ap (λ n. take n (drop a xs)) {x = c - a} {y = (b - a) + (c - b)} (omega arith)
    ∙ take-add (b - a) (c - b) (drop a xs)
    ∙ ap (λ ys. slice a b xs ++ take (c - b) ys)
        (drop-drop (b - a) a xs ∙ ap (λ n. drop n xs) {x = a + (b - a)} {y = b} (omega arith))

pub length-slice : (a b : ℕ) (xs : List ℕ) → b ≤ length xs → length (slice a b xs) ≡ b - a
length-slice a b xs h = omega (arith, length-take (b - a) (drop a xs), length-drop a xs)

pub slice-all : (a n : ℕ) (xs : List ℕ) → length xs ≡ n → a ≤ n → slice a n xs ≡ drop a xs
slice-all a n xs h k = take-all (n - a) (drop a xs) (omega (arith, length-drop a xs))

module _ (at : ℕ) (src content : List ℕ) (inside : at + length src ≤ length content) where
  length-front : length (take at content) ≡ at
  length-front = omega (arith, length-take at content)

  pub length-overwrite : length (overwrite at src content) ≡ length content
  length-overwrite = omega (
    arith,
    length-front,
    length-append (take at content) (src ++ drop (at + length src) content),
    length-append src (drop (at + length src) content),
    length-drop (at + length src) content,
  )

  -- Before the place of the write, at it, and behind it.
  pub slice-before :
      (a b : ℕ) → a ≤ b → b ≤ at → slice a b (overwrite at src content) ≡ slice a b content
  slice-before a b h k =
      ap (take (b - a)) (
        drop-append a (take at content) (src ++ drop (at + length src) content)
          (omega (arith, length-front)))
      ∙ take-append (b - a) (drop a (take at content)) (src ++ drop (at + length src) content)
          (omega (arith, length-drop a (take at content), length-front))
      ∙ sym (
          take-append (b - a) (drop a (take at content)) (drop at content)
            (omega (arith, length-drop a (take at content), length-front)))
      ∙ ap (take (b - a))
          (sym (drop-append a (take at content) (drop at content) (omega (arith, length-front))))
      ∙ ap (λ ys. take (b - a) (drop a ys)) (take-append-drop at content)

  pub slice-at : slice at (at + length src) (overwrite at src content) ≡ src
  slice-at =
      let rest = src ++ drop (at + length src) content in
      ap (λ k. take (at + length src - at) (drop k (take at content ++ rest))) {x = at}
        {y = length (take at content)} (omega (arith, length-front))
      ∙ ap (take (at + length src - at)) (drop-append_self (take at content) rest)
      ∙ ap (λ k. take k rest) {x = at + length src - at} {y = length src} (omega arith)
      ∙ take-append_self src (drop (at + length src) content)

  pub slice-after :
      (a b : ℕ) → at + length src ≤ a → slice a b (overwrite at src content) ≡ slice a b content
  slice-after a b h =
      let k = a - (at + length src) in
      let rest = src ++ drop (at + length src) content in
      ap (take (b - a)) (
        ap (λ n. drop n (take at content ++ rest)) {x = a}
          {y = length (take at content) + (length src + k)} (omega (arith, length-front))
        ∙ drop-append_add (length src + k) (take at content) rest
        ∙ drop-append_add k src (drop (at + length src) content)
        ∙ drop-drop k (at + length src) content
        ∙ ap (λ n. drop n content) {x = at + length src + k} {y = a} (omega arith))
