-- ===== src/Word/Filter/Censor.antt =====
-- xrbase/trieword/WordFilter.cpp: the loops of `Censor` and `IsCensor` over a tree of given words.
use libev_test.Base.{
  ℕ, zero, suc, ◌+◌, ◌<◌, ◌≤◌, ◌≡◌, refl, sym, ap, ◌∙◌, arith, Bool, true, false, not, List, [],
  ◌∷◌, ◌++◌, none, some, ltb, ◌==◌, length, drop, length-drop, drop-drop, length-append, inl, inr,
  Option-cases, lt→ltb, le→ltb, ==_iff, drop-append_add, take-append_self, drop-append_self,
}
use mathlib.Core.List.{append_assoc}
use libev_test.Word.Tree.{Node, empty_root, find}
use libev_test.Word.Tree.Find.{shortest, has_word, hit, load, find-shortest}
use libev_test.Word.Filter.{
  star, mask_at, censor_loop, check_loop, masked, WordFilter, censor, is_censor,
}
use libev_test.Word.Filter.Masked.{
  mask, any_word, any_word-mask, shortest_bounds, length-mask, AreStarless, has_word-IsStarless,
}

abbrev pub tree_of : List (List ℕ) → Node
tree_of ws = load empty_root ws

mask_at-append :
    (n : ℕ) (pre xs : List ℕ) → mask_at (length pre) n (pre ++ xs) ≡ (pre ++ star ∷ []) ++ drop n xs
mask_at-append n pre xs =
    ap (λ ys. ys ++ (star ∷ drop (length pre + n) (pre ++ xs))) (take-append_self pre xs)
    ∙ ap (λ ys. pre ++ (star ∷ ys)) (drop-append_add n pre xs)
    ∙ sym (append_assoc pre (star ∷ []) (drop n xs))

-- What `Find` says, with what the words say.
find_miss :
    (ws : List (List ℕ)) (text : List ℕ)
    → shortest (has_word ws) text ≡ none
    → (find text (tree_of ws)).0 ≡ false
find_miss ws text e = miss (find text (tree_of ws)) (find-shortest ws text ∙ e)
  where
    miss : (r : Bool × ℕ) → hit r ≡ none → r.0 ≡ false
    miss (true, n) h = cc
    miss (false, n) h = refl

find_hit :
    (ws : List (List ℕ)) (text : List ℕ) (n : ℕ)
    → shortest (has_word ws) text ≡ some n
    → find text (tree_of ws) ≡ (true, n)
find_hit ws text n e = got (find text (tree_of ws)) (find-shortest ws text ∙ e)
  where
    got : (r : Bool × ℕ) → hit r ≡ some n → r ≡ (true, n)
    got (true, k) h = ground arith
    got (false, k) h = cc

module _ (ws : List (List ℕ)) where
  loop_end :
      (rounds : ℕ) (pre ret : List ℕ)
      → censor_loop (suc rounds) (length pre) (tree_of ws) (pre ++ []) ret ≡ masked (pre ++ []) ret
  unfolding censor_loop
  loop_end rounds pre ret =
      let past : ltb (length pre) (length (pre ++ [])) ≡ false =
        le→ltb _ _ (omega (arith, length-append pre [])) in
      rw (past, censor_loop) refl

  loop_keep :
      (rounds x : ℕ) (pre xs ret : List ℕ)
      → shortest (has_word ws) (x ∷ xs) ≡ none
      → censor_loop (suc rounds) (length pre) (tree_of ws) (pre ++ x ∷ xs) ret
        ≡ censor_loop rounds (length pre + 1) (tree_of ws) (pre ++ x ∷ xs) ret
  unfolding censor_loop
  loop_keep rounds x pre xs ret e =
      let room : ltb (length pre) (length (pre ++ x ∷ xs)) ≡ true =
        lt→ltb _ _ (omega (arith, length-append pre (x ∷ xs))) in
      let misses : (find (drop (length pre) (pre ++ x ∷ xs)) (tree_of ws)).0 ≡ false =
        ap (λ t. (find t (tree_of ws)).0) (drop-append_self pre (x ∷ xs))
        ∙ find_miss ws (x ∷ xs) e in
      rw (room, misses, censor_loop) refl

  loop_mask :
      (rounds x n : ℕ) (pre pre' xs ys : List ℕ)
      → length pre' ≡ length pre
      → length ys ≡ length (x ∷ xs)
      → shortest (has_word ws) (x ∷ xs) ≡ some n
      → censor_loop (suc rounds) (length pre) (tree_of ws) (pre ++ x ∷ xs) (pre' ++ ys)
        ≡ censor_loop rounds
            (length pre + 1)
            (tree_of ws)
            ((pre ++ star ∷ []) ++ drop n (x ∷ xs))
            ((pre' ++ star ∷ []) ++ drop n ys)
  unfolding censor_loop
  loop_mask rounds x n pre pre' xs ys same sames e =
      let room : ltb (length pre) (length (pre ++ x ∷ xs)) ≡ true =
        lt→ltb _ _ (omega (arith, length-append pre (x ∷ xs))) in
      let hits : find (drop (length pre) (pre ++ x ∷ xs)) (tree_of ws) ≡ (true, n) =
        ap (λ t. find t (tree_of ws)) (drop-append_self pre (x ∷ xs)) ∙ find_hit ws (x ∷ xs) n e in
      let dest = mask_at-append n pre (x ∷ xs) in
      let ret : mask_at (length pre) n (pre' ++ ys) ≡ (pre' ++ star ∷ []) ++ drop n ys =
        ap (λ k. mask_at k n (pre' ++ ys)) (sym same) ∙ mask_at-append n pre' ys in
      let equal : (length ((pre' ++ star ∷ []) ++ drop n ys)
            == length ((pre ++ star ∷ []) ++ drop n (x ∷ xs)))
          ≡ true =
        (==_iff _ _).1 (
          omega (
            arith,
            length-append (pre' ++ star ∷ []) (drop n ys),
            length-append pre' (star ∷ []),
            length-append (pre ++ star ∷ []) (drop n (x ∷ xs)),
            length-append pre (star ∷ []),
            length-drop n ys,
            length-drop n (x ∷ xs),
          )) in
      rw (room, hits, dest, ret, equal, censor_loop) refl

  regroup : (pre : List ℕ) (x : ℕ) (xs : List ℕ) → (pre ++ x ∷ []) ++ xs ≡ pre ++ x ∷ xs
  regroup pre x xs = append_assoc pre (x ∷ []) xs

  length-snoc : (pre : List ℕ) (x : ℕ) → length (pre ++ x ∷ []) ≡ length pre + 1
  length-snoc pre x = omega (arith, length-append pre (x ∷ []))

  -- The loop at a position, with what stands before it, makes the masked rest.
  loop-mask :
      (m : ℕ) (pre pre' xs ys : List ℕ)
      → length pre' ≡ length pre
      → length ys ≡ length xs
      → length xs ≤ m
      → censor_loop (suc m) (length pre) (tree_of ws) (pre ++ xs) (pre' ++ ys)
        ≡ masked (pre ++ (mask (has_word ws) m xs ys).0) (pre' ++ (mask (has_word ws) m xs ys).1)
  unfolding mask
  loop-mask zero pre pre' [] ys same sames enough = loop_end zero pre (pre' ++ ys)
  loop-mask zero pre pre' (x ∷ xs) ys same sames enough = absurd (omega arith)
  loop-mask (suc m) pre pre' [] ys same sames enough = loop_end (suc m) pre (pre' ++ ys)
  loop-mask (suc m) pre pre' (x ∷ xs) [] same sames enough = absurd (omega arith)
  loop-mask (suc m) pre pre' (x ∷ xs) (y ∷ ys) same sames enough =
      let p = has_word ws in
      elim (Option-cases (shortest p (x ∷ xs))) [
        | inl e ↦
            let r = mask p m xs ys in
            let ih =
              loop-mask m (pre ++ x ∷ []) (pre' ++ y ∷ []) xs ys
                (omega (arith, length-snoc pre x, length-snoc pre' y)) (omega arith)
                (omega arith) in
            rw (e, mask)
              (loop_keep (suc m) x pre xs (pre' ++ y ∷ ys) e
                ∙ (λ i.
                    censor_loop (suc m) (sym (length-snoc pre x) i) (tree_of ws)
                      (sym (regroup pre x xs) i) (sym (regroup pre' y ys) i))
                ∙ ih
                ∙ (λ i. masked (regroup pre x r.0 i) (regroup pre' y r.1 i)))
        | inr (n, e) ↦
            let rest = drop n (x ∷ xs) in
            let rest' = drop n (y ∷ ys) in
            let r = mask p m rest rest' in
            let bounds = shortest_bounds p (x ∷ xs) n e in
            let ih =
              loop-mask m (pre ++ star ∷ []) (pre' ++ star ∷ []) rest rest'
                (omega (arith, length-snoc pre star, length-snoc pre' star))
                (omega (arith, length-drop n (x ∷ xs), length-drop n (y ∷ ys)))
                (omega (arith, length-drop n (x ∷ xs), bounds)) in
            rw (e, mask)
              (loop_mask (suc m) x n pre pre' xs (y ∷ ys) same sames e
                ∙ (λ i.
                    censor_loop (suc m) (sym (length-snoc pre star) i) (tree_of ws)
                      ((pre ++ star ∷ []) ++ rest) ((pre' ++ star ∷ []) ++ rest'))
                ∙ ih
                ∙ (λ i. masked (regroup pre star r.0 i) (regroup pre' star r.1 i)))
      ]

  -- The loop of `IsCensor` from a position on.
  check_from :
      (left i : ℕ) (dest rest : List ℕ)
      → drop i dest ≡ rest
      → length rest ≡ left
      → check_loop (tree_of ws) dest i left ≡ not (any_word (has_word ws) rest)
  unfolding check_loop any_word
  check_from zero i dest [] at len = refl
  check_from zero i dest (x ∷ rest) at len = absurd (omega arith)
  check_from (suc left) i dest [] at len = absurd (omega arith)
  check_from (suc left) i dest (x ∷ rest) at len =
      elim (Option-cases (shortest (has_word ws) (x ∷ rest))) [
        | inl e ↦
            let misses : (find (drop i dest) (tree_of ws)).0 ≡ false =
              ap (λ t. (find t (tree_of ws)).0) at ∙ find_miss ws (x ∷ rest) e in
            let next : drop (i + 1) dest ≡ rest = sym (drop-drop 1 i dest) ∙ ap (drop 1) at in
            rw (misses, e, check_loop, any_word)
              (check_from left (i + 1) dest rest next (omega arith))
        | inr (n, e) ↦
            let hits : (find (drop i dest) (tree_of ws)).0 ≡ true =
              ap (λ t. (find t (tree_of ws)).0) at
              ∙ ap (λ (r : Bool × ℕ). r.0) (find_hit ws (x ∷ rest) n e) in
            rw (hits, e, check_loop, any_word) refl
      ]

module _ (lower to_wide to_utf8 : List ℕ → List ℕ) (ws : List (List ℕ)) (f : WordFilter) where
  -- On a filter that is ready, over a tree of given words, `IsCensor` accepts a text that does not come
  -- out empty exactly if none of the words that are not empty occurs anywhere in it, in lower case.
  pub is_censor-any_word :
      (source : List ℕ)
      → f.initialized ≡ true
      → f.tree ≡ tree_of ws
      → 0 < length (to_wide (lower source))
      → is_censor lower to_wide to_utf8 source f
        ≡ not (any_word (has_word ws) (to_wide (lower source)))
  unfolding is_censor
  is_censor-any_word source ready tree some_text =
      let dest = to_wide (lower source) in
      let not_empty : (length dest == 0) ≡ false = ground arith in
      simp (ready, not_empty, tree) (check_from ws (length dest) 0 dest dest refl refl)

  -- What `Censor` makes of a text: the answer, and what is known of the masked texts.
  pub record Censors (rounds : ℕ) (source : List ℕ) : Type 0 where
    pub dest : List ℕ
    pub ret : List ℕ
    pub both :
        (dest, ret)
        ≡ mask (has_word ws) (length (to_wide source)) (to_wide (lower source)) (to_wide source)
    pub answer : censor lower to_wide to_utf8 rounds source f ≡ some (to_utf8 ret)
    pub same_length : length ret ≡ length dest
    pub clean : any_word (has_word ws) dest ≡ false

  -- On a filter that is ready, over a tree of words without stars, and a text of one character or more
  -- whose lower case has as many, `Censor` ends with one round more than characters: it puts a star in
  -- place of the shortest word at each place where one begins, going from the front, and keeps the
  -- other characters; the text in lower case, masked alike, then holds no word.
  pub censor-Censors :
      (source : List ℕ)
      → f.initialized ≡ true
      → f.tree ≡ tree_of ws
      → AreStarless ws
      → length (to_wide (lower source)) ≡ length (to_wide source)
      → 0 < length (to_wide source)
      → Censors (suc (length (to_wide source))) source
  unfolding censor
  censor-Censors source ready tree starless same some_text =
      let dest = to_wide (lower source) in
      let ret = to_wide source in
      let p = has_word ws in
      let out = mask p (length ret) dest ret in
      let lengths = length-mask p (length ret) dest ret (omega (arith, same)) in
      let t1 : (length dest == length ret) ≡ true = (==_iff _ _).1 same in
      let t2 : (length dest == 0) ≡ false = ground (arith, same) in
      let t3 : (length out.1 == 0) ≡ false = ground (arith, lengths, same) in
      let looped =
        loop-mask ws (length ret) [] [] dest ret refl (omega (arith, same)) (omega (arith, same)) in
      record {
        dest = out.0;
        ret = out.1;
        both = refl;
        answer = simp (ready, t1, t2, tree, looped, t3) refl;
        same_length = lengths.0;
        clean =
            any_word-mask p (has_word-IsStarless ws starless) (length ret) dest ret
              (omega (arith, same));
      }
