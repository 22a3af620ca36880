-- ===== src/Text/RingBuf/Remove.antt =====
-- xrbase/text/ring_buf.h: `_read_chunk` takes from the front of the bytes that the ring holds.
use libev_test.Base.{
  ℕ, ◌+◌, ◌-◌, ◌≤◌, ◌<◌, ◌≡◌, ◌⊎◌, refl, sym, ap, ◌∙◌, arith, true, false, List, ◌++◌, some, ltb,
  leb, length, take, drop, length-take, length-drop, length-append, inl, inr, Bool-cases, le→ltb,
  le→leb,
}
use mathlib.Core.List.{append_assoc}
use libev_test.Text.RingBuf.{size_of, read_chunk}
use libev_test.Text.RingBuf.Slices.{slice, slice-split, slice-all}
use libev_test.Text.RingBuf.Stored.{stored, IsPlaced, held, size_of-held, stored-le, stored-lt}

-- What a chunk that is read does: it is the front of what was stored, and the rest stays stored.
pub record Reads (max head tail len : ℕ) (content : List ℕ) (r : List ℕ × ℕ) : Type 0 where
  pub placed : IsPlaced max r.1 tail content
  pub sized : length r.0 ≡ len
  pub split : stored max head tail content ≡ r.0 ++ stored max r.1 tail content

module _ (max head tail len : ℕ) (content : List ℕ) (v : IsPlaced max head tail content) where
  Reads-front :
      head + len ≤ max
      → head + len ≤ tail ⊎ (tail < head)
      → Reads max head tail len content (take len (drop head content), head + len)
  Reads-front fits (inl h) = record {
    placed = record {
      sized = v.sized;
      positive = v.positive;
      head_in = fits;
      tail_in = v.tail_in;
      not_full = omega (arith, v.not_full);
    };
    sized = omega (arith, length-take len (drop head content), length-drop head content, v.sized);
    split =
        stored-le max head tail content (omega arith)
        ∙ slice-split head (head + len) tail content (omega arith) h
        ∙ ap (λ n. take n (drop head content) ++ slice (head + len) tail content)
            {x = head + len - head} {y = len} (omega arith)
        ∙ ap (λ ys. take len (drop head content) ++ ys)
            (sym (stored-le max (head + len) tail content h));
  }
  Reads-front fits (inr h) = record {
    placed = record {
      sized = v.sized;
      positive = v.positive;
      head_in = fits;
      tail_in = v.tail_in;
      not_full = omega (arith, v.not_full);
    };
    sized = omega (arith, length-take len (drop head content), length-drop head content, v.sized);
    split =
        stored-lt max head tail content h
        ∙ ap (λ ys. ys ++ slice 0 tail content)
            (slice-split head (head + len) max content (omega arith) fits
              ∙ ap (λ n. take n (drop head content) ++ slice (head + len) max content)
                  {x = head + len - head} {y = len} (omega arith))
        ∙ append_assoc (take len (drop head content)) (slice (head + len) max content)
            (slice 0 tail content)
        ∙ ap (λ ys. take len (drop head content) ++ ys)
            (sym (stored-lt max (head + len) tail content (omega arith)));
  }

  Reads-round :
      tail < head
      → max < head + len
      → head + len - max ≤ tail
      → Reads max head tail len content
          (drop head content ++ take (head + len - max) content, head + len - max)
  Reads-round h over room =
      let rest = head + len - max in
      record {
        placed = record {
          sized = v.sized;
          positive = v.positive;
          head_in = omega (arith, v.tail_in);
          tail_in = v.tail_in;
          not_full = omega (arith, v.head_in);
        };
        sized = omega (
          arith,
          length-append (drop head content) (take rest content),
          length-drop head content,
          length-take rest content,
          v.sized,
          v.head_in,
          v.tail_in,
        );
        split =
            stored-lt max head tail content h
            ∙ ap (λ ys. ys ++ slice 0 tail content) (slice-all head max content v.sized v.head_in)
            ∙ ap (λ ys. drop head content ++ ys)
                (slice-split 0 rest tail content (omega arith) room)
            ∙ ap (λ n. drop head content ++ (take n content ++ slice rest tail content))
                {x = rest - 0} {y = rest} (omega arith)
            ∙ sym (append_assoc (drop head content) (take rest content) (slice rest tail content))
            ∙ ap (λ ys. (drop head content ++ take rest content) ++ ys)
                (sym (stored-le max rest tail content room));
      }

  pub read_chunk-Reads :
      len ≤ held max head tail
      → (r : List ℕ × ℕ) × (read_chunk max head tail len content ≡ some r)
        × Reads max head tail len content r
  unfolding read_chunk
  read_chunk-Reads there =
      let room : leb len (size_of max head tail) ≡ true =
        le→leb _ _ (omega (arith, there, (size_of-held max head tail content v).0)) in
      elim (Bool-cases (leb head tail)) [
        | inl e ↦
            let h : head + len ≤ tail = ground arith in
            let within : ltb max (head + len) ≡ false = le→ltb _ _ (omega (arith, h, v.tail_in)) in
            rw (room, within) (_, refl, Reads-front (omega (arith, h, v.tail_in)) (inl h))
        | inr e ↦
            let h : tail < head = ground arith in
            let there' : len ≤ tail + max - head = ground arith in
            elim (Bool-cases (ltb max (head + len))) [
              | inl over ↦
                  let o : max < head + len = ground arith in
                  rw (room, over) (_, refl, Reads-round h o (omega (arith, there', v.head_in)))
              | inr within ↦ rw (room, within) (_, refl, Reads-front (ground arith) (inr h))
            ]
      ]
