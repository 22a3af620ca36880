-- ===== src/Text/RingBuf/Append.antt =====
-- xrbase/text/ring_buf.h: `_write_chunk` appends to the bytes that the ring holds.
use libev_test.Base.{
  ℕ, ◌+◌, ◌-◌, ◌≤◌, ◌<◌, ◌≡◌, refl, sym, ap, ◌∙◌, arith, true, false, List, ◌++◌, none, some, ltb,
  leb, length, take, drop, length-take, length-drop, take-append-drop, inl, inr, Bool-cases, le→ltb,
  le→leb, lt→leb,
}
use mathlib.Core.List.{append_assoc}
use libev_test.Base.{overwrite, memcpy_inside}
use libev_test.Text.RingBuf.{unused_size, write_chunk}
use libev_test.Text.RingBuf.Slices.{
  slice, slice-split, slice-before, slice-at, slice-after, length-overwrite,
}
use libev_test.Text.RingBuf.Stored.{stored, IsPlaced, held, size_of-held, stored-le, stored-lt}

-- What a chunk that is written does: it stands behind what was stored, which stays.
pub record Writes (max head tail : ℕ) (buf content : List ℕ) (r : List ℕ × ℕ) : Type 0 where
  pub placed : IsPlaced max head r.1 r.0
  pub appended : stored max head r.1 r.0 ≡ stored max head tail content ++ buf
  pub sized_before : length r.0 ≡ max
  pub kept : stored max head tail r.0 ≡ stored max head tail content

module _ (max head tail : ℕ) (buf content : List ℕ) (v : IsPlaced max head tail content) where
  -- Behind the stored bytes, before the end of the ring.
  Writes-behind :
      head ≤ tail
      → tail + length buf ≤ max
      → length buf < max - (tail - head)
      → Writes max head tail buf content (overwrite tail buf content, tail + length buf)
  Writes-behind h fits room =
      let inside : tail + length buf ≤ length content = omega (arith, v.sized) in
      let new = overwrite tail buf content in
      let same = slice-before tail buf content inside head tail h (omega arith) in
      record {
        placed = record {
          sized = length-overwrite tail buf content inside ∙ v.sized;
          positive = v.positive;
          head_in = v.head_in;
          tail_in = fits;
          not_full = omega (arith, v.tail_in);
        };
        appended =
            stored-le max head (tail + length buf) new (omega arith)
            ∙ slice-split head tail (tail + length buf) new h (omega arith)
            ∙ ap (λ ys. ys ++ slice tail (tail + length buf) new) same
            ∙ ap (λ ys. slice head tail content ++ ys) (slice-at tail buf content inside)
            ∙ ap (λ ys. ys ++ buf) (sym (stored-le max head tail content h));
        sized_before = length-overwrite tail buf content inside ∙ v.sized;
        kept = stored-le max head tail new h ∙ same ∙ sym (stored-le max head tail content h);
      }

  -- Into the gap before the head.
  Writes-gap :
      tail < head
      → tail + length buf < head
      → Writes max head tail buf content (overwrite tail buf content, tail + length buf)
  Writes-gap h room =
      let inside : tail + length buf ≤ length content = omega (arith, v.sized, v.head_in) in
      let new = overwrite tail buf content in
      let same = slice-after tail buf content inside head max (omega arith) in
      let front = slice-before tail buf content inside 0 tail (omega arith) (omega arith) in
      record {
        placed = record {
          sized = length-overwrite tail buf content inside ∙ v.sized;
          positive = v.positive;
          head_in = v.head_in;
          tail_in = omega (arith, v.head_in);
          not_full = omega (arith, v.head_in);
        };
        appended =
            stored-lt max head (tail + length buf) new room
            ∙ ap (λ ys. ys ++ slice 0 (tail + length buf) new) same
            ∙ ap (λ ys. slice head max content ++ ys)
                (slice-split 0 tail (tail + length buf) new (omega arith) (omega arith)
                  ∙ ap (λ ys. ys ++ slice tail (tail + length buf) new) front
                  ∙ ap (λ ys. slice 0 tail content ++ ys) (slice-at tail buf content inside))
            ∙ sym (append_assoc (slice head max content) (slice 0 tail content) buf)
            ∙ ap (λ ys. ys ++ buf) (sym (stored-lt max head tail content h));
        sized_before = length-overwrite tail buf content inside ∙ v.sized;
        kept =
            stored-lt max head tail new h
            ∙ ap (λ ys. ys ++ slice 0 tail new) same
            ∙ ap (λ ys. slice head max content ++ ys) front
            ∙ sym (stored-lt max head tail content h);
      }

  -- Round the end of the ring.
  Writes-round :
      head ≤ tail
      → max < tail + length buf
      → tail + length buf - max < head
      → Writes max head tail buf content (
        overwrite 0 (drop (max - tail) buf) (overwrite tail (take (max - tail) buf) content),
        tail + length buf - max,
      )
  Writes-round h over room =
      let one = take (max - tail) buf in
      let two = drop (max - tail) buf in
      let len_one : length one ≡ max - tail = omega (arith, length-take (max - tail) buf) in
      let len_two : length two ≡ tail + length buf - max =
        omega (arith, length-drop (max - tail) buf, v.tail_in) in
      let inside : tail + length one ≤ length content =
        omega (arith, v.sized, v.tail_in, len_one) in
      let mid = overwrite tail one content in
      let mid_len = length-overwrite tail one content inside in
      let inside' : 0 + length two ≤ length mid =
        omega (arith, mid_len, v.sized, len_two, v.head_in) in
      let new = overwrite 0 two mid in
      let sized : length new ≡ max = length-overwrite 0 two mid inside' ∙ mid_len ∙ v.sized in
      let back = slice-after 0 two mid inside' head tail (omega (arith, len_two)) in
      let kept' = back ∙ slice-before tail one content inside head tail h (omega arith) in
      let rest = tail + length buf - max in
      let end : slice tail max new ≡ one =
        slice-after 0 two mid inside' tail max (omega (arith, len_two))
        ∙ ap (λ k. slice tail k mid) {x = max} {y = tail + length one}
            (omega (arith, len_one, v.tail_in))
        ∙ slice-at tail one content inside in
      let start : slice 0 rest new ≡ two =
        ap (λ k. slice 0 k new) {x = rest} {y = 0 + length two} (omega (arith, len_two))
        ∙ slice-at 0 two mid inside' in
      record {
        placed = record {
          sized = sized;
          positive = v.positive;
          head_in = v.head_in;
          tail_in = omega (arith, v.head_in);
          not_full = omega (arith, v.head_in);
        };
        appended =
            stored-lt max head rest new room
            ∙ ap (λ ys. ys ++ slice 0 rest new) (slice-split head tail max new h v.tail_in)
            ∙ (λ i. (kept' i ++ end i) ++ start i)
            ∙ append_assoc (slice head tail content) one two
            ∙ ap (λ ys. slice head tail content ++ ys) (take-append-drop (max - tail) buf)
            ∙ ap (λ ys. ys ++ buf) (sym (stored-le max head tail content h));
        sized_before = sized;
        kept = stored-le max head tail new h ∙ kept' ∙ sym (stored-le max head tail content h);
      }

  room_left : unused_size max head tail ≡ max - held max head tail - 1
  unfolding unused_size
  room_left = ap (λ n. max - n - 1) (size_of-held max head tail content v).0

  module _ (room : leb (length buf) (unused_size max head tail) ≡ true) where
    -- One chunk that ends before the end of the ring, and two that go round it.
    write_chunk-within :
        ltb max (tail + length buf) ≡ false
        → tail + length buf ≤ length content
        → write_chunk max head tail buf content
          ≡ some (some (overwrite tail buf content, tail + length buf))
    unfolding write_chunk
    write_chunk-within e inside = rw (room, e, memcpy_inside tail buf content inside) refl

    write_chunk-over :
        let one = take (max - tail) buf in
        let two = drop (max - tail) buf in
        ltb max (tail + length buf) ≡ true
        → tail + length one ≤ length content
        → 0 + length two ≤ length (overwrite tail one content)
        → write_chunk max head tail buf content
          ≡ some (some (overwrite 0 two (overwrite tail one content), tail + length buf - max))
    unfolding write_chunk
    write_chunk-over e inside inside' =
        rw
          (
            room,
            e,
            memcpy_inside tail (take (max - tail) buf) content inside,
            memcpy_inside 0 (drop (max - tail) buf) (overwrite tail (take (max - tail) buf) content)
                inside',
          )
          refl

  -- Where the bytes go lies inside the content.
  first_inside : max < tail + length buf → tail + length (take (max - tail) buf) ≤ length content
  first_inside over = omega (arith, v.sized, v.tail_in, length-take (max - tail) buf)

  second_inside :
      max < tail + length buf
      → length buf < max + max - tail
      → 0 + length (drop (max - tail) buf) ≤ length (overwrite tail (take (max - tail) buf) content)
  second_inside over less = omega (
    arith,
    v.sized,
    v.tail_in,
    length-drop (max - tail) buf,
    length-overwrite tail (take (max - tail) buf) content (first_inside over),
  )

  pub write_chunk-Writes :
      length buf + held max head tail < max
      → (r : List ℕ × ℕ) × (write_chunk max head tail buf content ≡ some (some r))
        × Writes max head tail buf content r
  write_chunk-Writes fits =
      let room : leb (length buf) (unused_size max head tail) ≡ true =
        le→leb _ _ (omega (arith, room_left, fits)) in
      elim (Bool-cases (leb head tail)) [
        | inl e ↦
            let h : head ≤ tail = ground arith in
            let fits' : length buf + (tail - head) < max = ground arith in
            elim (Bool-cases (ltb max (tail + length buf))) [
              | inl over ↦
                  let o : max < tail + length buf = ground arith in
                  (
                    _,
                    write_chunk-over room over (first_inside o)
                        (second_inside o (omega (arith, fits', v.tail_in, v.head_in))),
                    Writes-round h o (omega (arith, fits', v.tail_in, o)),
                  )
              | inr within ↦ (
                _,
                write_chunk-within room within (ground (arith, v.sized)),
                Writes-behind h (ground arith) (omega (arith, fits')),
              )
            ]
        | inr e ↦
            let h : tail < head = ground arith in
            let gap : tail + length buf < head = ground (arith, v.head_in) in
            let within : ltb max (tail + length buf) ≡ false =
              le→ltb _ _ (omega (arith, gap, v.head_in)) in
            (
              _,
              write_chunk-within room within (omega (arith, v.sized, gap, v.head_in)),
              Writes-gap h gap,
            )
      ]

  pub write_chunk-none :
      max ≤ length buf + held max head tail → write_chunk max head tail buf content ≡ some none
  unfolding write_chunk
  write_chunk-none full =
      rw
        (lt→leb (length buf) (unused_size max head tail)
          (omega (arith, room_left, full, (size_of-held max head tail content v).1)))
        refl
