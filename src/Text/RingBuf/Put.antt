-- ===== src/Text/RingBuf/Put.antt =====
-- xrbase/text/ring_buf.h: `write` in ring mode.
use libev_test.Base.{
  ℕ, ◌+◌, ◌≡◌, refl, sym, ap, ◌∙◌, arith, true, false, List, [], ◌∷◌, ◌++◌, Option, none, some, ltb,
  length, length-append, inl, inr, Bool-cases,
}
use mathlib.Core.List.{append_assoc}
use libev_test.Text.Bytes.{to_bytes}
use libev_test.Text.Bytes.Number.{length-to_bytes}
use libev_test.Text.RingBuf.{RingBuf, len_size, write, write_at, write_chunk}
use libev_test.Text.RingBuf.Stored.{stored, held, length-stored}
use libev_test.Text.RingBuf.Append.{Writes, write_chunk-Writes, write_chunk-none}
use libev_test.Text.RingBuf.Messages.{frames, Holds, put, frames-append, held-frames}

-- What a write comes to.
pub record Wrote (r : RingBuf) (o : Option (RingBuf × ℕ)) (expected : List (List ℕ) × ℕ)
    : Type 0 where
  pub after : RingBuf
  pub result : o ≡ some (after, expected.1)
  pub holds : Holds after expected.0
  pub same_size : after.max_size ≡ r.max_size

module _ (tail : ℕ) (m : List ℕ) (r : RingBuf) where
  write_at-no_length :
      write_chunk r.max_size r.head tail (to_bytes len_size (length m)) r.content ≡ some none
      → write_at tail m r ≡ some (r, 0)
  unfolding write_at
  write_at-no_length e = rw (e, write_at) refl

  write_at-no_body :
      (c : List ℕ × ℕ)
      → write_chunk r.max_size r.head tail (to_bytes len_size (length m)) r.content ≡ some (some c)
      → write_chunk r.max_size r.head c.1 m c.0 ≡ some none
      → write_at tail m r ≡ some (record r { content = c.0 }, 0)
  unfolding write_at
  write_at-no_body c e e' = rw (e, e', write_at) refl

  write_at-whole :
      (c d : List ℕ × ℕ)
      → write_chunk r.max_size r.head tail (to_bytes len_size (length m)) r.content ≡ some (some c)
      → write_chunk r.max_size r.head c.1 m c.0 ≡ some (some d)
      → write_at tail m r ≡ some (record r { content = d.0; tail = d.1; count = r.count + 1 }, 1)
  unfolding write_at
  write_at-whole c d e e' = rw (e, e', write_at) refl

module _ (r : RingBuf) (ms : List (List ℕ)) (v : Holds r ms) where
  -- After a length whose message found no room, and after a length and its message.
  Holds-kept :
      {len : List ℕ} (c : List ℕ × ℕ)
      → Writes r.max_size r.head r.tail len r.content c
      → Holds (record r { content = c.0 }) ms
  Holds-kept c w = record {
    placed = record {
      sized = w.sized_before;
      positive = v.placed.positive;
      head_in = v.placed.head_in;
      tail_in = v.placed.tail_in;
      not_full = v.placed.not_full;
    };
    bytes = w.kept ∙ v.bytes;
    counted = v.counted;
    in_ring_mode = v.in_ring_mode;
    small = v.small;
  }

  Holds-added :
      (m : List ℕ) (c d : List ℕ × ℕ)
      → Writes r.max_size r.head r.tail (to_bytes len_size (length m)) r.content c
      → Writes r.max_size r.head c.1 m c.0 d
      → Holds (record r { content = d.0; tail = d.1; count = r.count + 1 }) (ms ++ m ∷ [])
  Holds-added m c d w w' =
      let len = to_bytes len_size (length m) in
      record {
        placed = w'.placed;
        bytes =
            w'.appended
            ∙ ap (λ xs. xs ++ m) (w.appended ∙ ap (λ xs. xs ++ len) v.bytes)
            ∙ append_assoc (frames ms) len m
            ∙ sym (frames-append ms m);
        counted = omega (arith, v.counted, length-append ms (m ∷ []));
        in_ring_mode = v.in_ring_mode;
        small = v.small;
      }

  write_at-Wrote : (m : List ℕ) → Wrote r (write_at r.tail m r) (put r.max_size m ms)
  unfolding put
  write_at-Wrote m =
      let len = to_bytes len_size (length m) in
      let four = length-to_bytes len_size (length m) in
      elim (Bool-cases (ltb (length len + held r.max_size r.head r.tail) r.max_size)) [
        | inr full ↦
            let no_len =
              write_chunk-none r.max_size r.head r.tail len r.content v.placed (ground arith) in
            let refused : ltb (len_size + length m + length (frames ms)) r.max_size ≡ false =
              ground (arith, four, held-frames r ms v) in
            simp refused record {
              after = r;
              result = write_at-no_length r.tail m r no_len;
              holds = v;
              same_size = refl;
            }
        | inl some_room ↦
            let (c, first, w) =
              write_chunk-Writes r.max_size r.head r.tail len r.content v.placed (ground arith) in
            let more : held r.max_size r.head c.1 ≡ length (frames ms) + len_size =
              sym (length-stored r.max_size r.head c.1 c.0 w.placed)
              ∙ ap length w.appended
              ∙ length-append (stored r.max_size r.head r.tail r.content) len
              ∙ omega (arith, ap (length {A = ℕ}) v.bytes, four) in
            elim (Bool-cases (ltb (length m + held r.max_size r.head c.1) r.max_size)) [
              | inr full ↦
                  let no_body =
                    write_chunk-none r.max_size r.head c.1 m c.0 w.placed (ground arith) in
                  let refused : ltb (len_size + length m + length (frames ms)) r.max_size ≡ false =
                    ground (arith, more) in
                  simp refused record {
                    after = record r { content = c.0 };
                    result = write_at-no_body r.tail m r c first no_body;
                    holds = Holds-kept c w;
                    same_size = refl;
                  }
              | inl room ↦
                  let (d, second, w') =
                    write_chunk-Writes r.max_size r.head c.1 m c.0 w.placed (ground arith) in
                  let taken : ltb (len_size + length m + length (frames ms)) r.max_size ≡ true =
                    ground (arith, more) in
                  simp taken record {
                    after = record r { content = d.0; tail = d.1; count = r.count + 1 };
                    result = write_at-whole r.tail m r c d first second;
                    holds = Holds-added m c d w w';
                    same_size = refl;
                  }
            ]
      ]

pub write-Wrote :
    (r : RingBuf) (ms : List (List ℕ))
    → Holds r ms
    → (m : List ℕ) → Wrote r (write (some m) r) (put r.max_size m ms)
unfolding write
write-Wrote r ms v m = simp v.in_ring_mode (write_at-Wrote r ms v m)
