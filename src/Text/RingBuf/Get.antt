-- ===== src/Text/RingBuf/Get.antt =====
-- xrbase/text/ring_buf.h: `read` in ring mode.
use libev_test.Base.{
  ℕ, ◌+◌, ◌-◌, ◌<◌, ◌≡◌, ◌≢◌, refl, sym, ap, ◌∙◌, arith, true, false, List, [], ◌∷◌, ◌++◌, some,
  ◌==◌, length, length-append, ==_iff, take, drop, take-append_self, drop-append_self,
}
use libev_test.Text.Bytes.{to_bytes, from_bytes}
use libev_test.Text.Bytes.Number.{length-to_bytes, from_bytes-to_bytes}
use libev_test.Text.RingBuf.{RingBuf, len_size, read, read_chunk_head, read_chunk}
use libev_test.Text.RingBuf.Stored.{stored, held, length-stored, size_of-held}
use libev_test.Text.RingBuf.Remove.{read_chunk-Reads}
use libev_test.Text.RingBuf.Messages.{
  frames, Holds, get, frames-cons, length-frames_cons, held-frames,
}

same_front :
    (bs cs xs ys : List ℕ) → bs ++ xs ≡ cs ++ ys → length bs ≡ length cs → (bs ≡ cs) × (xs ≡ ys)
same_front bs cs xs ys e h = (
  sym (take-append_self bs xs)
      ∙ ap (take (length bs)) e
      ∙ ap (λ n. take n (cs ++ ys)) h
      ∙ take-append_self cs ys,
  sym (drop-append_self bs xs)
      ∙ ap (drop (length bs)) e
      ∙ ap (λ n. drop n (cs ++ ys)) h
      ∙ drop-append_self cs ys,
)

-- What a read comes to.
pub record Got (r : RingBuf) (o : RingBuf × ℕ × List ℕ) (expected : List (List ℕ) × ℕ × List ℕ)
    : Type 0 where
  pub after : RingBuf
  pub result : o ≡ (after, expected.1, expected.2)
  pub holds : Holds after expected.0
  pub same_size : after.max_size ≡ r.max_size

read_chunk_head-ring :
    (r : RingBuf) (c : List ℕ × ℕ)
    → r.is_ring ≡ true
    → read_chunk r.max_size r.head r.tail len_size r.content ≡ some c
    → read_chunk_head r ≡ some (from_bytes c.0, c.1)
unfolding read_chunk_head
read_chunk_head-ring r c ring e = rw (e, ring, read_chunk_head) refl

read-whole :
    (r : RingBuf) (len head : ℕ) (d : List ℕ × ℕ)
    → r.count ≢ 0
    → read_chunk_head r ≡ some (len, head)
    → read_chunk r.max_size head r.tail len r.content ≡ some d
    → read r ≡ (record r { head = d.1; count = r.count - 1 }, 1, d.0)
unfolding read
read-whole r len head d some_count e e' =
    let t : (r.count == 0) ≡ false = ground arith in rw (t, e, e', read) refl

pub read-Got : (r : RingBuf) (ms : List (List ℕ)) → Holds r ms → Got r (read r) (get ms)
unfolding get
read-Got r [] v =
    let t : (r.count == 0) ≡ true = (==_iff _ _).1 v.counted in
    record { after = r; result = unfold read in rw (t, read) refl; holds = v; same_size = refl }
read-Got r (m ∷ ms) v =
    let tag = to_bytes len_size (length m) in
    let four = length-to_bytes len_size (length m) in
    let all : held r.max_size r.head r.tail ≡ len_size + (length m + length (frames ms)) =
      held-frames r (m ∷ ms) v ∙ length-frames_cons m ms in
    let (c, first, w) =
      read_chunk-Reads r.max_size r.head r.tail len_size r.content v.placed (omega (arith, all)) in
    let (is_tag, behind) =
      same_front c.0 tag (stored r.max_size c.1 r.tail r.content) (m ++ frames ms)
        (sym w.split ∙ v.bytes ∙ frames-cons m ms) (w.sized ∙ sym four) in
    let below : held r.max_size r.head r.tail < r.max_size =
      (size_of-held r.max_size r.head r.tail r.content v.placed).1 in
    let len : from_bytes c.0 ≡ length m =
      ap from_bytes is_tag
      ∙ from_bytes-to_bytes len_size (length m) (omega (arith, all, below, v.small)) in
    let left : held r.max_size c.1 r.tail ≡ length m + length (frames ms) =
      sym (length-stored r.max_size c.1 r.tail r.content w.placed)
      ∙ ap length behind
      ∙ length-append m (frames ms) in
    let (d, second, w') =
      read_chunk-Reads r.max_size c.1 r.tail (length m) r.content w.placed (omega (arith, left)) in
    let (is_m, rest) =
      same_front d.0 m (stored r.max_size d.1 r.tail r.content) (frames ms) (sym w'.split ∙ behind)
        w'.sized in
    let head : read_chunk_head r ≡ some (length m, c.1) =
      read_chunk_head-ring r c v.in_ring_mode first ∙ ap (λ n. some (n, c.1)) len in
    record {
      after = record r { head = d.1; count = r.count - 1 };
      result =
          read-whole r (length m) c.1 d (ground (arith, v.counted)) head second
          ∙ ap (λ b. (record r { head = d.1; count = r.count - 1 }, 1, b)) is_m;
      holds = record {
        placed = w'.placed;
        bytes = rest;
        counted = omega (arith, v.counted);
        in_ring_mode = v.in_ring_mode;
        small = v.small;
      };
      same_size = refl;
    }
