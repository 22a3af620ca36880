-- ===== src/Text/RingBuf/Messages.antt =====
-- xrbase/text/ring_buf.h: the messages that the bytes of the ring stand for.
use libev_test.Base.{
  ℕ, ◌+◌, ◌^◌, ◌≤◌, ◌≡◌, refl, sym, ap, ◌∙◌, arith, true, List, [], ◌∷◌, ◌++◌, ltb, if◌then◌else◌,
  length, length-append,
}
use mathlib.Core.List.{append_assoc, append-nil}
use libev_test.Text.Bytes.{to_bytes}
use libev_test.Text.Bytes.Number.{length-to_bytes}
use libev_test.Text.RingBuf.{RingBuf, len_size}
use libev_test.Text.RingBuf.Stored.{stored, held, IsPlaced, length-stored}

-- Messages as they stand in the ring.
unfoldable pub frames : List (List ℕ) → List ℕ
frames [] = []
frames (m ∷ ms) = to_bytes len_size (length m) ++ (m ++ frames ms)

-- The ring, in ring mode, holds these messages.
pub record Holds (r : RingBuf) (ms : List (List ℕ)) : Type 0 where
  pub placed : IsPlaced r.max_size r.head r.tail r.content
  pub bytes : stored r.max_size r.head r.tail r.content ≡ frames ms
  pub counted : r.count ≡ length ms
  pub in_ring_mode : r.is_ring ≡ true
  pub small : r.max_size ≤ 2 ^ 30

-- The messages after a write, with the answer: a message needs its bytes, four for its length, and one
-- that stays free.
unfoldable pub put : ℕ → List ℕ → List (List ℕ) → List (List ℕ) × ℕ
put max m ms =
    if ltb (len_size + length m + length (frames ms)) max then (ms ++ m ∷ [], 1) else (ms, 0)

-- The messages after a read, with the answer and the message.
unfoldable pub get : List (List ℕ) → List (List ℕ) × ℕ × List ℕ
get [] = ([], 2, [])
get (m ∷ ms) = (ms, 1, m)

pub frames-append :
    (ms : List (List ℕ)) (m : List ℕ)
    → frames (ms ++ m ∷ []) ≡ frames ms ++ (to_bytes len_size (length m) ++ m)
unfolding frames
frames-append [] m = ap (λ xs. to_bytes len_size (length m) ++ xs) (append-nil m)
frames-append (n ∷ ms) m =
    ap (λ xs. to_bytes len_size (length n) ++ (n ++ xs)) (frames-append ms m)
    ∙ ap (λ xs. to_bytes len_size (length n) ++ xs)
        (sym (append_assoc n (frames ms) (to_bytes len_size (length m) ++ m)))
    ∙ sym (
        append_assoc (to_bytes len_size (length n)) (n ++ frames ms)
          (to_bytes len_size (length m) ++ m))

pub frames-cons :
    (m : List ℕ) (ms : List (List ℕ))
    → frames (m ∷ ms) ≡ to_bytes len_size (length m) ++ (m ++ frames ms)
unfolding frames
frames-cons m ms = refl

pub length-frames_cons :
    (m : List ℕ) (ms : List (List ℕ))
    → length (frames (m ∷ ms)) ≡ len_size + (length m + length (frames ms))
length-frames_cons m ms =
    ap length (frames-cons m ms)
    ∙ omega (
      arith,
      length-append (to_bytes len_size (length m)) (m ++ frames ms),
      length-append m (frames ms),
      length-to_bytes len_size (length m),
    )

module _ (r : RingBuf) (ms : List (List ℕ)) (v : Holds r ms) where
  pub held-frames : held r.max_size r.head r.tail ≡ length (frames ms)
  held-frames = sym (length-stored r.max_size r.head r.tail r.content v.placed) ∙ ap length v.bytes
