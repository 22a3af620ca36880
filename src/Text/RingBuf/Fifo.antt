-- ===== src/Text/RingBuf/Fifo.antt =====
-- xrbase/text/ring_buf.h: in ring mode the ring is a first-in-first-out queue of messages.
use libev_test.Base.{
  ℕ, ◌^◌, ◌≤◌, ◌<◌, ◌≡◌, refl, ap, ◌∙◌, arith, true, List, [], ◌∷◌, Option, none, some, length,
}
use libev_test.Text.RingBuf.{RingBuf, write, read, init}
use libev_test.Text.RingBuf.Messages.{frames, Holds, put, get}
use libev_test.Text.RingBuf.Put.{write-Wrote}
use libev_test.Text.RingBuf.Get.{read-Got}

-- Calls of the ring, and what they answer.
pub data Call : Type 0 where
  writes : List ℕ → Call
  reads : Call

pub data Reply : Type 0 where
  wrote : ℕ → Reply
  got : ℕ → List ℕ → Reply

-- The ring's answers; none if a `memcpy` writes past the end of the content.
pub run_ring : List Call → RingBuf → Option (List Reply)
run_ring [] r = some []
run_ring (writes m ∷ cs) r = elim (write (some m) r) [
  | none ↦ none
  | some (r', answer) ↦ elim (run_ring cs r') [
    | none ↦ none
    | some later ↦ some (wrote answer ∷ later)
  ]
]
run_ring (reads ∷ cs) r =
    let (r', answer, m) = read r in
    elim (run_ring cs r') [ none ↦ none | some later ↦ some (got answer m ∷ later) ]

-- The answers of a queue of messages with room for so many bytes.
pub run_queue : ℕ → List Call → List (List ℕ) → List Reply
run_queue max [] ms = []
run_queue max (writes m ∷ cs) ms =
    let (ms', answer) = put max m ms in wrote answer ∷ run_queue max cs ms'
run_queue max (reads ∷ cs) ms = let (ms', answer, m) = get ms in got answer m ∷ run_queue max cs ms'

run_ring-reads :
    (cs : List Call) (r a : RingBuf) (n : ℕ) (m : List ℕ) (out : List Reply)
    → (read r).0 ≡ a
    → (read r).1 ≡ n
    → (read r).2 ≡ m
    → run_ring cs a ≡ some out
    → run_ring (reads ∷ cs) r ≡ some (got n m ∷ out)
unfolding run_ring
run_ring-reads cs r a n m out e0 e1 e2 h = rw (e0, run_ring, h) λ i. some (got (e1 i) (e2 i) ∷ out)

-- In ring mode, no sequence of writes and reads tells a ring that holds some messages from the
-- first-in-first-out queue of these messages that takes a message while its bytes, four more and one
-- are free; and no `memcpy` writes past the end of the content.
pub run_ring_refines :
    (cs : List Call) (r : RingBuf) (ms : List (List ℕ))
    → Holds r ms
    → run_ring cs r ≡ some (run_queue r.max_size cs ms)
unfolding run_ring run_queue
run_ring_refines [] r ms v = refl
run_ring_refines (writes m ∷ cs) r ms v =
    let w = write-Wrote r ms v m in
    let ih =
      run_ring_refines cs w.after (put r.max_size m ms).0 w.holds
      ∙ ap (λ n. some (run_queue n cs (put r.max_size m ms).0)) w.same_size in
    rw (w.result, run_ring, ih) refl
run_ring_refines (reads ∷ cs) r ms v =
    let w = read-Got r ms v in
    let ih =
      run_ring_refines cs w.after (get ms).0 w.holds
      ∙ ap (λ n. some (run_queue n cs (get ms).0)) w.same_size in
    run_ring-reads cs r w.after (get ms).1 (get ms).2 (run_queue r.max_size cs (get ms).0)
      (ap (λ (t : RingBuf × ℕ × List ℕ). t.0) w.result)
      (ap (λ (t : RingBuf × ℕ × List ℕ). t.1) w.result)
      (ap (λ (t : RingBuf × ℕ × List ℕ). t.2) w.result) ih

-- A ring that was just initialised holds nothing.
pub init-Holds :
    (max : ℕ) (r : RingBuf)
    → 0 < max
    → max ≤ 2 ^ 30
    → length r.content ≡ max
    → Holds (init max true r) []
unfolding init frames
init-Holds max r positive small sized = record {
  placed = record {
    sized = sized;
    positive = positive;
    head_in = omega arith;
    tail_in = omega arith;
    not_full = omega arith;
  };
  bytes = refl;
  counted = refl;
  in_ring_mode = refl;
  small = small;
}
