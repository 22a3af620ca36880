-- ===== src/Text/RingBuf.antt =====
-- xrbase/text/ring_buf.h: messages in a ring of bytes, each behind its length. A position is a number up
-- to the size of the ring, which is below 2^30, so that the `int32_t` sums do not wrap.
pub mod Slices
pub mod Stored
pub mod Append
pub mod Remove
pub mod Messages
pub mod Put
pub mod Get
pub mod Fifo
mod Tests
use libev_test.Base.{
  ℕ, ◌+◌, ◌-◌, ◌%◌, Bool, true, false, not, ◌&&◌, ◌||◌, List, [], ◌∷◌, ◌++◌, Option, none, some,
  ltb, leb, ◌==◌, if◌then◌else◌, length, take, drop, memcpy,
}
use libev_test.Text.Bytes.{to_bytes, from_bytes}

pub record RingBuf : Type 0 where
  pub head : ℕ
  pub tail : ℕ
  pub count : ℕ
  pub max_size : ℕ
  pub is_ring : Bool
  pub content : List ℕ

abbrev pub len_size : ℕ
len_size = 4

-- `MAX_VALID`, `INT32_MAX`
abbrev pub max_valid : ℕ
max_valid = 0x7fffffff

unfoldable pub init : ℕ → Bool → RingBuf → RingBuf
init max_size is_ring r = record r {
  head = 0;
  tail = 0;
  count = 0;
  max_size = max_size;
  is_ring = is_ring;
}

unfoldable pub clear : RingBuf → RingBuf
clear r = record r { head = 0; tail = 0; count = 0 }

-- `_size` and `_unused_size`
unfoldable pub size_of : ℕ → ℕ → ℕ → ℕ
size_of max head tail = (tail + max - head) % max

unfoldable pub unused_size : ℕ → ℕ → ℕ → ℕ
unfolding size_of
unused_size max head tail = max - size_of max head tail - 1

-- `_write_chunk`: the content and the tail, or none inside if the answer is 0. The outcome is none if a
-- `memcpy` would write past the end of the content.
unfoldable pub write_chunk : ℕ → ℕ → ℕ → List ℕ → List ℕ → Option (Option (List ℕ × ℕ))
unfolding unused_size
write_chunk max head tail buf content =
    let len = length buf in
    if leb len (unused_size max head tail)
    then if ltb max (tail + len)
      then elim (memcpy tail (take (max - tail) buf) content) [
        | none ↦ none
        | some first ↦ elim (memcpy 0 (drop (max - tail) buf) first) [
          | none ↦ none
          | some whole ↦ some (some (whole, tail + len - max))
        ]
      ]
      else elim (memcpy tail buf content) [
        | none ↦ none
        | some whole ↦ some (some (whole, tail + len))
      ]
    else some none

-- `_read_chunk`: the bytes and the head, none if the answer is 0.
unfoldable pub read_chunk : ℕ → ℕ → ℕ → ℕ → List ℕ → Option (List ℕ × ℕ)
unfolding size_of
read_chunk max head tail len content =
    if leb len (size_of max head tail)
    then if ltb max (head + len)
      then some (drop head content ++ take (head + len - max) content, head + len - max)
      else some (take len (drop head content), head + len)
    else none

-- The two chunks of `write` at a tail, for a message that is there.
pub write_at : ℕ → List ℕ → RingBuf → Option (RingBuf × ℕ)
write_at tail buf r =
    elim (write_chunk r.max_size r.head tail (to_bytes len_size (length buf)) r.content) [
      | none ↦ none
      | some none ↦ some (r, 0)
      | some (some (content, tail')) ↦ elim (write_chunk r.max_size r.head tail' buf content) [
        | none ↦ none
        | some none ↦ some (record r { content = content }, 0)
        | some (some (content', tail'')) ↦
            some (record r { content = content'; tail = tail''; count = r.count + 1 }, 1)
      ]
    ]

-- `write`; a null buffer is none. The outcome is none if a `memcpy` would write past the end of the
-- content, as that of the marker that sends readers to the front may.
unfoldable pub write : Option (List ℕ) → RingBuf → Option (RingBuf × ℕ)
unfolding write_at
write none r = some (r, 0)
write (some buf) r =
    let total = len_size + length buf in
    if not r.is_ring && ltb r.max_size (r.tail + total)
    then if ltb (total + 1) r.head && leb r.head r.tail
      then elim (memcpy r.tail (to_bytes len_size max_valid) r.content) [
        | none ↦ none
        | some marked ↦ write_at 0 buf (record r { content = marked })
      ]
      else some (r, 0)
    else write_at r.tail buf r

-- `_read_chunk_head`: the length of the next message and the head behind it.
pub read_chunk_head : RingBuf → Option (ℕ × ℕ)
read_chunk_head r =
    let at_front : Option (ℕ × ℕ) = elim (read_chunk r.max_size 0 r.tail len_size r.content) [
      | none ↦ none
      | some (bytes, head) ↦ some (from_bytes bytes, head)
    ] in
    elim (read_chunk r.max_size r.head r.tail len_size r.content) [
      | none ↦
          if not r.is_ring && ltb r.max_size (r.head + len_size)
          then if leb len_size r.tail && leb r.tail r.head then at_front else none
          else none
      | some (bytes, head) ↦
          if not r.is_ring && ltb r.max_size (r.head + len_size)
          then if leb len_size r.tail && leb r.tail r.head then at_front else none
          else if not r.is_ring && from_bytes bytes == max_valid
          then if leb len_size r.tail && leb r.tail head then at_front else none
          else some (from_bytes bytes, head)
    ]

-- `read`: the ring, the answer and the message.
unfoldable pub read : RingBuf → RingBuf × ℕ × List ℕ
unfolding read_chunk_head
read r = if r.count == 0 then (r, 2, []) else elim (read_chunk_head r) [
  | none ↦ (r, 0, [])
  | some (len, head) ↦ elim (read_chunk r.max_size head r.tail len r.content) [
    | none ↦ (r, 0, [])
    | some (bytes, head') ↦ (record r { head = head'; count = r.count - 1 }, 1, bytes)
  ]
]
