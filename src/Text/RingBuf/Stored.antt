-- ===== src/Text/RingBuf/Stored.antt =====
-- xrbase/text/ring_buf.h: the bytes that the ring holds.
use libev_test.Base.{
  ℕ, ◌+◌, ◌-◌, ◌%◌, ◌≤◌, ◌<◌, ◌≡◌, refl, ◌∙◌, arith, List, ◌++◌, leb, if◌then◌else◌, length,
  length-append, inl, inr, Bool-cases, le→leb, lt→leb,
}
use native.Mathlib.Nat.{mod-eq_of_lt, mod-eq-sub-mod}
use libev_test.Text.RingBuf.{size_of}
use libev_test.Text.RingBuf.Slices.{slice, length-slice}

-- From the head to the tail, round the end of the ring.
abbrev pub stored : ℕ → ℕ → ℕ → List ℕ → List ℕ
stored max head tail content =
    if leb head tail
    then slice head tail content
    else slice head max content ++ slice 0 tail content

-- Positions in a ring with as many bytes. Head at the front and tail at the end would be a full ring,
-- which the code does not tell from an empty one.
pub record IsPlaced (max head tail : ℕ) (content : List ℕ) : Type 0 where
  pub sized : length content ≡ max
  pub positive : 0 < max
  pub head_in : head ≤ max
  pub tail_in : tail ≤ max
  pub not_full : tail < head + max

abbrev pub held : ℕ → ℕ → ℕ → ℕ
held max head tail = if leb head tail then tail - head else tail + max - head

pub size_of-held :
    (max head tail : ℕ) (content : List ℕ)
    → IsPlaced max head tail content
    → (size_of max head tail ≡ held max head tail) × (held max head tail < max)
unfolding size_of
size_of-held max head tail content v =
    let n = tail + max - head in
    elim (Bool-cases (leb head tail)) [
      | inl e ↦
          let h : head ≤ tail = ground arith in
          let r : n % max ≡ tail - head =
            mod-eq-sub-mod {n = n} {m = max} (omega arith)
            ∙ mod-eq_of_lt {n = n - max} {m = max} (omega arith)
            ∙ omega arith in
          ground arith
      | inr e ↦
          let h : tail < head = ground arith in
          let r : n % max ≡ n = mod-eq_of_lt {n = n} {m = max} (omega arith) in ground arith
    ]

pub length-stored :
    (max head tail : ℕ) (content : List ℕ)
    → IsPlaced max head tail content
    → length (stored max head tail content) ≡ held max head tail
length-stored max head tail content v = ground (
  arith,
  length-slice head tail content,
  length-append (slice head max content) (slice 0 tail content),
  length-slice head max content,
  length-slice 0 tail content,
)

pub stored-le :
    (max head tail : ℕ) (content : List ℕ)
    → head ≤ tail
    → stored max head tail content ≡ slice head tail content
stored-le max head tail content h = rw (le→leb head tail h) refl

pub stored-lt :
    (max head tail : ℕ) (content : List ℕ)
    → tail < head
    → stored max head tail content ≡ slice head max content ++ slice 0 tail content
stored-lt max head tail content h = rw (lt→leb head tail h) refl
