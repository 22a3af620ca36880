-- ===== src/Text/Bytes/Length.antt =====
-- `_ReadLen`: it ends, stays inside the buffer, and reads what `_WriteLen` wrote.
use libev_test.Base.{
  ℕ, zero, suc, ◌+◌, ◌-◌, ◌%◌, ◌^◌, ◌≤◌, ◌<◌, ◌≡◌, refl, ◌∙◌, arith, List, some, ltb, length,
  Bool-cases, inl, inr,
}
use libev_test.Text.Bytes.{Outcome, ok, throws, fault, spins, ◌>>=◌}
use libev_test.Text.Bytes.Read.{ByteRead, copy_out, read, len_loop, read_len}

-- The memory behind a reader has the size that it was told.
pub record IsBacked (r : ByteRead) : Type 0 where
  pub bytes : List ℕ
  pub holds : r.memory ≡ some bytes
  pub size_in : r.size ≤ length bytes
  pub size_u32 : r.size < 2 ^ 32
  pub pos_in : r.pos ≤ r.size

-- A call from `r` ends by the exception, or goes on at least `n` bytes within the same buffer.
abbrev pub Ends {ℓ} : {A : Type ℓ} → ByteRead → ℕ → Outcome (A × ByteRead) → Type 0
Ends r n (ok (v, s)) =
    (s.memory ≡ r.memory) × (s.size ≡ r.size) × (r.pos + n ≤ s.pos) × (s.pos ≤ s.size)
Ends r n throws = Unit {0}
Ends r n fault = ⊥
Ends r n spins = ⊥

read_backed :
    (w : ℕ) (r : ByteRead) (bytes : List ℕ)
    → r.memory ≡ some bytes
    → r.size ≤ length bytes
    → r.size < 2 ^ 32
    → Ends r w (read w r)
unfolding read copy_out
read_backed w r bytes e h k = rw e (ground arith)

pub read-Ends : (w : ℕ) (r : ByteRead) → IsBacked r → Ends r w (read w r)
read-Ends w r v = read_backed w r v.bytes v.holds v.size_in v.size_u32

-- The reader after a call that ends.
IsBacked-after :
    (r s : ByteRead)
    → IsBacked r
    → s.memory ≡ r.memory
    → s.size ≡ r.size
    → s.pos ≤ s.size
    → IsBacked s
IsBacked-after r s v m e p = record {
  bytes = v.bytes;
  holds = m ∙ v.holds;
  size_in = rw e v.size_in;
  size_u32 = rw e v.size_u32;
  pos_in = p;
}

Ends-trans {ℓ} :
    {A : Type ℓ} (r s : ByteRead) (n : ℕ) (o : Outcome (A × ByteRead))
    → s.memory ≡ r.memory
    → s.size ≡ r.size
    → r.pos + n ≤ s.pos
    → Ends s 0 o
    → Ends r n o
Ends-trans r s n (ok (v, t)) m e p h = (h.0 ∙ m, h.1 ∙ e, omega arith, h.3)
Ends-trans r s n throws m e p h = tt
Ends-trans r s n fault m e p h = h
Ends-trans r s n spins m e p h = h

-- A call that reads a byte first, and goes on with what it read.
Ends-bind {ℓ} :
    {A : Type ℓ} (r : ByteRead) (o : Outcome (ℕ × ByteRead))
    (f : ℕ × ByteRead → Outcome (A × ByteRead))
    → IsBacked r
    → Ends r 1 o
    → ((v : ℕ) (s : ByteRead)
        → IsBacked s
        → r.size - s.pos < r.size - r.pos
        → s.size ≡ r.size
        → Ends s 0 (f (v, s)))
    → Ends r 1 (o >>= f)
Ends-bind r (ok (v, s)) f b h k =
    Ends-trans r s 1 (f (v, s)) h.0 h.1 h.2
      (k v s (IsBacked-after r s b h.0 h.1 h.3) (omega (arith, b.pos_in, h.1)) h.1)
Ends-bind r throws f b h k = tt
Ends-bind r fault f b h k = h
Ends-bind r spins f b h k = h

Ends-weaken {ℓ} : {A : Type ℓ} (r : ByteRead) (o : Outcome (A × ByteRead)) → Ends r 1 o → Ends r 0 o
Ends-weaken r (ok (v, s)) h = (h.0, h.1, omega arith, h.3)
Ends-weaken r throws h = tt
Ends-weaken r fault h = h
Ends-weaken r spins h = h

-- With more rounds than bytes left the loop of `_ReadLen` ends.
len_loop-Ends :
    (rounds bt n rx : ℕ) (r : ByteRead)
    → IsBacked r
    → r.size - r.pos < rounds
    → Ends r 0 (len_loop rounds bt n rx r)
unfolding len_loop
len_loop-Ends zero bt n rx r v h = absurd (omega arith)
len_loop-Ends (suc rounds) bt n rx r v h = elim (Bool-cases (ltb bt 128)) [
  | inl e ↦ rw (e, len_loop) (refl, refl, omega arith, v.pos_in)
  | inr e ↦
      rw (e, len_loop)
        (Ends-weaken r _ (
          Ends-bind r (read 1 r) _ v (read-Ends 1 r v)
            (λ b s w less same. len_loop-Ends rounds b _ _ s w (omega (arith, less, same)))))
]

-- On a buffer that holds as many bytes as the reader was told, `_ReadLen` always ends, whatever the
-- bytes are: it throws, or it has gone at least one byte on and stays inside the buffer.
pub read_len-Ends : (r : ByteRead) → IsBacked r → Ends r 1 (read_len r)
unfolding read_len
read_len-Ends r v =
    Ends-bind r (read 1 r) _ v (read-Ends 1 r v) (λ b s w less same.
      len_loop-Ends (suc r.size) b (b % 128) 128 s w (omega (arith, less, same)))
