-- ===== src/Text/Bytes/Read.antt =====
-- xrbase/text/ByteRead.h
use libev_test.Base.{
  ℕ, zero, suc, ◌+◌, ◌*◌, ◌%◌, true, false, List, [], ◌∷◌, Option, none, some, ltb, leb,
  if◌then◌else◌, length, take, drop,
}
use libev_test.Text.Bytes.{Outcome, ok, throws, fault, spins, ◌>>=◌, u32, from_bytes}

-- `memory` is what stands behind `_pData`, none for nullptr.
pub record ByteRead : Type 0 where
  pub memory : Option (List ℕ)
  pub size : ℕ
  pub pos : ℕ

unfoldable pub set_data : Option (List ℕ) → ℕ → ByteRead
set_data memory size = record { memory = memory; size = size; pos = 0 }

unfoldable pub clear : ByteRead
clear = record { memory = none; size = 0; pos = 0 }

unfoldable pub reset_pos : ByteRead → ByteRead
reset_pos r = record r { pos = 0 }

-- A copy of `n` bytes from the position on, and the step over them (`_nPos += n`).
unfoldable pub copy_out : List ℕ → ℕ → ByteRead → Outcome (List ℕ × ByteRead)
copy_out bytes n r =
    if leb (r.pos + n) (length bytes)
    then ok (take n (drop r.pos bytes), record r { pos = u32 (r.pos + n) })
    else fault

-- `_Read<T>`: `_nPos + sizeof(T)` is a `size_t`.
unfoldable pub read : ℕ → ByteRead → Outcome (ℕ × ByteRead)
unfolding copy_out
read width r = elim r.memory [
  | none ↦ throws
  | some bytes ↦
      if ltb r.size (r.pos + width)
      then throws
      else (copy_out bytes width r >>= λ t. ok (from_bytes t.0, t.1))
]

-- `ReadBuf`: `_nPos + nLen` is a `uint32_t`, and so wraps.
unfoldable pub read_buf : ℕ → ByteRead → Outcome (List ℕ × ByteRead)
unfolding copy_out
read_buf n r = elim r.memory [
  | none ↦ throws
  | some bytes ↦ if ltb r.size (u32 (r.pos + n)) then throws else copy_out bytes n r
]

-- `while (bt >= 128)` of `_ReadLen`. Each round reads a byte, so `size` rounds are enough.
unfoldable pub len_loop : ℕ → ℕ → ℕ → ℕ → ByteRead → Outcome (ℕ × ByteRead)
len_loop zero bt n rx r = spins
len_loop (suc rounds) bt n rx r = elim (ltb bt 128) [
  | true ↦ ok (n, r)
  | false ↦ read 1 r >>= λ t. len_loop rounds t.0 (u32 (t.0 % 128 * rx + n)) (u32 (rx * 128)) t.1
]

unfoldable pub read_len : ByteRead → Outcome (ℕ × ByteRead)
unfolding len_loop
read_len r = do t ← read 1 r; len_loop (suc r.size) t.0 (t.0 % 128) 128 t.1

unfoldable pub read_str : ByteRead → Outcome (List ℕ × ByteRead)
read_str r = elim r.memory [ none ↦ throws | some bytes ↦ (read_len r >>= λ t. read_buf t.0 t.1) ]

-- `val.resize(nLen)` and the loop over the elements.
unfoldable pub read_each : ℕ → ℕ → ByteRead → Outcome (List ℕ × ByteRead)
read_each width zero r = ok ([], r)
read_each width (suc n) r = do t ← read width r; u ← read_each width n t.1; ok (t.0 ∷ u.0, u.1)

unfoldable pub read_vector : ℕ → ByteRead → Outcome (List ℕ × ByteRead)
read_vector width r = do t ← read_len r; read_each width t.0 t.1
