-- ===== src/Text/Bytes/Write.antt =====
-- xrbase/text/ByteWrite.h
use libev_test.Base.{
  ℕ, ◌+◌, ◌/◌, ◌%◌, Bool, true, false, ◌||◌, List, [], ◌∷◌, ◌++◌, ltb, ◌==◌, if◌then◌else◌, length,
  take, drop,
}
use libev_test.Text.Bytes.{Outcome, ok, throws, ◌>>=◌, u32, to_bytes}

pub record ByteWrite : Type 0 where
  pub bytes : List ℕ
  pub max_size : ℕ

unfoldable pub clear : ByteWrite → ByteWrite
clear w = record w { bytes = [] }

unfoldable pub get_size : ByteWrite → ℕ
get_size w = u32 (length w.bytes)

-- The bytes of `_WriteLen`: seven bits each, all but the last one marked by the top bit.
unfoldable pub len_bytes : ℕ → List ℕ
len_bytes n =
    let b0 = n % 128 in
    let b1 = n / 128 % 128 in
    let b2 = n / 16384 % 128 in
    let b3 = n / 2097152 % 128 in
    if ltb 0 b3
    then (b0 + 128) ∷ (b1 + 128) ∷ (b2 + 128) ∷ b3 ∷ []
    else if ltb 0 b2
    then (b0 + 128) ∷ (b1 + 128) ∷ b2 ∷ []
    else if ltb 0 b1
    then (b0 + 128) ∷ b1 ∷ []
    else b0 ∷ []

-- `capacity n` is what `std::string::capacity` answers after `reserve(n)`: the library's choice.
module _ (capacity : ℕ → ℕ) where
  unfoldable pub create : ℕ → ByteWrite
  create max_size = record { bytes = []; max_size = max_size }

  unfoldable pub resize : ByteWrite → ℕ → ByteWrite × Bool
  resize w new_size =
      if new_size == 0 then (w, false) else (record w { max_size = capacity new_size }, true)

  -- The guard that every append starts with: `need > _nMaxSize && !Resize(need)` throws. `Resize`
  -- takes a `uint32_t`.
  unfoldable pub reserve : ByteWrite → ℕ → Outcome ByteWrite
  unfolding resize
  reserve w need =
      if ltb w.max_size need
      then (let (w', grown) = resize w (u32 need) in if grown then ok w' else throws)
      else ok w

  -- `_Write<T>`: `nSize + sizeof(T)` is a `size_t`.
  unfoldable pub write : ℕ → ℕ → ByteWrite → Outcome ByteWrite
  write width value w = do
    w' ← reserve w (u32 (length w.bytes) + width)
    ok (record w' { bytes = w'.bytes ++ to_bytes width value })

  -- `WriteBuf(szBuf, nLen)`: `nSize + nLen` is a `uint32_t`.
  unfoldable pub write_buf : List ℕ → ByteWrite → Outcome ByteWrite
  write_buf buf w = do
    w' ← reserve w (u32 (u32 (length w.bytes) + u32 (length buf)))
    ok (record w' { bytes = w'.bytes ++ buf })

  -- `WriteBuf(pos, szBuf, nLen)` overwrites; `std::string::replace` throws behind the end too.
  unfoldable pub write_buf_at : ℕ → List ℕ → ByteWrite → Outcome ByteWrite
  write_buf_at pos buf w =
      if ltb (u32 (length w.bytes)) (u32 (pos + u32 (length buf))) || ltb (length w.bytes) pos
      then throws
      else ok (record w { bytes = take pos w.bytes ++ (buf ++ drop (pos + length buf) w.bytes) })

  unfoldable pub write_each : ℕ → List ℕ → ByteWrite → Outcome ByteWrite
  write_each width [] w = ok w
  write_each width (v ∷ vs) w = do w' ← write width v w; write_each width vs w'

  unfoldable pub write_len : ℕ → ByteWrite → Outcome ByteWrite
  unfolding len_bytes
  write_len n w = write_each 1 (len_bytes n) w

  unfoldable pub write_str : List ℕ → ByteWrite → Outcome ByteWrite
  write_str s w = do w' ← write_len (u32 (length s)) w; write_buf s w'

  unfoldable pub write_vector : ℕ → List ℕ → ByteWrite → Outcome ByteWrite
  write_vector width vs w = do w' ← write_len (u32 (length vs)) w; write_each width vs w'
