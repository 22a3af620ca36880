-- ===== src/Text/Bytes/Overflow.antt =====
-- The guard of `_ReadStr` is computed in `uint32_t`, and `_ReadLen` reads lengths up to 2^32 - 1.
use libev_test.Base.{ℕ, ◌-◌, ◌<◌, ◌≡◌, ◌^◌, arith, List, [], ◌∷◌, ◌++◌, length, length-append}
use mathlib.Core.List.{append_assoc}
use libev_test.Text.Bytes.{fault}
use libev_test.Text.Bytes.Read.{copy_out, read_buf, read_len, read_str}
use libev_test.Text.Bytes.At.{at, Reads}
use libev_test.Text.Bytes.Varint.{read_len-Reads}

-- The five bytes FF FF FF FF 0F, which stand for the length 2^32 - 1.
abbrev pub longest : List ℕ
longest = 0xff ∷ 0xff ∷ 0xff ∷ 0xff ∷ 0x0f ∷ []

longest-Reads : Reads read_len longest (2 ^ 32 - 1)
longest-Reads = read_len-Reads 0xff (0xff ∷ 0xff ∷ 0xff ∷ 0x0f ∷ []) (omega arith)

read_buf_wraps :
    (before rest : List ℕ)
    → length (before ++ rest) < 2 ^ 32
    → 0 < length before
    → read_buf (2 ^ 32 - 1) (at before rest) ≡ fault
unfolding read_buf copy_out
read_buf_wraps before rest h k = ground (arith, length-append before rest)

-- In every buffer of fewer than 2^32 bytes, a string whose length field holds these bytes passes the
-- guard, and its characters are read from outside the buffer, where an exception was meant.
pub read_str_overreads :
    (before rest : List ℕ)
    → length (before ++ (longest ++ rest)) < 2 ^ 32
    → read_str (at before (longest ++ rest)) ≡ fault
unfolding read_str
read_str_overreads before rest h = rw (longest-Reads before rest h) (
    read_buf_wraps (before ++ longest) rest (rw (append_assoc before longest rest) h)
      (omega (arith, length-append before longest)))
