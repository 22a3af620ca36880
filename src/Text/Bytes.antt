-- ===== src/Text/Bytes.antt =====
-- xrbase/text/ByteWrite.h and ByteRead.h: values written to a growing string of bytes and read back.
-- A byte is a number below 256. Both classes throw `runtime_error("size error")`.
pub mod Write
pub mod Read
pub mod Number
pub mod At
pub mod Length
pub mod Varint
pub mod Item
pub mod RoundTrip
pub mod Overflow
mod Tests
use libev_test.Base.{ℕ, zero, suc, ◌+◌, ◌*◌, ◌/◌, ◌%◌, ◌^◌, List, [], ◌∷◌}

-- What a call comes to: a result, the exception, a read outside the buffer (undefined behaviour), or
-- a loop that ran out of the rounds given to it (`Length` proves that it does not).
pub data Outcome {ℓ} (A : Type ℓ) : Type ℓ where
  ok : A → Outcome A
  throws : Outcome A
  fault : Outcome A
  spins : Outcome A

infixl 5 ◌>>=◌
abbrev pub ◌>>=◌ {ℓ κ} : {A : Type ℓ} {B : Type κ} → Outcome A → (A → Outcome B) → Outcome B
ok a >>= f = f a
throws >>= f = throws
fault >>= f = fault
spins >>= f = spins

-- `uint32_t` arithmetic.
abbrev pub u32 : ℕ → ℕ
u32 n = n % 2 ^ 32

-- An integer of `w` bytes in memory, least significant byte first.
unfoldable pub to_bytes : ℕ → ℕ → List ℕ
to_bytes zero v = []
to_bytes (suc w) v = (v % 256) ∷ to_bytes w (v / 256)

unfoldable pub from_bytes : List ℕ → ℕ
from_bytes [] = 0
from_bytes (b ∷ bs) = b + 256 * from_bytes bs
