-- ===== src/Base/Memory.antt =====
-- `memcpy` of the C library into a block of memory, a list of bytes.
use Prim.Native.Nat.{ℕ, ◌+◌, ◌≤◌}
use mathlib.Core.Path.{◌≡◌, refl}
use mathlib.Core.Option.{Option, none, some}
use mathlib.Core.List.{List, ◌++◌}
use libev_test.Base.Lists.{length, take, drop}
use libev_test.Base.Tests.{leb, if◌then◌else◌, le→leb}

-- A block with some bytes in place of those from a position on.
abbrev pub overwrite : ℕ → List ℕ → List ℕ → List ℕ
overwrite at src block = take at block ++ (src ++ drop (at + length src) block)

-- `memcpy` to a position of a block; none if it would write past the block's end.
unfoldable pub memcpy : ℕ → List ℕ → List ℕ → Option (List ℕ)
memcpy at src block =
    if leb (at + length src) (length block) then some (overwrite at src block) else none

pub memcpy_inside :
    (at : ℕ) (src block : List ℕ)
    → at + length src ≤ length block
    → memcpy at src block ≡ some (overwrite at src block)
unfolding memcpy
memcpy_inside at src block h = rw (le→leb _ _ h) refl
