-- ===== src/Base/Occurs.antt =====
-- How often a number stands in a list, and its first occurrence taken out.
use Prim.Native.Nat.{ℕ, ◌+◌}
use mathlib.Core.List.{List, [], ◌∷◌}
use libev_test.Base.Tests.{◌==◌, if◌then◌else◌}

unfoldable pub occurs : ℕ → List ℕ → ℕ
occurs m [] = 0
occurs m (x ∷ xs) = (if x == m then 1 else 0) + occurs m xs

abbrev pub erase : ℕ → List ℕ → List ℕ
erase m [] = []
erase m (x ∷ xs) = if x == m then xs else x ∷ erase m xs
