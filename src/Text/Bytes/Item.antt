-- ===== src/Text/Bytes/Item.antt =====
-- A client's sequence of calls: values shifted into a ByteWrite, and the same types shifted out of a
-- ByteRead. The overloads of `<<` and `>>` differ in the width of the integer.
use libev_test.Base.{ℕ, ◌<◌, ◌^◌, List, [], ◌∷◌, length}
use libev_test.Text.Bytes.{Outcome, ok, ◌>>=◌}
use libev_test.Text.Bytes.Write.{ByteWrite, write, write_str, write_vector}
use libev_test.Text.Bytes.Read.{ByteRead, read, read_str, read_vector}

pub data Item : Type 0 where
  -- an integer of a width in bytes
  num : ℕ → ℕ → Item
  text : List ℕ → Item
  -- a vector of integers of a width in bytes
  nums : ℕ → List ℕ → Item

pub data Shape : Type 0 where
  num : ℕ → Shape
  text : Shape
  nums : ℕ → Shape

abbrev pub shape : Item → Shape
shape (Item.num width v) = Shape.num width
shape (Item.text s) = Shape.text
shape (Item.nums width vs) = Shape.nums width

abbrev pub shapes : List Item → List Shape
shapes [] = []
shapes (i ∷ is) = shape i ∷ shapes is

module _ (capacity : ℕ → ℕ) where
  unfoldable pub write_item : Item → ByteWrite → Outcome ByteWrite
  write_item (Item.num width v) w = write capacity width v w
  write_item (Item.text s) w = write_str capacity s w
  write_item (Item.nums width vs) w = write_vector capacity width vs w

  unfoldable pub write_items : List Item → ByteWrite → Outcome ByteWrite
  write_items [] w = ok w
  write_items (i ∷ is) w = write_item i w >>= write_items is

unfoldable pub read_item : Shape → ByteRead → Outcome (Item × ByteRead)
read_item (Shape.num width) r = read width r >>= λ t. ok (Item.num width t.0, t.1)
read_item Shape.text r = read_str r >>= λ t. ok (Item.text t.0, t.1)
read_item (Shape.nums width) r = read_vector width r >>= λ t. ok (Item.nums width t.0, t.1)

unfoldable pub read_items : List Shape → ByteRead → Outcome (List Item × ByteRead)
read_items [] r = ok ([], r)
read_items (s ∷ ss) r = do t ← read_item s r; u ← read_items ss t.1; ok (t.0 ∷ u.0, u.1)

-- Every integer fits its width.
abbrev pub AllFit : ℕ → List ℕ → Type 0
AllFit width [] = Unit {0}
AllFit width (v ∷ vs) = (v < 256 ^ width) × AllFit width vs

-- A value of its C++ type, with fewer than 2^28 characters or elements.
abbrev pub Fits : Item → Type 0
Fits (Item.num width v) = v < 256 ^ width
Fits (Item.text s) = length s < 2 ^ 28
Fits (Item.nums width vs) = (length vs < 2 ^ 28) × AllFit width vs

abbrev pub FitAll : List Item → Type 0
FitAll [] = Unit {0}
FitAll (i ∷ is) = Fits i × FitAll is
