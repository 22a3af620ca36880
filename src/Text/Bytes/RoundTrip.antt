-- ===== src/Text/Bytes/RoundTrip.antt =====
-- What a ByteWrite has written, a ByteRead on its bytes reads back.
use libev_test.Base.{
  ℕ, ◌+◌, ◌^◌, ◌<◌, ◌≡◌, refl, arith, List, [], ◌∷◌, ◌++◌, some, ltb, length, length-append,
  Bool-cases, inl, inr,
}
use mathlib.Core.List.{append-nil, append_assoc}
use mathlib.Core.Path.{subst}
use libev_test.Text.Bytes.{Outcome, ok, ◌>>=◌, u32, to_bytes}
use libev_test.Text.Bytes.Number.{length-to_bytes, from_bytes-to_bytes}
use libev_test.Text.Bytes.Read.{
  ByteRead, set_data, read, read_buf, read_len, read_str, read_each, read_vector,
}
use libev_test.Text.Bytes.Write.{
  ByteWrite, create, reserve, write, write_buf, write_each, write_len, write_str, write_vector,
  len_bytes,
}
use libev_test.Text.Bytes.Item.{
  Item, shape, shapes, write_item, write_items, read_item, read_items, AllFit, Fits, FitAll,
}
use libev_test.Text.Bytes.At.{at, Reads, read-Reads, read_buf-Reads, Reads-bind}
use libev_test.Text.Bytes.Varint.{len_bytes-Reads}

-- `f` appends the bytes `bs` to every writer that they leave below 2^32 bytes.
abbrev pub Writes : (ByteWrite → Outcome ByteWrite) → List ℕ → Type 0
Writes f bs =
    (w : ByteWrite)
    → length w.bytes + length bs < 2 ^ 32
    → (max : ℕ) × (f w ≡ ok (record { bytes = w.bytes ++ bs; max_size = max }))

module _ (capacity : ℕ → ℕ) where
  reserve_ok :
      (w : ByteWrite) (need : ℕ)
      → need < 2 ^ 32
      → (max : ℕ) × (reserve capacity w need ≡ ok (record w { max_size = max }))
  unfolding reserve
  reserve_ok w need h = elim (Bool-cases (ltb w.max_size need)) [
    | inl e ↦ (capacity (u32 need), rw e (ground arith))
    | inr e ↦ (w.max_size, rw e)
  ]

  write-Writes : (width v : ℕ) → Writes (write capacity width v) (to_bytes width v)
  unfolding write
  write-Writes width v w h =
      let (max, e) =
        reserve_ok w (u32 (length w.bytes) + width) (omega (arith, length-to_bytes width v)) in
      (max, rw e)

  write_buf-Writes : (buf : List ℕ) → Writes (write_buf capacity buf) buf
  unfolding write_buf
  write_buf-Writes buf w h =
      let (max, e) = reserve_ok w (u32 (u32 (length w.bytes) + u32 (length buf))) (omega arith) in
      (max, rw e)

  -- One writer after the other.
  Writes-bind :
      (f g : ByteWrite → Outcome ByteWrite) (bs cs : List ℕ)
      → Writes f bs
      → Writes g cs
      → Writes (λ w. f w >>= g) (bs ++ cs)
  Writes-bind f g bs cs hf hg w h =
      let (m, e) = hf w (omega (arith, length-append bs cs)) in
      let (n, d) =
        hg (record { bytes = w.bytes ++ bs; max_size = m })
          (omega (arith, length-append bs cs, length-append w.bytes bs)) in
      (n, rw (e, d, append_assoc w.bytes bs cs))

-- The bytes of an array of integers.
abbrev pub each_bytes : ℕ → List ℕ → List ℕ
each_bytes width [] = []
each_bytes width (v ∷ vs) = to_bytes width v ++ each_bytes width vs

abbrev pub item_bytes : Item → List ℕ
item_bytes (Item.num width v) = to_bytes width v
item_bytes (Item.text s) = len_bytes (u32 (length s)) ++ s
item_bytes (Item.nums width vs) = len_bytes (u32 (length vs)) ++ each_bytes width vs

abbrev pub items_bytes : List Item → List ℕ
items_bytes [] = []
items_bytes (i ∷ is) = item_bytes i ++ items_bytes is

Writes-ok : Writes ok []
Writes-ok w h = (w.max_size, rw append-nil)

each_bytes-len_bytes : (n : ℕ) → each_bytes 1 (len_bytes n) ≡ len_bytes n
unfolding len_bytes to_bytes
each_bytes-len_bytes n = ground arith

module _ (capacity : ℕ → ℕ) where
  write_each-Writes :
      (width : ℕ) (vs : List ℕ) → Writes (write_each capacity width vs) (each_bytes width vs)
  unfolding write_each
  write_each-Writes width [] = Writes-ok
  write_each-Writes width (v ∷ vs) =
      Writes-bind capacity (write capacity width v) (write_each capacity width vs)
        (to_bytes width v) (each_bytes width vs) (write-Writes capacity width v)
        (write_each-Writes width vs)

  write_len-Writes : (n : ℕ) → Writes (write_len capacity n) (len_bytes n)
  unfolding write_len
  write_len-Writes n =
      subst (Writes (write_each capacity 1 (len_bytes n))) (each_bytes-len_bytes n)
        (write_each-Writes 1 (len_bytes n))

  write_item-Writes : (i : Item) → Writes (write_item capacity i) (item_bytes i)
  unfolding write_item write_str write_vector
  write_item-Writes (Item.num width v) = write-Writes capacity width v
  write_item-Writes (Item.text s) =
      Writes-bind capacity (write_len capacity (u32 (length s))) (write_buf capacity s)
        (len_bytes (u32 (length s))) s (write_len-Writes (u32 (length s)))
        (write_buf-Writes capacity s)
  write_item-Writes (Item.nums width vs) =
      Writes-bind capacity (write_len capacity (u32 (length vs))) (write_each capacity width vs)
        (len_bytes (u32 (length vs))) (each_bytes width vs) (write_len-Writes (u32 (length vs)))
        (write_each-Writes width vs)

  pub write_items-Writes : (is : List Item) → Writes (write_items capacity is) (items_bytes is)
  unfolding write_items
  write_items-Writes [] = Writes-ok
  write_items-Writes (i ∷ is) =
      Writes-bind capacity (write_item capacity i) (write_items capacity is) (item_bytes i)
        (items_bytes is) (write_item-Writes i) (write_items-Writes is)

-- A reader that answers without reading.
Reads-ok {ℓ} : {A : Type ℓ} (v : A) → Reads (λ r. ok (v, r)) [] v
Reads-ok v before rest h = rw append-nil

Reads-map {ℓ κ} :
    {A : Type ℓ} {B : Type κ} (m : ByteRead → Outcome (A × ByteRead)) (f : A → B) (bs : List ℕ)
    (v : A)
    → Reads m bs v
    → Reads (λ r. m r >>= λ t. ok (f t.0, t.1)) bs (f v)
Reads-map m f bs v h before rest k = rw (h before rest k)

read_each-Reads :
    (width : ℕ) (vs : List ℕ)
    → AllFit width vs
    → Reads (read_each width (length vs)) (each_bytes width vs) vs
unfolding read_each
read_each-Reads width [] h = Reads-ok []
read_each-Reads width (v ∷ vs) h =
    Reads-bind (read width) _ (to_bytes width v) (each_bytes width vs) v (v ∷ vs)
      (subst (Reads (read width) (to_bytes width v)) (from_bytes-to_bytes width v h.0)
        (read-Reads width (to_bytes width v) (length-to_bytes width v)))
      (Reads-map (read_each width (length vs)) (λ us. v ∷ us) (each_bytes width vs) vs
        (read_each-Reads width vs h.1))

-- `_ReadLen` on a length that a `_WriteLen` can hold.
read_len-Reads : (n : ℕ) → n < 2 ^ 28 → Reads read_len (len_bytes (u32 n)) n
read_len-Reads n h =
    subst (Reads read_len (len_bytes (u32 n))) (omega arith) (len_bytes-Reads (u32 n))

read_str-Reads :
    (s : List ℕ) → length s < 2 ^ 28 → Reads read_str (len_bytes (u32 (length s)) ++ s) s
unfolding read_str
read_str-Reads s h =
    Reads-bind read_len (λ t. read_buf t.0 t.1) (len_bytes (u32 (length s))) s (length s) s
      (read_len-Reads (length s) h) (read_buf-Reads s)

read_item-Reads : (i : Item) → Fits i → Reads (read_item (shape i)) (item_bytes i) i
unfolding read_item read_vector
read_item-Reads (Item.num width v) h =
    Reads-map (read width) (Item.num width) (to_bytes width v) v (
      subst (Reads (read width) (to_bytes width v)) (from_bytes-to_bytes width v h)
        (read-Reads width (to_bytes width v) (length-to_bytes width v)))
read_item-Reads (Item.text s) h = Reads-map read_str Item.text _ s (read_str-Reads s h)
read_item-Reads (Item.nums width vs) h = Reads-map (read_vector width) (Item.nums width) _ vs (
    Reads-bind read_len (λ t. read_each width t.0 t.1) (len_bytes (u32 (length vs)))
      (each_bytes width vs) (length vs) vs (read_len-Reads (length vs) h.0)
      (read_each-Reads width vs h.1))

pub read_items-Reads :
    (is : List Item) → FitAll is → Reads (read_items (shapes is)) (items_bytes is) is
unfolding read_items
read_items-Reads [] h = Reads-ok []
read_items-Reads (i ∷ is) h =
    Reads-bind (read_item (shape i)) _ (item_bytes i) (items_bytes is) i (i ∷ is)
      (read_item-Reads i h.0)
      (Reads-map (read_items (shapes is)) (λ js. i ∷ js) (items_bytes is) is
        (read_items-Reads is h.1))

-- Whatever values of fewer than 2^28 characters or elements are written to a new ByteWrite, below
-- 2^32 bytes in all, the writes do not throw, and a ByteRead set on the bytes reads the same values
-- back and stops at the end of the bytes.
pub read_items-write_items :
    (capacity : ℕ → ℕ) (max_size : ℕ) (is : List Item)
    → FitAll is
    → length (items_bytes is) < 2 ^ 32
    → (w : ByteWrite) × (write_items capacity is (create capacity max_size) ≡ ok w)
      × (r : ByteRead) × (read_items (shapes is) (set_data (some w.bytes) (length w.bytes))
          ≡ ok (is, r))
      × (r.pos ≡ length w.bytes)
unfolding create set_data
read_items-write_items capacity max_size is h k =
    let (m, e) = write_items-Writes capacity is (create capacity max_size) (omega arith) in
    (
      record { bytes = items_bytes is; max_size = m },
      e,
      at (items_bytes is) [],
      subst
          (λ bs.
            read_items (shapes is) (record { memory = some bs; size = length bs; pos = 0 })
            ≡ ok (is, at (items_bytes is) []))
          (append-nil (items_bytes is))
          (read_items-Reads is h [] [] (rw (append-nil (items_bytes is)) k)),
      refl,
    )
