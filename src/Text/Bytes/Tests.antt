-- ===== src/Text/Bytes/Tests.antt =====
-- Runs of the byte reader and writer, and the theorems at concrete buffers.
use libev_test.Base.{ℕ, ◌+◌, ◌≡◌, refl, arith, List, [], ◌∷◌, ◌++◌, some, length}
use libev_test.Text.Bytes.{ok, throws, fault, to_bytes, from_bytes}
use libev_test.Text.Bytes.Read.{ByteRead, read, read_len, read_str, set_data}
use libev_test.Text.Bytes.Write.{ByteWrite, create, len_bytes}
use libev_test.Text.Bytes.Item.{Item, write_items, read_items, shapes}
use libev_test.Text.Bytes.At.{at}
use libev_test.Text.Bytes.Length.{IsBacked, Ends, read_len-Ends}
use libev_test.Text.Bytes.RoundTrip.{read_items-write_items}
use libev_test.Text.Bytes.Overflow.{longest, read_str_overreads}

abbrev items : List Item
items = Item.num 4 70000 ∷ Item.text (104 ∷ 105 ∷ []) ∷ Item.nums 2 (1 ∷ 300 ∷ []) ∷ []

abbrev grow : ℕ → ℕ
grow n = n + n

abbrev cut : ByteRead
cut = record { memory = some (200 ∷ 129 ∷ []); size = 2; pos = 0 }

cut-IsBacked : IsBacked cut
cut-IsBacked = record {
  bytes = 200 ∷ 129 ∷ [];
  holds = refl;
  size_in = omega arith;
  size_u32 = omega arith;
  pos_in = omega arith;
}

len_bytes_300 : len_bytes 300 ≡ 172 ∷ 2 ∷ []
unfolding len_bytes
len_bytes_300 = refl

read_len-cut : read_len cut ≡ throws
unfolding read_len read from_bytes
read_len-cut = refl

-- A length with no last byte.
read_len-Ends_example : Ends cut 1 (read_len cut)
read_len-Ends_example = read_len-Ends cut cut-IsBacked

read_items-write_items_example :
    (w : ByteWrite) × (write_items grow items (create grow 8192) ≡ ok w)
    × (r : ByteRead) × (read_items (shapes items) (set_data (some w.bytes) (length w.bytes))
        ≡ ok (items, r))
    × (r.pos ≡ length w.bytes)
unfolding to_bytes len_bytes
read_items-write_items_example = read_items-write_items grow 8192 items (omega arith) (omega arith)

read_str_overreads_example : read_str (at [] (longest ++ (1 ∷ 2 ∷ []))) ≡ fault
read_str_overreads_example = read_str_overreads [] (1 ∷ 2 ∷ []) (omega arith)
