-- ===== src/Text/Bytes/Varint.antt =====
-- What `_ReadLen` makes of the bytes of `_WriteLen`.
use libev_test.Base.{
  ℕ, zero, suc, ◌+◌, ◌*◌, ◌/◌, ◌%◌, ◌^◌, ◌≤◌, ◌<◌, ◌≡◌, refl, ap, ◌∙◌, arith, List, [], ◌∷◌, ◌++◌,
  ltb, length, length-append, Bool-cases, inl, inr, le→ltb, lt→ltb,
}
use mathlib.Core.List.{append-nil, append_assoc}
use mathlib.Core.Path.{subst}
use libev_test.Text.Bytes.{ok, u32, from_bytes}
use libev_test.Text.Bytes.Read.{read, len_loop, read_len}
use libev_test.Text.Bytes.Write.{len_bytes}
use libev_test.Text.Bytes.At.{at, Reads, read-Reads}

-- Every byte but the last has its top bit set.
abbrev pub IsVarint : ℕ → List ℕ → Type 0
IsVarint b [] = b < 128
IsVarint b (c ∷ cs) = (128 ≤ b) × IsVarint c cs

-- The loop's sum over such bytes, in `uint32_t`.
abbrev pub sum_groups : ℕ → ℕ → List ℕ → ℕ
sum_groups n rx [] = n
sum_groups n rx (c ∷ cs) = sum_groups (u32 (c % 128 * rx + n)) (u32 (rx * 128)) cs

read_byte : (b : ℕ) → Reads (read 1) (b ∷ []) b
unfolding from_bytes
read_byte b before rest h =
    read-Reads 1 (b ∷ []) refl before rest h
    ∙ ap (λ (k : ℕ). ok (k, at (before ++ (b ∷ [])) rest)) (omega arith)

len_loop-Reads :
    (cs : List ℕ) (rounds b n rx : ℕ)
    → IsVarint b cs
    → length cs < rounds
    → Reads (len_loop rounds b n rx) cs (sum_groups n rx cs)
unfolding len_loop
len_loop-Reads cs zero b n rx v h before rest k = absurd (omega arith)
len_loop-Reads [] (suc rounds) b n rx v h before rest k = rw (lt→ltb b 128 v, len_loop, append-nil)
len_loop-Reads (c ∷ cs) (suc rounds) b n rx v h before rest k =
    rw (le→ltb b 128 v.0, len_loop, read_byte c before (cs ++ rest) k)
      (len_loop-Reads cs rounds c _ _ v.1 (omega arith) (before ++ (c ∷ [])) rest
          (rw (append_assoc before (c ∷ []) (cs ++ rest)) k)
        ∙ rw (append_assoc before (c ∷ []) cs))

pub read_len-Reads :
    (b : ℕ) (cs : List ℕ) → IsVarint b cs → Reads read_len (b ∷ cs) (sum_groups (b % 128) 128 cs)
unfolding read_len
read_len-Reads b cs v before rest h = rw (read_byte b before (cs ++ rest) h) (
    len_loop-Reads cs (suc (length (before ++ (b ∷ (cs ++ rest))))) b (b % 128) 128 v
      (omega (arith, length-append before (b ∷ (cs ++ rest)), length-append cs rest))
      (before ++ (b ∷ [])) rest (rw (append_assoc before (b ∷ []) (cs ++ rest)) h)
    ∙ rw (append_assoc before (b ∷ []) cs))

-- The value of the groups, and so what is read from them.
groups-Reads :
    (b n : ℕ) (cs : List ℕ)
    → IsVarint b cs
    → sum_groups (b % 128) 128 cs ≡ n
    → Reads read_len (b ∷ cs) n
groups-Reads b n cs v e = subst (Reads read_len (b ∷ cs)) e (read_len-Reads b cs v)

module _ (n : ℕ) where
  one_group :
      n / 16384 % 128 ≡ 0
      → n / 2097152 % 128 ≡ 0
      → n / 128 % 128 ≡ 0
      → Reads read_len ((n % 128) ∷ []) (n % 2 ^ 28)
  one_group e f g = groups-Reads _ _ [] (omega arith) (omega arith)

  two_groups :
      n / 16384 % 128 ≡ 0
      → n / 2097152 % 128 ≡ 0
      → Reads read_len ((n % 128 + 128) ∷ (n / 128 % 128) ∷ []) (n % 2 ^ 28)
  two_groups e f = groups-Reads _ _ ((n / 128 % 128) ∷ []) (omega arith) (omega arith)

  three_groups :
      n / 2097152 % 128 ≡ 0
      → Reads read_len
          ((n % 128 + 128) ∷ (n / 128 % 128 + 128) ∷ (n / 16384 % 128) ∷ [])
          (n % 2 ^ 28)
  three_groups f =
      groups-Reads _ _ ((n / 128 % 128 + 128) ∷ (n / 16384 % 128) ∷ []) (omega arith) (omega arith)

  four_groups :
      Reads read_len
        ((n % 128 + 128)
          ∷ (n / 128 % 128 + 128)
          ∷ (n / 16384 % 128 + 128)
          ∷ (n / 2097152 % 128)
          ∷ [])
        (n % 2 ^ 28)
  four_groups =
      groups-Reads _ _ ((n / 128 % 128 + 128) ∷ (n / 16384 % 128 + 128) ∷ (n / 2097152 % 128) ∷ [])
        (omega arith) (omega arith)

-- For every number, what `_WriteLen` wrote is read back as the number's lowest 28 bits.
pub len_bytes-Reads : (n : ℕ) → Reads read_len (len_bytes n) (n % 2 ^ 28)
unfolding len_bytes
len_bytes-Reads n = elim (Bool-cases (ltb 0 (n / 2097152 % 128))) [
  | inl e ↦ rw e (four_groups n)
  | inr e ↦ rw e (elim (Bool-cases (ltb 0 (n / 16384 % 128))) [
    | inl f ↦ rw f (three_groups n (ground arith))
    | inr f ↦ rw f (elim (Bool-cases (ltb 0 (n / 128 % 128))) [
      | inl g ↦ rw g (two_groups n (ground arith) (ground arith))
      | inr g ↦ rw g (one_group n (ground arith) (ground arith) (ground arith))
    ])
  ])
]
