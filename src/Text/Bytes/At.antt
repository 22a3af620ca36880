-- ===== src/Text/Bytes/At.antt =====
-- A reader inside its buffer: what stands before the position and what is still to come. Reading is
-- then taking a prefix off the second part.
use libev_test.Base.{
  ℕ, ◌+◌, ◌^◌, ◌<◌, ◌≡◌, ap, ◌∙◌, arith, true, false, List, ◌++◌, some, ltb, leb, length, take,
  drop, length-append, take-append_self, drop-append_self,
}
use mathlib.Core.List.{append_assoc}
use libev_test.Text.Bytes.{Outcome, ok, ◌>>=◌, u32, from_bytes}
use libev_test.Text.Bytes.Read.{ByteRead, copy_out, read, read_buf}

abbrev pub at : List ℕ → List ℕ → ByteRead
at before rest = record {
  memory = some (before ++ rest);
  size = length (before ++ rest);
  pos = length before;
}

-- `m` takes the bytes `bs` off and answers `v`, wherever it meets them.
abbrev pub Reads {ℓ} : {A : Type ℓ} → (ByteRead → Outcome (A × ByteRead)) → List ℕ → A → Type ℓ
Reads m bs v =
    (before rest : List ℕ)
    → length (before ++ (bs ++ rest)) < 2 ^ 32
    → m (at before (bs ++ rest)) ≡ ok (v, at (before ++ bs) rest)

at_step :
    (before bs rest : List ℕ) (p : ℕ)
    → p ≡ length (before ++ bs)
    → ◌≡◌ {A = ByteRead}
        (record {
          memory = some (before ++ (bs ++ rest));
          size = length (before ++ (bs ++ rest));
          pos = p;
        })
        (at (before ++ bs) rest)
at_step before bs rest p e = rw (append_assoc, e)

take_middle :
    (before bs rest : List ℕ)
    → take (length bs) (drop (length before) (before ++ (bs ++ rest))) ≡ bs
take_middle before bs rest =
    ap (take (length bs)) (drop-append_self before (bs ++ rest)) ∙ take-append_self bs rest

pub copy_out-Reads :
    (bs before rest : List ℕ)
    → length (before ++ (bs ++ rest)) < 2 ^ 32
    → copy_out (before ++ (bs ++ rest)) (length bs) (at before (bs ++ rest))
      ≡ ok (bs, at (before ++ bs) rest)
unfolding copy_out
copy_out-Reads bs before rest h =
    rw (inside, take_middle before bs rest, at_step before bs rest _ next)
  where
    total : length (before ++ (bs ++ rest)) ≡ length before + (length bs + length rest)
    total = length-append before (bs ++ rest) ∙ ap (λ k. length before + k) (length-append bs rest)

    inside : leb (length before + length bs) (length (before ++ (bs ++ rest))) ≡ true
    inside = ground (arith, total)

    next : u32 (length before + length bs) ≡ length (before ++ bs)
    next = omega (arith, total, length-append before bs)

not_short :
    (before bs rest : List ℕ)
    → ltb (length (before ++ (bs ++ rest))) (length before + length bs) ≡ false
not_short before bs rest = ground (arith, length-append before (bs ++ rest), length-append bs rest)

pub read-Reads : (w : ℕ) (bs : List ℕ) → length bs ≡ w → Reads (read w) bs (from_bytes bs)
unfolding read
read-Reads w bs e before rest h =
    rw (← e, not_short before bs rest, copy_out-Reads bs before rest h)

pub read_buf-Reads : (bs : List ℕ) → Reads (read_buf (length bs)) bs bs
unfolding read_buf
read_buf-Reads bs before rest h = rw (short, copy_out-Reads bs before rest h)
  where
    short : ltb (length (before ++ (bs ++ rest))) (u32 (length before + length bs)) ≡ false
    short = ground (arith, length-append before (bs ++ rest), length-append bs rest)

-- One reader after the other.
pub Reads-bind {ℓ κ} :
    {A : Type ℓ} {B : Type κ} (m : ByteRead → Outcome (A × ByteRead))
    (f : A × ByteRead → Outcome (B × ByteRead)) (bs cs : List ℕ) (v : A) (u : B)
    → Reads m bs v
    → Reads (λ r. f (v, r)) cs u
    → Reads (λ r. m r >>= f) (bs ++ cs) u
Reads-bind m f bs cs v u hm hf before rest h =
    rw (append_assoc bs cs rest, hm before (cs ++ rest) (rw (append_assoc bs cs rest) at h))
      (hf (before ++ bs) rest
          (rw (append_assoc before bs (cs ++ rest), ← append_assoc bs cs rest) h)
        ∙ rw (append_assoc before bs cs))
