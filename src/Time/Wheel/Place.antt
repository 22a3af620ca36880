-- ===== src/Time/Wheel/Place.antt =====
-- Where `find_handle_list` puts a timer, and where a timer may stand while ticks pass.
use libev_test.Base.{
  ℕ, ◌+◌, ◌-◌, ◌/◌, ◌%◌, ◌<◌, ◌≤◌, ◌≡◌, ◌⊎◌, inl, inr, arith, ltb, sides, Bool-cases, le→ltb,
}
use libev_test.Time.Wheel.{u64, u32_max, find_handle_list}

-- For each wheel the next tick from which on its lists are not emptied yet.
pub record Windows : Type 0 where
  pub w1 : ℕ
  pub w2 : ℕ
  pub w3 : ℕ
  pub w4 : ℕ
  pub w5 : ℕ

-- A timer due at `e` stands in the list `s` of one wheel, which is emptied at or before `e`, and
-- not before the list's turn for `e`.
abbrev pub InTv1 : ℕ → ℕ → ℕ → Type 0
InTv1 c s e = (s ≡ e % 256) × (c ≤ e) × (e < c + 256)

abbrev pub InTv2 : ℕ → ℕ → ℕ → Type 0
InTv2 c s e =
    (s ≡ 256 + (e / 256) % 64) × ((c + 255) / 256 ≤ e / 256) × (e / 256 < (c + 255) / 256 + 64)

abbrev pub InTv3 : ℕ → ℕ → ℕ → Type 0
InTv3 c s e =
    (s ≡ 320 + (e / 16384) % 64)
    × ((c + 16383) / 16384 ≤ e / 16384)
    × (e / 16384 < (c + 16383) / 16384 + 64)

abbrev pub InTv4 : ℕ → ℕ → ℕ → Type 0
InTv4 c s e =
    (s ≡ 384 + (e / 1048576) % 64)
    × ((c + 1048575) / 1048576 ≤ e / 1048576)
    × (e / 1048576 < (c + 1048575) / 1048576 + 64)

abbrev pub InTv5 : ℕ → ℕ → ℕ → Type 0
InTv5 c s e =
    (s ≡ 448 + (e / 67108864) % 64)
    × ((c + 67108863) / 67108864 ≤ e / 67108864)
    × (e / 67108864 < (c + 67108863) / 67108864 + 64)

abbrev pub Fits : Windows → ℕ → ℕ → Type 0
Fits k s e = InTv1 k.w1 s e ⊎ InTv2 k.w2 s e ⊎ InTv3 k.w3 s e ⊎ InTv4 k.w4 s e ⊎ InTv5 k.w5 s e

-- The windows stand at a tick or just behind it.
abbrev pub Near : ℕ → Windows → Type 0
Near t k =
    (k.w1 ≡ t)
    × (t ≤ k.w2)
    × (k.w2 ≤ t + 1)
    × (t ≤ k.w3)
    × (k.w3 ≤ t + 1)
    × (t ≤ k.w4)
    × (k.w4 ≤ t + 1)
    × (t ≤ k.w5)
    × (k.w5 ≤ t + 1)

module _ (t e : ℕ) (past : t ≤ e) (far : e < t + 0x100000000) (small : t < 0x8000000000000000) where
  pub idx_lem : (e + u64 - t) % u64 ≡ e - t
  idx_lem = omega arith

  pub find_handle_list-Fits : (k : Windows) → Near t k → Fits k (find_handle_list t e) e
  unfolding find_handle_list
  find_handle_list-Fits k near = rw idx_lem (elim (Bool-cases (ltb (e - t) 256)) [
    | inl d ↦ rw d (inl (omega sides))
    | inr d ↦ rw d (elim (Bool-cases (ltb (e - t) 16384)) [
      | inl d2 ↦ rw d2 (inr (inl (omega sides)))
      | inr d2 ↦ rw d2 (elim (Bool-cases (ltb (e - t) 1048576)) [
        | inl d3 ↦ rw d3 (inr (inr (inl (omega sides))))
        | inr d3 ↦ rw d3 (elim (Bool-cases (ltb (e - t) 67108864)) [
          | inl d4 ↦ rw d4 (inr (inr (inr (inl (omega sides)))))
          | inr d4 ↦
              rw (d4, le→ltb u32_max (e - t) (omega sides)) (inr (inr (inr (inr (omega sides)))))
        ])
      ])
    ])
  ])
