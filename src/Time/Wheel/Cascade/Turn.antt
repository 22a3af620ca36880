-- ===== src/Time/Wheel/Cascade/Turn.antt =====
-- When the turn of a list comes, its timers are due before the next turn, and go to finer wheels.
use libev_test.Base.{ℕ, ◌+◌, ◌-◌, ◌/◌, ◌%◌, ◌<◌, ◌≤◌, ◌≡◌, inl, inr, arith, lt→ltb}
use libev_test.Time.Wheel.{find_handle_list}
use libev_test.Time.Wheel.Place.{Windows, Fits, Near, idx_lem, find_handle_list-Fits}
use libev_test.Time.Wheel.Cascade.{IsDueElsewhere}

-- A short delay leads to a fine wheel.
module _ (t e : ℕ) (past : t ≤ e) (small : t < 0x8000000000000000) where
  find-lt-tv2 : e < t + 256 → find_handle_list t e < 256
  unfolding find_handle_list
  find-lt-tv2 h =
      rw (idx_lem t e past (omega arith) small, lt→ltb (e - t) 256 (omega arith)) (omega arith)

  find-lt-tv3 : e < t + 16384 → find_handle_list t e < 320
  unfolding find_handle_list
  find-lt-tv3 h =
      rw (idx_lem t e past (omega arith) small, lt→ltb (e - t) 16384 (omega arith)) (ground arith)

  find-lt-tv4 : e < t + 1048576 → find_handle_list t e < 384
  unfolding find_handle_list
  find-lt-tv4 h =
      rw (idx_lem t e past (omega arith) small, lt→ltb (e - t) 1048576 (omega arith)) (ground arith)

  find-lt-tv5 : e < t + 67108864 → find_handle_list t e < 448
  unfolding find_handle_list
  find-lt-tv5 h =
      rw (idx_lem t e past (omega arith) small, lt→ltb (e - t) 67108864 (omega arith))
        (ground arith)

module _ (t e s : ℕ) (k : Windows) (fits : Fits k s e) where
  -- Only the list's own wheel fits its place.
  due_tv2 : k.w2 ≡ t → t % 256 ≡ 0 → s ≡ 256 + (t / 256) % 64 → (t ≤ e) × (e < t + 256)
  due_tv2 w a l = elim fits [
    | inl h ↦ absurd (omega arith)
    | inr (inl h) ↦ (omega arith, omega arith)
    | inr (inr (inl h)) ↦ absurd (omega arith)
    | inr (inr (inr (inl h))) ↦ absurd (omega arith)
    | inr (inr (inr (inr h))) ↦ absurd (omega arith)
  ]

  due_tv3 : k.w3 ≡ t → t % 16384 ≡ 0 → s ≡ 320 + (t / 16384) % 64 → (t ≤ e) × (e < t + 16384)
  due_tv3 w a l = elim fits [
    | inl h ↦ absurd (omega arith)
    | inr (inl h) ↦ absurd (omega arith)
    | inr (inr (inl h)) ↦ (omega arith, omega arith)
    | inr (inr (inr (inl h))) ↦ absurd (omega arith)
    | inr (inr (inr (inr h))) ↦ absurd (omega arith)
  ]

  due_tv4 : k.w4 ≡ t → t % 1048576 ≡ 0 → s ≡ 384 + (t / 1048576) % 64 → (t ≤ e) × (e < t + 1048576)
  due_tv4 w a l = elim fits [
    | inl h ↦ absurd (omega arith)
    | inr (inl h) ↦ absurd (omega arith)
    | inr (inr (inl h)) ↦ absurd (omega arith)
    | inr (inr (inr (inl h))) ↦ (omega arith, omega arith)
    | inr (inr (inr (inr h))) ↦ absurd (omega arith)
  ]

  due_tv5 :
      k.w5 ≡ t → t % 67108864 ≡ 0 → s ≡ 448 + (t / 67108864) % 64 → (t ≤ e) × (e < t + 67108864)
  due_tv5 w a l = elim fits [
    | inl h ↦ absurd (omega arith)
    | inr (inl h) ↦ absurd (omega arith)
    | inr (inr (inl h)) ↦ absurd (omega arith)
    | inr (inr (inr (inl h))) ↦ absurd (omega arith)
    | inr (inr (inr (inr h))) ↦ (omega arith, omega arith)
  ]

module _ (t : ℕ) (k : Windows) (near : Near t k) (small : t < 0x8000000000000000) where
  pub turn_tv2 : k.w2 ≡ t → t % 256 ≡ 0 → IsDueElsewhere k t (256 + (t / 256) % 64)
  turn_tv2 w a e fits =
      let d = due_tv2 t e (256 + (t / 256) % 64) k fits w a (omega arith) in
      (
        find_handle_list-Fits t e d.0 (omega arith) small k near,
        omega (arith, find-lt-tv2 t e d.0 small d.1),
      )

  pub turn_tv3 : k.w3 ≡ t → t % 16384 ≡ 0 → IsDueElsewhere k t (320 + (t / 16384) % 64)
  turn_tv3 w a e fits =
      let d = due_tv3 t e (320 + (t / 16384) % 64) k fits w a (omega arith) in
      (
        find_handle_list-Fits t e d.0 (omega arith) small k near,
        omega (arith, find-lt-tv3 t e d.0 small d.1),
      )

  pub turn_tv4 : k.w4 ≡ t → t % 1048576 ≡ 0 → IsDueElsewhere k t (384 + (t / 1048576) % 64)
  turn_tv4 w a e fits =
      let d = due_tv4 t e (384 + (t / 1048576) % 64) k fits w a (omega arith) in
      (
        find_handle_list-Fits t e d.0 (omega arith) small k near,
        omega (arith, find-lt-tv4 t e d.0 small d.1),
      )

  pub turn_tv5 : k.w5 ≡ t → t % 67108864 ≡ 0 → IsDueElsewhere k t (448 + (t / 67108864) % 64)
  turn_tv5 w a e fits =
      let d = due_tv5 t e (448 + (t / 67108864) % 64) k fits w a (omega arith) in
      (
        find_handle_list-Fits t e d.0 (omega arith) small k near,
        omega (arith, find-lt-tv5 t e d.0 small d.1),
      )
