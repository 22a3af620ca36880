-- ===== src/Time/Wheel/Cascade/All.antt =====
-- The cascades of one tick leave in the coarse wheels only what is due at later ticks.
use libev_test.Base.{
  ℕ, ◌+◌, ◌/◌, ◌%◌, ◌<◌, ◌≡◌, ◌≢◌, ◌⊎◌, inl, inr, ◌∙◌, arith, refl, true, false, not, ◌==◌,
}
use libev_test.Time.Wheel.{TimerMgr, cascade, cascades}
use libev_test.Time.Wheel.Valid.{IsValid, at_tick}
use libev_test.Time.Wheel.Cascade.Move.{
  in_tick, past_tv2, past_tv3, past_tv4, cascade-same, Placed-map, cascade_moves, move_tv2,
  move_tv3, move_tv4, move_tv5, rest_tv2, rest_tv3, rest_tv4, rest_tv5, Fits-map,
}
use libev_test.Time.Wheel.Cascade.Turn.{turn_tv2, turn_tv3, turn_tv4, turn_tv5}

module _ (t : ℕ) (w : TimerMgr) (now : w.cur_tick ≡ t) (small : t < 0x8000000000000000) where
  stays_tv1 : t % 256 ≢ 0 → IsValid (at_tick t) w → IsValid (in_tick t) w
  stays_tv1 h v = record {
    listed = v.listed;
    placed = λ m.
        Placed-map (at_tick t) (in_tick t) (w.nodes m)
          (λ l e.
            Fits-map (at_tick t) (in_tick t) l e (λ f. f) (rest_tv2 t l e h)
              (rest_tv3 t l e (omega arith)) (rest_tv4 t l e (omega arith))
              (rest_tv5 t l e (omega arith)))
          (v.placed m);
    no_zero = v.no_zero;
  }

  after_tv2 :
      t % 256 ≡ 0 → IsValid (at_tick t) w → IsValid (past_tv2 t) (cascade (256 + (t / 256) % 64) w)
  after_tv2 a v =
      cascade_moves t (256 + (t / 256) % 64) (at_tick t) (past_tv2 t) w now
        (turn_tv2 t (at_tick t) (omega arith) small refl a)
        (λ l e h.
          Fits-map (at_tick t) (past_tv2 t) l e (λ f. f) (move_tv2 t l e h) (λ f. f) (λ f. f)
            (λ f. f))
        v

  last_tv2 :
      t % 256 ≡ 0
      → t % 16384 ≢ 0
      → IsValid (at_tick t) w
      → IsValid (in_tick t) (cascade (256 + (t / 256) % 64) w)
  last_tv2 a h v =
      cascade_moves t (256 + (t / 256) % 64) (at_tick t) (in_tick t) w now
        (turn_tv2 t (at_tick t) (omega arith) small refl a)
        (λ l e out.
          Fits-map (at_tick t) (in_tick t) l e (λ f. f) (move_tv2 t l e out) (rest_tv3 t l e h)
            (rest_tv4 t l e (omega arith)) (rest_tv5 t l e (omega arith)))
        v

  after_tv3 :
      t % 16384 ≡ 0
      → IsValid (past_tv2 t) w
      → IsValid (past_tv3 t) (cascade (320 + (t / 16384) % 64) w)
  after_tv3 a v =
      cascade_moves t (320 + (t / 16384) % 64) (past_tv2 t) (past_tv3 t) w now
        (turn_tv3 t (past_tv2 t) (omega arith) small refl a)
        (λ l e h.
          Fits-map (past_tv2 t) (past_tv3 t) l e (λ f. f) (λ f. f) (move_tv3 t l e h) (λ f. f)
            (λ f. f))
        v

  last_tv3 :
      t % 16384 ≡ 0
      → t % 1048576 ≢ 0
      → IsValid (past_tv2 t) w
      → IsValid (in_tick t) (cascade (320 + (t / 16384) % 64) w)
  last_tv3 a h v =
      cascade_moves t (320 + (t / 16384) % 64) (past_tv2 t) (in_tick t) w now
        (turn_tv3 t (past_tv2 t) (omega arith) small refl a)
        (λ l e out.
          Fits-map (past_tv2 t) (in_tick t) l e (λ f. f) (λ f. f) (move_tv3 t l e out)
            (rest_tv4 t l e h) (rest_tv5 t l e (omega arith)))
        v

  after_tv4 :
      t % 1048576 ≡ 0
      → IsValid (past_tv3 t) w
      → IsValid (past_tv4 t) (cascade (384 + (t / 1048576) % 64) w)
  after_tv4 a v =
      cascade_moves t (384 + (t / 1048576) % 64) (past_tv3 t) (past_tv4 t) w now
        (turn_tv4 t (past_tv3 t) (omega arith) small refl a)
        (λ l e h.
          Fits-map (past_tv3 t) (past_tv4 t) l e (λ f. f) (λ f. f) (λ f. f) (move_tv4 t l e h)
            (λ f. f))
        v

  last_tv4 :
      t % 1048576 ≡ 0
      → t % 67108864 ≢ 0
      → IsValid (past_tv3 t) w
      → IsValid (in_tick t) (cascade (384 + (t / 1048576) % 64) w)
  last_tv4 a h v =
      cascade_moves t (384 + (t / 1048576) % 64) (past_tv3 t) (in_tick t) w now
        (turn_tv4 t (past_tv3 t) (omega arith) small refl a)
        (λ l e out.
          Fits-map (past_tv3 t) (in_tick t) l e (λ f. f) (λ f. f) (λ f. f) (move_tv4 t l e out)
            (rest_tv5 t l e h))
        v

  last_tv5 :
      t % 67108864 ≡ 0
      → IsValid (past_tv4 t) w
      → IsValid (in_tick t) (cascade (448 + (t / 67108864) % 64) w)
  last_tv5 a v =
      cascade_moves t (448 + (t / 67108864) % 64) (past_tv4 t) (in_tick t) w now
        (turn_tv5 t (past_tv4 t) (omega arith) small refl a)
        (λ l e out.
          Fits-map (past_tv4 t) (in_tick t) l e (λ f. f) (λ f. f) (λ f. f) (λ f. f)
            (move_tv5 t l e out))
        v

-- A digit of the tick is zero or not.
zero_test : (n : ℕ) → ((not (n == 0) ≡ true) × (n ≢ 0)) ⊎ ((not (n == 0) ≡ false) × (n ≡ 0))
zero_test n = ground arith

cascade_clock : (s t : ℕ) (w : TimerMgr) → w.cur_tick ≡ t → (cascade s w).cur_tick ≡ t
cascade_clock s t w now = (cascade-same s w).0 ∙ now

pub cascades-IsValid :
    (w : TimerMgr)
    → w.cur_tick < 0x8000000000000000
    → IsValid (at_tick w.cur_tick) w
    → IsValid (in_tick w.cur_tick) (cascades w)
unfolding cascades
cascades-IsValid w small v =
    let t = w.cur_tick in
    let w2 = cascade (256 + (t / 256) % 64) w in
    let n2 = cascade_clock (256 + (t / 256) % 64) t w refl in
    let w3 = cascade (320 + (t / 16384) % 64) w2 in
    let n3 = cascade_clock (320 + (t / 16384) % 64) t w2 n2 in
    let w4 = cascade (384 + (t / 1048576) % 64) w3 in
    let n4 = cascade_clock (384 + (t / 1048576) % 64) t w3 n3 in
    elim (zero_test (t % 256)) [
      | inl z ↦ rw z.0 (stays_tv1 t w refl small z.1 v)
      | inr z ↦ rw z.0 (elim (zero_test ((t / 256) % 64)) [
        | inl y ↦ rw y.0 (last_tv2 t w refl small z.1 (omega arith) v)
        | inr y ↦
            let v2 = after_tv2 t w refl small z.1 v in
            rw y.0 (elim (zero_test ((t / 16384) % 64)) [
              | inl x ↦ rw x.0 (last_tv3 t w2 n2 small (omega arith) (omega arith) v2)
              | inr x ↦
                  let v3 = after_tv3 t w2 n2 small (omega arith) v2 in
                  rw x.0 (elim (zero_test ((t / 1048576) % 64)) [
                    | inl u ↦ rw u.0 (last_tv4 t w3 n3 small (omega arith) (omega arith) v3)
                    | inr u ↦ rw u.0 (
                        last_tv5 t w4 n4 small (omega arith)
                          (after_tv4 t w3 n3 small (omega arith) v3))
                  ])
            ])
      ])
    ]

pub cascades-same :
    (w : TimerMgr) → ((cascades w).cur_tick ≡ w.cur_tick) × ((cascades w).calls ≡ w.calls)
unfolding cascades
cascades-same w =
    let t = w.cur_tick in
    let w2 = cascade (256 + (t / 256) % 64) w in
    let w3 = cascade (320 + (t / 16384) % 64) w2 in
    let w4 = cascade (384 + (t / 1048576) % 64) w3 in
    let s2 = cascade-same (256 + (t / 256) % 64) w in
    let s3 = cascade-same (320 + (t / 16384) % 64) w2 in
    let s4 = cascade-same (384 + (t / 1048576) % 64) w3 in
    let s5 = cascade-same (448 + (t / 67108864) % 64) w4 in (ground arith, ground arith)
