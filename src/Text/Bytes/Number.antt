-- ===== src/Text/Bytes/Number.antt =====
-- An integer stored in `w` bytes and loaded again.
use libev_test.Base.{ℕ, zero, suc, ◌/◌, ◌^◌, ◌<◌, ◌≡◌, refl, ap, arith, length}
use native.Mathlib.Nat.{pow-suc}
use libev_test.Text.Bytes.{to_bytes, from_bytes}

pub length-to_bytes : (w v : ℕ) → length (to_bytes w v) ≡ w
unfolding to_bytes
length-to_bytes zero v = refl
length-to_bytes (suc w) v = ap suc (length-to_bytes w (v / 256))

pub from_bytes-to_bytes : (w v : ℕ) → v < 256 ^ w → from_bytes (to_bytes w v) ≡ v
unfolding to_bytes from_bytes
from_bytes-to_bytes zero v h = omega arith
from_bytes-to_bytes (suc w) v h =
    omega (arith, from_bytes-to_bytes w (v / 256) (omega (arith, pow-suc 256 w)))
