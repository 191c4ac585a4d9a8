-- ===== src/Prelude/Scaling.antt =====
-- Integers times a natural number, and their quotients by one, rounded down.
use kiwi_t.Prelude.{ℕ, zero, suc, ◌+◌, ◌*◌, ◌/◌, ◌≤◌, ◌<◌, ◌≡◌, arith}
use kiwi_t.Prelude.Int.{ℤ, pos, negsuc, pos_part, neg_part, diff, ◌≤ℤ◌, diff_parts}
use native.Mathlib.Nat.{div-add-mod, mod-lt, mul-le-mul_left, mul-le-mul_right}

unfoldable pub times : ℕ → ℤ → ℤ
times k a = diff (k * pos_part a) (k * neg_part a)

-- the quotient rounded down, `//` of Python, where the divisor is not 0
unfoldable pub floor_quot : ℤ → ℕ → ℤ
floor_quot (pos n) d = pos (n / d)
floor_quot (negsuc n) d = negsuc (n / d)

-- `a // d * d`
unfoldable pub whole_lots : ℤ → ℕ → ℤ
whole_lots a d = times d (floor_quot a d)

pub times_parts :
    (k : ℕ) (a : ℤ) → pos_part (times k a) + k * neg_part a ≡ neg_part (times k a) + k * pos_part a
unfolding times
times_parts k a = diff_parts (k * pos_part a) (k * neg_part a)

pub quotient_bounds : (n d : ℕ) → 0 < d → (d * (n / d) ≤ n) × (n < d * (n / d) + d)
quotient_bounds n d h = omega (arith, div-add-mod n d, mod-lt n h)

-- What rounding down to whole lots leaves of an integer, when it leaves one lot at least.
pub record LotsOf (a : ℤ) (lot : ℕ) (q : ℤ) : Type 0 where
  pub lots : ℕ
  pub whole : q ≡ pos (lot * lots)
  pub some_lot : 0 < lots
  pub below : pos (lot * lots) ≤ℤ a
  pub nearest : pos_part a < lot * lots + lot

pub times_pos : (k n : ℕ) → times k (pos n) ≡ pos (k * n)
unfolding times diff
times_pos k n = ground arith

-- A multiple of a negative integer is not positive.
times_negsuc : (k n : ℕ) → pos_part (times k (negsuc n)) ≡ 0
unfolding times diff
times_negsuc k n = ground arith

some_lots : (lot m : ℕ) → 1 ≤ lot * m → 0 < m
some_lots lot zero h = omega (arith, h)
some_lots lot (suc m) h = omega arith

pub whole_lots-LotsOf :
    (a : ℤ) (lot : ℕ) → 0 < lot → pos 1 ≤ℤ whole_lots a lot → LotsOf a lot (whole_lots a lot)
unfolding whole_lots floor_quot
whole_lots-LotsOf (pos n) lot h k =
    let bounds = quotient_bounds n lot h in
    let whole = times_pos lot (n / lot) in
    let one : pos 1 ≤ℤ pos (lot * (n / lot)) = rw whole at k in
    record {
      lots = n / lot;
      whole = whole;
      some_lot = some_lots lot (n / lot) (omega (arith, one));
      below = omega (arith, bounds.0);
      nearest = bounds.1;
    }
whole_lots-LotsOf (negsuc n) lot h k = absurd (omega (arith, k, times_negsuc lot (n / lot)))

-- The quotient of an integer that is at least a natural number is within the integer.
pub floor_quot_above : (a : ℤ) (d q : ℕ) → 0 < d → pos q ≤ℤ floor_quot a d → d * q ≤ pos_part a
unfolding floor_quot
floor_quot_above (pos n) d q h k =
    omega
      (arith, (quotient_bounds n d h).0, mul-le-mul_left {m = q} {n = n / d} d (omega (arith, k)))
floor_quot_above (negsuc n) d q h k = absurd (omega (arith, k))

-- The quotient is the greatest such number.
pub floor_quot_below :
    (a : ℤ) (d q : ℕ) → 0 < d → pos_part (floor_quot a d) < q → pos_part a < d * q
unfolding floor_quot
floor_quot_below (pos n) d q h k = omega (
  arith,
  (quotient_bounds n d h).1,
  mul-le-mul_left {m = suc (n / d)} {n = q} d (omega (arith, k)),
)
floor_quot_below (negsuc n) d q h k =
    omega (arith, h, k, mul-le-mul_left {m = 1} {n = q} d (omega (arith, k)))

pub times_at_most : (k m : ℕ) (a : ℤ) → k ≤ m → pos_part (times k a) ≤ m * pos_part a
times_at_most k m (pos n) h = rw (times_pos k n) (mul-le-mul_right {m = k} {n = m} n h)
times_at_most k m (negsuc n) h = omega (arith, times_negsuc k n)
