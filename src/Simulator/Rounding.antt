-- ===== src/Simulator/Rounding.antt =====
-- Executable prices: the next multiple of the tick on the side that is worse for the trader.
use kiwi_t.Prelude.{
  ℕ, ◌+◌, ◌-◌, ◌*◌, ◌/◌, ◌≤◌, ◌<◌, ◌≡◌, refl, Bool, true, false, sym, subst, arith, ok,
  if◌then◌else◌,
}
use native.Mathlib.Nat.{div-add-mod, mod-lt, mul_comm, mul_assoc}
use kiwi_t.Simulator.Types.{FillRules, Quote, IsFillRules}
use kiwi_t.Simulator.Price.{floor_div, ceil_div, slipped, rounded, price}

pub floor_div_bounds : (n d : ℕ) → 0 < d → (floor_div n d * d ≤ n) × (n < floor_div n d * d + d)
unfolding floor_div
floor_div_bounds n d h = omega (arith, div-add-mod n d, mod-lt n h, mul_comm (n / d) d)

pub ceil_div_bounds : (n d : ℕ) → 0 < d → (n ≤ ceil_div n d * d) × (ceil_div n d * d < n + d)
unfolding ceil_div
ceil_div_bounds n d h =
    omega
      (arith, div-add-mod (n + (d - 1)) d, mod-lt (n + (d - 1)) h, mul_comm ((n + (d - 1)) / d) d)

-- A price is a whole number of ticks. A buyer pays no less than the slipped ask and less than one
-- tick more; a seller gets no more than the slipped bid and is short of it by less than one tick.
abbrev pub Executable : FillRules → Quote → Bool → ℕ → Type 0
Executable r q true v =
    (k : ℕ) × (v ≡ k * q.instrument.tick_size)
    × (q.ask * (r.scale + r.slippage) ≤ v * r.scale)
    × (v * r.scale < q.ask * (r.scale + r.slippage) + q.instrument.tick_size * r.scale)
Executable r q false v =
    (k : ℕ) × (v ≡ k * q.instrument.tick_size)
    × (v * r.scale ≤ q.bid * (r.scale - r.slippage))
    × (q.bid * (r.scale - r.slippage) < v * r.scale + q.instrument.tick_size * r.scale)

-- `price` returns the rounded price, which is not 0.
price-eq-ok :
    (r : FillRules) (q : Quote) (buy : Bool) (v : ℕ)
    → price r q buy ≡ ok v
    → (v ≡ rounded r q.instrument.tick_size buy (if buy then q.ask else q.bid)) × (0 < v)
unfolding price
price-eq-ok r q buy v h = ground arith

rounded-Executable :
    (r : FillRules) (q : Quote) (buy : Bool)
    → 0 < q.instrument.tick_size * r.scale
    → Executable r q buy (rounded r q.instrument.tick_size buy (if buy then q.ask else q.bid))
unfolding rounded slipped
rounded-Executable r q true h =
    let n = q.ask * (r.scale + r.slippage) in
    let unit = q.instrument.tick_size * r.scale in
    let (low, high) = ceil_div_bounds n unit h in
    (
      ceil_div n unit,
      refl,
      rw (mul_assoc (ceil_div n unit) q.instrument.tick_size r.scale) low,
      rw (mul_assoc (ceil_div n unit) q.instrument.tick_size r.scale) high,
    )
rounded-Executable r q false h =
    let n = q.bid * (r.scale - r.slippage) in
    let unit = q.instrument.tick_size * r.scale in
    let (low, high) = floor_div_bounds n unit h in
    (
      floor_div n unit,
      refl,
      rw (mul_assoc (floor_div n unit) q.instrument.tick_size r.scale) low,
      rw (mul_assoc (floor_div n unit) q.instrument.tick_size r.scale) high,
    )

-- What `price` returns is executable.
pub price-Executable :
    (r : FillRules) (q : Quote) (buy : Bool) (v : ℕ)
    → IsFillRules r
    → 0 < q.instrument.tick_size
    → price r q buy ≡ ok v
    → Executable r q buy v
price-Executable r q buy v rules tick h =
    let positive : 0 < q.instrument.tick_size * r.scale = grind (arith, rules.fee_below_one) in
    subst (Executable r q buy) (sym (price-eq-ok r q buy v h).0)
      (rounded-Executable r q buy positive)
