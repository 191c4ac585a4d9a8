-- ===== src/Simulator/Price.antt =====
-- The price arithmetic of `PaperSimulator.on_quote` in src/kiwit/paper_simulator.py: slippage,
-- rounding to the tick, and the two sides' conventions.
use kiwi_t.Prelude.{
  ℕ, ◌+◌, ◌-◌, ◌*◌, ◌/◌, Bool, true, false, leb, ◌==◌, if◌then◌else◌, Outcome, ok, err,
}
use kiwi_t.Prelude.Int.{ℤ, diff}
use kiwi_t.Simulator.Types.{FillRules, Quote, Failure, unrepresentable_price}

-- `(n / d).to_integral_value(rounding=ROUND_FLOOR)`
unfoldable pub floor_div : ℕ → ℕ → ℕ
floor_div n d = n / d

-- `(n / d).to_integral_value(rounding=ROUND_CEILING)`
unfoldable pub ceil_div : ℕ → ℕ → ℕ
ceil_div n d = (n + (d - 1)) / d

-- `1 + slippage_fraction` or `1 - slippage_fraction`, over `scale`
unfoldable pub slipped : FillRules → Bool → ℕ
slipped r up = if up then r.scale + r.slippage else r.scale - r.slippage

-- A price times its slippage, rounded to the tick: up or down with the slippage.
unfoldable pub rounded : FillRules → ℕ → Bool → ℕ → ℕ
unfolding floor_div ceil_div slipped
rounded r tick up value =
    let raw = value * slipped r up in
    let unit = tick * r.scale in (if up then ceil_div raw unit else floor_div raw unit) * tick

-- the nested function `price(buy)`
unfoldable pub price : FillRules → Quote → Bool → Outcome Failure ℕ
price r quote buy =
    let value = rounded r quote.instrument.tick_size buy (if buy then quote.ask else quote.bid) in
    if value == 0 then err unrepresentable_price else ok value

-- `projected_stop`: the stop after the slippage of the exit, which sells a long position
unfoldable pub projected_stop : FillRules → Quote → Bool → ℕ → ℕ
projected_stop r quote long stop =
    if long
    then rounded r quote.instrument.tick_size false stop
    else rounded r quote.instrument.tick_size true stop

unfoldable pub abs_diff : ℕ → ℕ → ℕ
abs_diff a b = if leb b a then a - b else b - a

-- `fill * q`, as money
abbrev pub notional : FillRules → ℕ → ℕ → ℕ
notional r fill q = fill * q * r.scale

-- `fill * q * fee_fraction`, as money
abbrev pub fee_of : FillRules → ℕ → ℕ → ℕ
fee_of r fill q = fill * q * r.fee

-- `(to - from) * q * (1 if long else -1)`, as money
unfoldable pub gross : FillRules → Bool → ℕ → ℕ → ℕ → ℤ
gross r long from to q =
    if long
    then diff (notional r to q) (notional r from q)
    else diff (notional r from q) (notional r to q)
