-- ===== src/Options/Capacities.antt =====
-- `sizing_diagnostics` explains `quantity_for` of src/kiwit/options_risk.py.
use kiwi_t.Prelude.{
  ℕ, zero, suc, ◌+◌, ◌-◌, ◌*◌, ◌/◌, ◌≤◌, ◌<◌, ◌≡◌, refl, ap, inl, inr, true, min, arith, Bool-cases,
  leb,
}
use native.Mathlib.Nat.{
  div-zero, mul-div-le, le-div_iff_mul-le, mul-le-mul_left, mul_comm, mul_assoc,
}
use kiwi_t.Prelude.Int.{pos, pos_part, ◌+ℤ◌}
use kiwi_t.Prelude.Scaling.{times}
use kiwi_t.Options.Costs.{fill_price, fixed_order_cost, parts, fees, fees-linear, Side}
use kiwi_t.Options.Sizing.{
  OptionsState, Contract, OptionQuote, allocation_budget, planned_risk_budget, cash_budget,
  daily_risk_budget, entry_unit, risk_unit, budget_units, whole, quantity_for, capacities, least,
  least_units, sizing_diagnostics, trade_limits,
}

div_mono : (a b d : ℕ) → a ≤ b → a / d ≤ b / d
div_mono a b zero h = omega (arith, div-zero a, div-zero b)
div_mono a b (suc d) h =
    (le-div_iff_mul-le {k = suc d} {x = a / suc d} {y = b} (omega arith)).1
      (omega (arith, h, mul-div-le a (suc d)))

-- Both budgets of a pair bound the units as their minimum does.
budget_units-min :
    (a b d f : ℕ) → budget_units (min a b) d f ≡ min (budget_units a d f) (budget_units b d f)
unfolding budget_units
budget_units-min a b d f = elim (Bool-cases (leb a b)) [
  | inl h ↦
      let first : min a b ≡ a = ground arith in
      let below = div_mono (a - f) (b - f) d (ground arith) in rw first (omega (arith, below))
  | inr h ↦
      let second : min a b ≡ b = ground arith in
      let below = div_mono (b - f) (a - f) d (ground arith) in rw second (omega (arith, below))
]

min_assoc : (a b c : ℕ) → min (min a b) c ≡ min a (min b c)
min_assoc a b c = omega arith

regrouped :
    (a b c d e f g : ℕ)
    → min (min a b) (min (min c d) (min e (min f g)))
      ≡ min (min (min (min (min (min a b) c) d) e) f) g
regrouped a b c d e f g = simp (min_assoc)

-- The quantity of `quantity_for`, which takes the minimum of two budgets before it divides, is the
-- least of the seven capacities that `sizing_diagnostics` computes on their own, in whole lots.
pub whole_lot_quantity-explained :
    (rupee : ℕ) (s : OptionsState) (c : Contract) (q : OptionQuote)
    → (sizing_diagnostics rupee s c q).whole_lot_quantity
      ≡ whole c.lot (sizing_diagnostics rupee s c q).raw_units
unfolding sizing_diagnostics quantity_for capacities least_units least
whole_lot_quantity-explained rupee s c q =
    let fill = fill_price c.tick q.ask true in
    let fixed = fixed_order_cost rupee in
    ap (whole c.lot) (
      rw (budget_units-min (allocation_budget s) (cash_budget s) (entry_unit fill) fixed) (
        rw
          (budget_units-min (planned_risk_budget s) (daily_risk_budget s) (risk_unit s fill)
            (2 * fixed))
          (regrouped _ _ _ _ _ _ _)))

-- The price of a quantity with the fees of buying it, in parts of a grain.
abbrev pub bought : ℕ → ℕ → ℕ → ℕ
bought rupee fill n = fill * n * parts + fees rupee (fill * n) Side.buy

-- What a quantity loses at the stop, with the fees of buying it and of selling it at the price paid.
abbrev pub lost : ℕ → OptionsState → ℕ → ℕ → ℕ
lost rupee s fill n =
    fill * n * ((trade_limits s).0 * 100_000)
    + fees rupee (fill * n) Side.buy
    + fees rupee (fill * n) Side.sell

-- What a quantity of lots can be paid for by.
pub record IsAffordable (rupee : ℕ) (s : OptionsState) (c : Contract) (q : OptionQuote) (n : ℕ)
    : Type 0 where
  pub lots : ℕ
  pub whole_lots : n ≡ lots * c.lot
  pub within_allocation : 4 * bought rupee (fill_price c.tick q.ask true) n ≤ s.amount * parts
  pub within_cash : bought rupee (fill_price c.tick q.ask true) n ≤ pos_part (times parts s.cash)
  pub within_plan : 100 * lost rupee s (fill_price c.tick q.ask true) n ≤ s.amount * parts
  pub within_day :
      lost rupee s (fill_price c.tick q.ask true) n
      ≤ pos_part (pos (s.amount * s.loss_pct * 100_000) +ℤ times parts s.realized_pnl)
  pub shown : (n ≤ q.ask_size) × (n ≤ q.bid_size)
  pub not_frozen : n < c.freeze

-- What fits into a budget is paid for by it.
budget_units-fits : (budget d f n : ℕ) → 0 < n → n ≤ budget_units budget d f → d * n + f ≤ budget
unfolding budget_units
budget_units-fits budget zero f n h k = absurd (omega (arith, h, k, div-zero (budget - f)))
budget_units-fits budget (suc d) f n h k =
    let paid : n * suc d ≤ budget - f =
      (le-div_iff_mul-le {k = suc d} {x = n} {y = budget - f} (omega arith)).0 k in
    omega (arith, h, paid, mul_comm n (suc d), mul-le-mul_left {m = 1} {n = n} (suc d) h)

pub whole-le : (lot units : ℕ) → whole lot units ≤ units
unfolding whole
whole-le lot units = omega (arith, mul-div-le units lot, mul_comm lot (units / lot))

whole-lots : (lot units : ℕ) → (k : ℕ) × (whole lot units ≡ k * lot)
unfolding whole
whole-lots lot units = (units / lot, refl)

least_of :
    (a b c d e : ℕ) (n : ℕ)
    → n ≤ min a (min b (min c (min d e)))
    → (n ≤ a) × (n ≤ b) × (n ≤ c) × (n ≤ d) × (n ≤ e)
least_of a b c d e n h =
    (omega (arith, h), omega (arith, h), omega (arith, h), omega (arith, h), omega (arith, h))

-- the cost of a unit times the quantity, and the cost of an order
bought_split :
    (rupee fill n : ℕ) → entry_unit fill * n + fixed_order_cost rupee ≡ bought rupee fill n
unfolding entry_unit
bought_split rupee fill n =
    omega (arith, fees-linear rupee (fill * n) Side.buy, mul_assoc fill n parts, mul_comm n parts)

lost_split :
    (rupee : ℕ) (s : OptionsState) (fill n : ℕ)
    → risk_unit s fill * n + 2 * fixed_order_cost rupee ≡ lost rupee s fill n
unfolding risk_unit
lost_split rupee s fill n =
    omega (arith, fees-linear rupee (fill * n) Side.buy, fees-linear rupee (fill * n) Side.sell)

-- A positive quantity of `quantity_for` can be paid for: its premium and the fees of buying it are at most
-- a quarter of the amount and at most the cash, and what it loses at the stop, with the fees of buying
-- and of selling it, is at most a hundredth of the amount and at most what is left of the daily loss.
-- It is some whole lots, below the freeze quantity, and no more than the quote shows on either side.
pub quantity_for-IsAffordable :
    (rupee : ℕ) (s : OptionsState) (c : Contract) (q : OptionQuote)
    → 0 < quantity_for rupee s c q
    → IsAffordable rupee s c q (quantity_for rupee s c q)
unfolding quantity_for allocation_budget cash_budget planned_risk_budget daily_risk_budget
quantity_for-IsAffordable rupee s c q h =
    let fill = fill_price c.tick q.ask true in
    let fixed = fixed_order_cost rupee in
    let n = quantity_for rupee s c q in
    let (a, r, ask, bid, freeze) = least_of _ _ _ _ _ n (whole-le c.lot _) in
    let lots = whole-lots c.lot _ in
    let paid =
      budget_units-fits (min (allocation_budget s) (cash_budget s)) (entry_unit fill) fixed n h a in
    let risked =
      budget_units-fits (min (planned_risk_budget s) (daily_risk_budget s)) (risk_unit s fill)
        (2 * fixed) n h r in
    record {
      lots = lots.0;
      whole_lots = lots.1;
      within_allocation = omega (arith, paid, bought_split rupee fill n);
      within_cash = omega (arith, paid, bought_split rupee fill n);
      within_plan = omega (arith, risked, lost_split rupee s fill n);
      within_day = omega (arith, risked, lost_split rupee s fill n);
      shown = (ask, bid);
      not_frozen = omega (arith, freeze, h);
    }
