-- ===== src/Options/Sizing.antt =====
-- `trade_limits`, `session_limit_reached`, `quantity_for` and `sizing_diagnostics` of
-- src/kiwit/options_risk.py. A percentage is a number of ten-thousandths of a percent, so a fraction is
-- a number of millionths. A quotient is rounded down at once, where the source first rounds it to 28
-- digits; by 0 it is 0, where `quantity_for` raises.
use kiwi_t.Prelude.{
  ℕ, ◌+◌, ◌-◌, ◌*◌, ◌/◌, Bool, true, ◌&&◌, ◌||◌, ltb, ◌==◌, Option, none, some, List, [], ◌∷◌, min,
  if◌then◌else◌,
}
use kiwi_t.Prelude.Int.{ℤ, pos, ◌+ℤ◌, pos_part, leb_ℤ}
use kiwi_t.Prelude.Scaling.{times}
use kiwi_t.Options.Costs.{
  parts, fixed_order_cost, buy_variable_rate, sell_variable_rate, fill_price,
}

-- the fields of the session state that the options rules read
pub record OptionsState : Type 0 where
  pub amount : ℕ
  pub cash : ℤ
  pub realized_pnl : ℤ
  pub loss_pct : ℕ
  pub profit_pct : ℕ
  pub trade_stop_pct : Option ℕ
  pub trade_target_pct : Option ℕ
  pub session_profit_cap_enabled : Bool
  pub entries : ℕ
  pub has_position : Bool
  pub last_exit : Option ℕ

pub record Contract : Type 0 where
  pub tick : ℕ
  pub lot : ℕ
  pub freeze : ℕ

pub record OptionQuote : Type 0 where
  pub bid : ℕ
  pub ask : ℕ
  pub bid_size : ℕ
  pub ask_size : ℕ

-- `dict.get(key, default)`
abbrev or_else : Option ℕ → ℕ → ℕ
or_else none d = d
or_else (some a) d = a

-- `trade_limits`
unfoldable pub trade_limits : OptionsState → ℕ × ℕ
trade_limits s = (or_else s.trade_stop_pct s.loss_pct, or_else s.trade_target_pct s.profit_pct)

-- `session_limit_reached`
unfoldable pub session_limit_reached : OptionsState → ℤ → Bool
session_limit_reached s pnl =
    leb_ℤ (times 1_000_000 pnl +ℤ pos (s.amount * s.loss_pct)) (pos 0)
    || (s.session_profit_cap_enabled && leb_ℤ (pos (s.amount * s.profit_pct)) (times 1_000_000 pnl))

-- Budgets in parts of a grain. The allocation is a quarter of the amount, the planned risk a hundredth.
unfoldable pub allocation_budget : OptionsState → ℕ
allocation_budget s = s.amount * 25_000_000_000

unfoldable pub planned_risk_budget : OptionsState → ℕ
planned_risk_budget s = s.amount * 1_000_000_000

-- `cash`, of which a negative amount buys nothing, as 0 does
unfoldable pub cash_budget : OptionsState → ℕ
cash_budget s = pos_part (times parts s.cash)

-- `max(0, amount * loss + realized)`
unfoldable pub daily_risk_budget : OptionsState → ℕ
daily_risk_budget s = pos_part (pos (s.amount * s.loss_pct * 100_000) +ℤ times parts s.realized_pnl)

-- `fill * (1 + BUY_VARIABLE_RATE)`
unfoldable pub entry_unit : ℕ → ℕ
entry_unit fill = fill * (parts + buy_variable_rate)

-- `fill * (stop + BUY_VARIABLE_RATE + SELL_VARIABLE_RATE)`
unfoldable pub risk_unit : OptionsState → ℕ → ℕ
risk_unit s fill = fill * ((trade_limits s).0 * 100_000 + buy_variable_rate + sell_variable_rate)

-- `_budget_units`, and the quotients of `quantity_for`
unfoldable pub budget_units : ℕ → ℕ → ℕ → ℕ
budget_units budget per_unit fixed = (budget - fixed) / per_unit

-- `units // lot * lot`
unfoldable pub whole : ℕ → ℕ → ℕ
whole lot units = units / lot * lot

-- `quantity_for`; a freeze quantity of 0 leaves nothing, as -1 does in the source
unfoldable pub quantity_for : ℕ → OptionsState → Contract → OptionQuote → ℕ
quantity_for rupee s c q =
    let fill = fill_price c.tick q.ask true in
    let allocation = min (allocation_budget s) (cash_budget s) in
    let risk_budget = min (planned_risk_budget s) (daily_risk_budget s) in
    whole c.lot (
      min (budget_units allocation (entry_unit fill) (fixed_order_cost rupee)) (
        min (budget_units risk_budget (risk_unit s fill) (2 * fixed_order_cost rupee))
          (min q.ask_size (min q.bid_size (c.freeze - 1)))))

pub data CapacityCode : Type 0 where
  allocation cash planned_risk remaining_daily_risk ask_depth bid_depth freeze_limit : CapacityCode

pub record Capacity : Type 0 where
  pub code : CapacityCode
  pub units : ℕ

-- `capacities`
unfoldable pub capacities : ℕ → OptionsState → Contract → OptionQuote → List Capacity
capacities rupee s c q =
    let fill = fill_price c.tick q.ask true in
    let fixed = fixed_order_cost rupee in
    (record {
      code = allocation;
      units = budget_units (allocation_budget s) (entry_unit fill) fixed;
    })
    ∷ (record { code = cash; units = budget_units (cash_budget s) (entry_unit fill) fixed })
    ∷ (record {
      code = planned_risk;
      units = budget_units (planned_risk_budget s) (risk_unit s fill) (2 * fixed);
    })
    ∷ (record {
      code = remaining_daily_risk;
      units = budget_units (daily_risk_budget s) (risk_unit s fill) (2 * fixed);
    })
    ∷ (record { code = ask_depth; units = q.ask_size })
    ∷ (record { code = bid_depth; units = q.bid_size })
    ∷ (record { code = freeze_limit; units = c.freeze - 1 })
    ∷ []

-- `min` of a list that starts with the given item
unfoldable pub least : ℕ → List Capacity → ℕ
least m [] = m
least m (x ∷ xs) = least (min m x.units) xs

-- `min(capacity for _, capacity in capacities)`
unfoldable pub least_units : List Capacity → ℕ
least_units [] = 0
least_units (x ∷ xs) = least x.units xs

-- `binding_codes`
unfoldable pub binding : ℕ → List Capacity → List CapacityCode
binding raw [] = []
binding raw (x ∷ xs) = if x.units == raw then x.code ∷ binding raw xs else binding raw xs

-- the part of `sizing_diagnostics` that explains the quantity
pub record Diagnostics : Type 0 where
  pub raw_units : ℕ
  pub whole_lot_quantity : ℕ
  pub binding_codes : List CapacityCode
  pub constraints : List (Capacity × ℕ)
  pub lot_blocks_whole_lot : Bool

-- `constraints`: each capacity with its whole lots
unfoldable pub constrained : ℕ → List Capacity → List (Capacity × ℕ)
constrained lot [] = []
constrained lot (x ∷ xs) = (x, whole lot x.units) ∷ constrained lot xs

unfoldable pub sizing_diagnostics : ℕ → OptionsState → Contract → OptionQuote → Diagnostics
sizing_diagnostics rupee s c q =
    let all = capacities rupee s c q in
    let raw = least_units all in
    record {
      raw_units = raw;
      whole_lot_quantity = quantity_for rupee s c q;
      binding_codes = binding raw all;
      constraints = constrained c.lot all;
      lot_blocks_whole_lot = ltb 0 raw && ltb raw c.lot;
    }
