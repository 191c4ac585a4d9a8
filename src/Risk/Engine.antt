-- ===== src/Risk/Engine.antt =====
-- `RiskEngine.evaluate` of src/kiwit/risk.py.
--
-- The risk budget is counted in parts of a grain, 2 * scale of them, so that the throttle halves it
-- exactly. The source rounds a quotient to 28 digits before it rounds it down; here the quotient is
-- exact, as it is there while equity and unit risk have fewer digits than that together.
use kiwi_t.Prelude.{
  ℕ, ◌+◌, ◌*◌, Bool, not, ◌&&◌, ◌||◌, List, [], ◌∷◌, if◌then◌else◌, leb, length, is_nonempty,
}
use kiwi_t.Prelude.Int.{ℤ, pos, ◌+ℤ◌, ◌-ℤ◌, leb_ℤ, ltb_ℤ}
use kiwi_t.Prelude.Scaling.{times, floor_quot, whole_lots}
use kiwi_t.Simulator.Methods.{Decision, TradeProposal}
use kiwi_t.Risk.Types.{
  RiskConfig, PortfolioSnapshot, Position, distance, open_risk, RiskReason, note, decided,
  non_positive_equity, maximum_positions, drawdown_halt, daily_loss_limit, weekly_loss_limit,
  invalid_unit_risk, below_minimum_lot, maximum_open_risk, maximum_correlated_risk,
}

-- What `evaluate` returns: a `RiskDecision` whose budget is in the parts of a grain, and may be negative.
pub record Assessment : Type 0 where
  pub decision : Decision
  pub quantity : ℤ
  pub risk_budget : ℤ
  pub estimated_loss : ℤ
  pub reason_codes : List RiskReason

-- `drawdown_fraction >= limit`
unfoldable pub is_drawn : RiskConfig → PortfolioSnapshot → ℕ → Bool
is_drawn c p limit =
    leb limit 0
    || (ltb_ℤ (pos 0) p.high_watermark
        && leb_ℤ (times limit p.high_watermark) (times c.scale (p.high_watermark -ℤ p.equity)))

-- the parts of a grain in which the budget is counted
abbrev pub parts : RiskConfig → ℕ
parts c = 2 * c.scale

-- `base_risk`
unfoldable pub base_risk : RiskConfig → PortfolioSnapshot → ℤ
base_risk c p =
    times ((if is_drawn c p c.drawdown_throttle then 1 else 2) * c.risk_per_trade) p.equity

-- `pnl <= -(base_risk * limit)`
unfoldable pub is_limit_reached : RiskConfig → ℤ → ℕ → ℤ → Bool
is_limit_reached c base limit pnl =
    leb_ℤ (times (parts c * c.scale) pnl +ℤ times limit base) (pos 0)

-- `per_unit_risk`
unfoldable pub per_unit_risk : TradeProposal → ℤ → ℤ
per_unit_risk o cost = pos (distance o.entry_price o.stop_price) +ℤ cost

abbrev pub is_flat : ℤ → Bool
is_flat per_unit = leb_ℤ per_unit (pos 0)

-- the quantity where the unit risk is positive
unfoldable pub affordable : RiskConfig → ℤ → ℕ → ℕ → ℤ
affordable c base per_unit lot = whole_lots (floor_quot base (parts c * per_unit)) lot

-- `quantity` before the checks that follow
unfoldable pub sized : RiskConfig → ℤ → ℤ → ℕ → ℤ
sized c base (pos n) lot = if leb n 0 then pos 0 else affordable c base n lot
sized c base (ℤ.negsuc n) lot = pos 0

-- `per_unit_risk * quantity`, where the quantity of a unit risk that is not positive is 0
unfoldable pub loss_of : ℤ → ℤ → ℤ
loss_of (pos n) quantity = times n quantity
loss_of (ℤ.negsuc n) quantity = pos 0

-- `sum(position.open_risk for position in portfolio.positions)`
unfoldable pub sum_risk : List Position → ℕ
sum_risk [] = 0
sum_risk (p ∷ rest) = open_risk p + sum_risk rest

-- `risk + estimated_loss > portfolio.equity * limit`
unfoldable pub exceeds : RiskConfig → ℤ → ℤ → ℤ → ℕ → Bool
exceeds c equity risk loss limit = ltb_ℤ (times limit equity) (times c.scale (risk +ℤ loss))

-- the reasons, in the order in which they are appended
unfoldable pub engine_reasons : RiskConfig → PortfolioSnapshot → ℕ → ℤ → ℤ → ℤ → List RiskReason
engine_reasons c p lot base per_unit quantity = note (leb_ℤ p.equity (pos 0)) non_positive_equity (
    note (leb c.maximum_positions (length p.positions)) maximum_positions (
      note (is_drawn c p c.drawdown_halt) drawdown_halt (
        note (is_limit_reached c base c.daily_loss_limit_r p.realized_daily_pnl) daily_loss_limit (
          note (is_limit_reached c base c.weekly_loss_limit_r p.realized_weekly_pnl)
            weekly_loss_limit
            (note (is_flat per_unit) invalid_unit_risk (
              note (not (is_flat per_unit) && ltb_ℤ quantity (pos lot)) below_minimum_lot (
                note
                  (exceeds c p.equity (pos (sum_risk p.positions)) (loss_of per_unit quantity)
                    c.maximum_open_risk)
                  maximum_open_risk
                  (note
                    (exceeds c p.equity p.correlated_open_risk (loss_of per_unit quantity)
                      c.maximum_correlated_risk)
                    maximum_correlated_risk []))))))))

-- `RiskEngine.evaluate`
unfoldable pub evaluate : RiskConfig → TradeProposal → PortfolioSnapshot → ℤ → Assessment
evaluate c o p cost =
    let base = base_risk c p in
    let per_unit = per_unit_risk o cost in
    let quantity = sized c base per_unit o.instrument.lot_size in
    let reasons = engine_reasons c p o.instrument.lot_size base per_unit quantity in
    record {
      decision = decided reasons;
      quantity = if is_nonempty reasons then pos 0 else quantity;
      risk_budget = base;
      estimated_loss = loss_of per_unit quantity;
      reason_codes = reasons;
    }
