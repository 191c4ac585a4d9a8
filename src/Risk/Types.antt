-- ===== src/Risk/Types.antt =====
-- The data of the risk checks: src/kiwit/config.py, src/kiwit/domain.py, src/kiwit/risk_policy.py.
--
-- A price or an amount of money is a number of grains. A fraction of `RiskConfig` is a number of
-- parts of the whole, which has `scale` parts.
use kiwi_t.Prelude.{ℕ, ◌-◌, ◌*◌, Bool, List, ◌∷◌, if◌then◌else◌, leb, is_nonempty}
use kiwi_t.Prelude.Int.{ℤ}
use kiwi_t.Simulator.Methods.{Decision, approve, reject}

pub record RiskConfig : Type 0 where
  pub scale : ℕ
  pub risk_per_trade : ℕ
  pub maximum_risk_per_trade : ℕ
  pub maximum_open_risk : ℕ
  pub maximum_correlated_risk : ℕ
  pub daily_loss_limit_r : ℕ
  pub weekly_loss_limit_r : ℕ
  pub drawdown_throttle : ℕ
  pub drawdown_halt : ℕ
  pub maximum_positions : ℕ

-- the fields of `Position` that the checks read
pub record Position : Type 0 where
  pub quantity : ℕ
  pub entry_price : ℕ
  pub stop_price : ℕ

pub record PortfolioSnapshot : Type 0 where
  pub equity : ℤ
  pub high_watermark : ℤ
  pub realized_daily_pnl : ℤ
  pub realized_weekly_pnl : ℤ
  pub positions : List Position
  pub correlated_open_risk : ℤ

-- `abs(a - b)`
unfoldable pub distance : ℕ → ℕ → ℕ
distance a b = if leb b a then a - b else b - a

-- `Position.open_risk`
unfoldable pub open_risk : Position → ℕ
open_risk p = distance p.entry_price p.stop_price * p.quantity

pub data RiskReason : Type 0 where
  non_positive_equity maximum_positions drawdown_halt daily_loss_limit weekly_loss_limit
        invalid_unit_risk below_minimum_lot maximum_open_risk maximum_correlated_risk :
      RiskReason
  emergency_disabled unknown_or_closed_session outside_entry_window stale_or_future_risk_state
        risk_state_day_mismatch maximum_daily_trades consecutive_loss_cooldown future_loss_state
        invalid_risk_state no_permitted_quantity maximum_trade_risk invalid_proposal_or_portfolio :
      RiskReason

-- `if b: reasons.append(r)`, before the reasons that follow
abbrev pub note : Bool → RiskReason → List RiskReason → List RiskReason
note b r rs = if b then r ∷ rs else rs

-- `Decision.REJECT if reasons else Decision.APPROVE`
abbrev pub decided : List RiskReason → Decision
decided rs = if is_nonempty rs then reject else approve
