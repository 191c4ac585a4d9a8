-- ===== src/Risk/Tests.antt =====
-- A long of one instrument on a day of the calendar, and the risk checks at it.
use kiwi_t.Prelude.{ℕ, ◌≡◌, refl, Bool, true, false, none, some, [], ◌∷◌, arith}
use kiwi_t.Prelude.Int.{pos, ◌+ℤ◌, ◌-ℤ◌, diff}
use kiwi_t.Prelude.Scaling.{times, floor_quot, whole_lots}
use kiwi_t.Calendar.{session, session_at, bounds, ist_date}
use kiwi_t.Simulator.Methods.{TradeProposal, buy, approve, reject}
use kiwi_t.Risk.Types.{RiskConfig, PortfolioSnapshot, distance, open_risk}
use kiwi_t.Risk.Engine.{
  Assessment, is_drawn, base_risk, is_limit_reached, per_unit_risk, affordable, sized, loss_of,
  sum_risk, exceeds, engine_reasons,
}
use kiwi_t.Risk.Engine
use kiwi_t.Risk.Approval.{Approved, evaluate-Approved}
use kiwi_t.Risk.Policy.{
  DeterministicRiskPolicy, HardLimits, RiskState, in_entry_window, session_reasons, is_cooling,
  is_future, is_invalid_state, counter_reasons, state_reasons, is_invalid, min_ℤ,
  permitted_quantity, permitted_loss, is_risky, quantity_reasons, sizing, policy_reasons,
}
use kiwi_t.Risk.Policy
use kiwi_t.Risk.Permission.{Permitted, evaluate-Permitted}
use kiwi_t.Risk.Rejection.{emergency, evaluate-fails_closed}

-- fractions in thousandths: 0.5 % a trade, 1 % at most, 3 % open
abbrev config : RiskConfig
config = record {
  scale = 1000;
  risk_per_trade = 5;
  maximum_risk_per_trade = 10;
  maximum_open_risk = 30;
  maximum_correlated_risk = 20;
  daily_loss_limit_r = 3000;
  weekly_loss_limit_r = 6000;
  drawdown_throttle = 50;
  drawdown_halt = 100;
  maximum_positions = 3;
}

-- 09:20 in India on day 20000
abbrev morning : ℕ
morning = 1728013800000000

abbrev proposal : TradeProposal
proposal = record {
  proposal_id = "p1";
  instrument = record {
    symbol = "INFY";
    exchange = "NSE";
    series = "EQ";
    lot_size = 5;
    tick_size = 5;
  };
  side = buy;
  signal_timestamp = morning;
  entry_price = 10000;
  stop_price = 9900;
  target_price = some 10200;
}

abbrev portfolio : PortfolioSnapshot
portfolio = record {
  equity = pos 1000000;
  high_watermark = pos 1000000;
  realized_daily_pnl = pos 0;
  realized_weekly_pnl = pos 0;
  positions = (record { quantity = 10; entry_price = 500; stop_price = 450 }) ∷ [];
  correlated_open_risk = pos 0;
}

-- the policy with or without the emergency switch
abbrev policy : Bool → DeterministicRiskPolicy
policy stopped = record {
  risk = config;
  limits = record {
    maximum_quantity = 20;
    maximum_trades_per_day = 10;
    loss_streak_limit = 3;
    loss_cooldown_seconds = 1800;
    no_entry_before_close_seconds = 900;
    maximum_state_age_seconds = 30;
    emergency_disabled = stopped;
  };
  calendar = record {
    version = "v1";
    sessions = (record { day = 20000; opens = 33300000000; closes = 55800000000 }) ∷ [];
  };
  isoformat = λ _. "2024-10-04";
}

abbrev state : RiskState
state = record {
  as_of = morning;
  trading_day = "2024-10-04";
  trades_today = pos 2;
  consecutive_losses = pos 0;
  last_loss_at = none;
}

-- A risk of 101 a unit and a budget of 5000 give 49 units, that is nine lots of five.
test_engine : (Engine.evaluate config proposal portfolio (pos 1)).quantity ≡ pos 45
unfolding Engine.evaluate engine_reasons exceeds sum_risk loss_of sized affordable per_unit_risk
    is_limit_reached base_risk is_drawn open_risk distance times floor_quot whole_lots diff ◌+ℤ◌
    ◌-ℤ◌
test_engine = refl

approves : (Engine.evaluate config proposal portfolio (pos 1)).decision ≡ approve
unfolding Engine.evaluate engine_reasons exceeds sum_risk loss_of sized affordable per_unit_risk
    is_limit_reached base_risk is_drawn open_risk distance times floor_quot whole_lots diff ◌+ℤ◌
    ◌-ℤ◌
approves = refl

evaluate-Approved_example :
    Approved config proposal portfolio (pos 1) (Engine.evaluate config proposal portfolio (pos 1))
evaluate-Approved_example =
    evaluate-Approved config proposal portfolio (pos 1) (omega arith) (omega arith) approves

-- The hard limit leaves four lots of the nine.
test_policy :
    (Policy.evaluate (policy false) proposal portfolio (pos 1) state morning).quantity ≡ pos 20
unfolding Policy.evaluate policy_reasons sizing quantity_reasons is_risky permitted_loss
    permitted_quantity min_ℤ is_invalid state_reasons counter_reasons is_invalid_state is_future
    session_reasons in_entry_window session_at session bounds ist_date Engine.evaluate
    engine_reasons exceeds sum_risk loss_of sized affordable per_unit_risk is_limit_reached
    base_risk is_drawn open_risk distance times floor_quot whole_lots diff ◌+ℤ◌ ◌-ℤ◌
test_policy = refl

permits :
    (Policy.evaluate (policy false) proposal portfolio (pos 1) state morning).decision ≡ approve
unfolding Policy.evaluate policy_reasons sizing quantity_reasons is_risky permitted_loss
    permitted_quantity min_ℤ is_invalid state_reasons counter_reasons is_invalid_state is_future
    session_reasons in_entry_window session_at session bounds ist_date Engine.evaluate
    engine_reasons exceeds sum_risk loss_of sized affordable per_unit_risk is_limit_reached
    base_risk is_drawn open_risk distance times floor_quot whole_lots diff ◌+ℤ◌ ◌-ℤ◌
permits = refl

evaluate-Permitted_example :
    Permitted
      (policy false)
      proposal
      portfolio
      (pos 1)
      state
      morning
      (Policy.evaluate (policy false) proposal portfolio (pos 1) state morning)
evaluate-Permitted_example =
    evaluate-Permitted (policy false) proposal portfolio (pos 1) state morning (omega arith)
      (omega arith) permits

evaluate-fails_closed_example :
    ((Policy.evaluate (policy true) proposal portfolio (pos 1) state morning).decision ≡ reject)
    × ((Policy.evaluate (policy true) proposal portfolio (pos 1) state morning).quantity ≡ pos 0)
evaluate-fails_closed_example =
    evaluate-fails_closed (policy true) proposal portfolio (pos 1) state morning (omega arith)
      (omega arith) (emergency refl)
