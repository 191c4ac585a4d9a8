-- ===== src/Risk/Policy.antt =====
-- `DeterministicRiskPolicy.evaluate` of src/kiwit/risk_policy.py.
--
-- Values have the types that the source checks for: decimals are finite, times have a zone. What the
-- source appends to the audit log is its result; that call is left to the caller.
use kiwi_t.Prelude.{
  ℕ, ◌+◌, String, Bool, true, false, not, ◌&&◌, ◌||◌, ltb, leb, ◌==◌, Option, none, some, List, [],
  ◌∷◌, ◌++◌, if◌then◌else◌, any, is_nonempty, is_fresh, str_eq,
}
use kiwi_t.Prelude.Int.{ℤ, pos, leb_ℤ, ltb_ℤ}
use kiwi_t.Prelude.Scaling.{times, whole_lots}
use kiwi_t.Calendar.{TradingCalendar, Session, session_at, bounds, ist_date, seconds}
use kiwi_t.Simulator.Methods.{Decision, TradeProposal}
use kiwi_t.Risk.Types.{
  RiskConfig, PortfolioSnapshot, Position, RiskReason, note, decided, emergency_disabled,
  unknown_or_closed_session, outside_entry_window, stale_or_future_risk_state,
  risk_state_day_mismatch, maximum_daily_trades, consecutive_loss_cooldown, future_loss_state,
  invalid_risk_state, no_permitted_quantity, maximum_trade_risk, invalid_proposal_or_portfolio,
}
use kiwi_t.Risk.Engine.{Assessment, per_unit_risk, loss_of}
use kiwi_t.Risk.Engine

pub record HardLimits : Type 0 where
  pub maximum_quantity : ℕ
  pub maximum_trades_per_day : ℕ
  pub loss_streak_limit : ℕ
  pub loss_cooldown_seconds : ℕ
  pub no_entry_before_close_seconds : ℕ
  pub maximum_state_age_seconds : ℕ
  pub emergency_disabled : Bool

pub record RiskState : Type 0 where
  pub as_of : ℕ
  pub trading_day : String
  pub trades_today : ℤ
  pub consecutive_losses : ℤ
  pub last_loss_at : Option ℕ

-- The policy, with `isoformat` of a date.
pub record DeterministicRiskPolicy : Type 0 where
  pub risk : RiskConfig
  pub limits : HardLimits
  pub calendar : TradingCalendar
  pub isoformat : ℕ → String

pub record PolicyResult : Type 0 where
  pub decision : Decision
  pub quantity : ℤ
  pub risk_budget : ℤ
  pub estimated_loss : ℤ
  -- in the order in which they are found; the source sorts them and drops repetitions
  pub reason_codes : List RiskReason

-- `opened <= now < closed - timedelta(seconds=...)`
unfoldable pub in_entry_window : HardLimits → ℕ → Session → Bool
in_entry_window l now s =
    leb (bounds s).0 now && ltb (now + seconds l.no_entry_before_close_seconds) (bounds s).1

unfoldable pub session_reasons : HardLimits → ℕ → Option Session → List RiskReason
session_reasons l now none = unknown_or_closed_session ∷ []
session_reasons l now (some s) = note (not (in_entry_window l now s)) outside_entry_window []

unfoldable pub is_cooling : HardLimits → ℕ → Option ℕ → Bool
is_cooling l now none = true
is_cooling l now (some last) = ltb now (last + seconds l.loss_cooldown_seconds)

unfoldable pub is_future : ℕ → Option ℕ → Bool
is_future now none = false
is_future now (some last) = ltb now last

-- the counters are negative
unfoldable pub is_invalid_state : RiskState → Bool
is_invalid_state s = ltb_ℤ s.trades_today (pos 0) || ltb_ℤ s.consecutive_losses (pos 0)

-- the reasons of the first `try` block from the test of the counters on
unfoldable pub counter_reasons : HardLimits → ℕ → RiskState → List RiskReason
counter_reasons l now s =
    if is_invalid_state s
    then invalid_risk_state ∷ []
    else note (leb_ℤ (pos l.maximum_trades_per_day) s.trades_today) maximum_daily_trades (
        note
          (leb_ℤ (pos l.loss_streak_limit) s.consecutive_losses && is_cooling l now s.last_loss_at)
          consecutive_loss_cooldown (note (is_future now s.last_loss_at) future_loss_state []))

-- the reasons of the first `try` block
unfoldable pub state_reasons : DeterministicRiskPolicy → ℕ → RiskState → List RiskReason
state_reasons y now s =
    note (not (is_fresh now s.as_of (seconds y.limits.maximum_state_age_seconds)))
      stale_or_future_risk_state
      (note (not (str_eq s.trading_day (y.isoformat (ist_date now)))) risk_state_day_mismatch
        (counter_reasons y.limits now s))

-- the tests that raise in the second `try` block
unfoldable pub is_invalid :
    DeterministicRiskPolicy → TradeProposal → PortfolioSnapshot → ℤ → ℕ → Bool
is_invalid y o p cost now =
    leb_ℤ p.high_watermark (pos 0)
    || (ltb_ℤ p.correlated_open_risk (pos 0)
        || (ltb_ℤ cost (pos 0)
            || (not (is_fresh now o.signal_timestamp (seconds y.limits.maximum_state_age_seconds))
                || any (λ (x : Position). x.quantity == 0) p.positions)))

unfoldable pub min_ℤ : ℤ → ℤ → ℤ
min_ℤ a b = if leb_ℤ a b then a else b

-- `quantity` behind the engine
unfoldable pub permitted_quantity : DeterministicRiskPolicy → TradeProposal → Assessment → ℤ
permitted_quantity y o a =
    whole_lots (min_ℤ a.quantity (pos y.limits.maximum_quantity)) o.instrument.lot_size

-- `loss` behind the engine
unfoldable pub permitted_loss : DeterministicRiskPolicy → TradeProposal → ℤ → Assessment → ℤ
permitted_loss y o cost a = loss_of (per_unit_risk o cost) (permitted_quantity y o a)

-- `loss > portfolio.equity * self.risk.maximum_risk_per_trade`
unfoldable pub is_risky :
    DeterministicRiskPolicy → TradeProposal → PortfolioSnapshot → ℤ → Assessment → Bool
is_risky y o p cost a =
    ltb_ℤ (times y.risk.maximum_risk_per_trade p.equity)
      (times y.risk.scale (permitted_loss y o cost a))

-- the reasons of the second `try` block, where it does not raise
unfoldable pub quantity_reasons :
    DeterministicRiskPolicy → TradeProposal → PortfolioSnapshot → ℤ → Assessment → List RiskReason
quantity_reasons y o p cost a =
    a.reason_codes
    ++ note (leb_ℤ (permitted_quantity y o a) (pos 0)) no_permitted_quantity
        (note (is_risky y o p cost a) maximum_trade_risk [])

-- what the second `try` block adds
pub record Sizing : Type 0 where
  pub quantity : ℤ
  pub budget : ℤ
  pub loss : ℤ
  pub reasons : List RiskReason

unfoldable pub sizing : DeterministicRiskPolicy → TradeProposal → PortfolioSnapshot → ℤ → ℕ → Sizing
sizing y o p cost now =
    let a = Engine.evaluate y.risk o p cost in
    if is_invalid y o p cost now
    then record {
      quantity = pos 0;
      budget = pos 0;
      loss = pos 0;
      reasons = invalid_proposal_or_portfolio ∷ [];
    }
    else record {
      quantity = permitted_quantity y o a;
      budget = a.risk_budget;
      loss = permitted_loss y o cost a;
      reasons = quantity_reasons y o p cost a;
    }

-- `reasons` at the end
unfoldable pub policy_reasons :
    DeterministicRiskPolicy → RiskState → ℕ → List RiskReason → List RiskReason
policy_reasons y s now rest =
    note y.limits.emergency_disabled emergency_disabled
      (session_reasons y.limits now (session_at y.calendar now) ++ (state_reasons y now s ++ rest))

-- `DeterministicRiskPolicy.evaluate`
unfoldable pub evaluate :
    DeterministicRiskPolicy → TradeProposal → PortfolioSnapshot → ℤ → RiskState → ℕ → PolicyResult
evaluate y o p cost s now =
    let z = sizing y o p cost now in
    let reasons = policy_reasons y s now z.reasons in
    record {
      decision = decided reasons;
      quantity = if is_nonempty reasons then pos 0 else z.quantity;
      risk_budget = z.budget;
      estimated_loss = z.loss;
      reason_codes = reasons;
    }
