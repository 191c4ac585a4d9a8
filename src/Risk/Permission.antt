-- ===== src/Risk/Permission.antt =====
-- What an approval of `DeterministicRiskPolicy.evaluate` of src/kiwit/risk_policy.py means.
use kiwi_t.Prelude.{
  ℕ, ◌*◌, ◌<◌, ◌≡◌, refl, true, false, not, ◌&&◌, Option, none, some, List, [], ◌∷◌, ◌++◌, arith,
  Bool-cases, inl, inr, is_fresh, str_eq, eq_iff,
}
use kiwi_t.Prelude.Int.{ℤ, pos, ◌≤ℤ◌, leb_ℤ, ltb_ℤ}
use kiwi_t.Prelude.Scaling.{times, whole_lots-LotsOf}
use kiwi_t.Calendar.{Session, session_at, ist_date, seconds}
use kiwi_t.Simulator.Methods.{approve, TradeProposal}
use kiwi_t.Risk.Types.{
  RiskConfig, PortfolioSnapshot, RiskReason, note, decided, outside_entry_window,
  stale_or_future_risk_state, risk_state_day_mismatch, maximum_daily_trades,
  consecutive_loss_cooldown, future_loss_state, no_permitted_quantity, maximum_trade_risk,
}
use kiwi_t.Risk.Engine.{Assessment, per_unit_risk, loss_of}
use kiwi_t.Risk.Engine
use kiwi_t.Risk.Approval.{decided-none, unnoted, Approved, evaluate-Approved}
use kiwi_t.Risk.Policy.{
  DeterministicRiskPolicy, RiskState, PolicyResult, HardLimits, in_entry_window, session_reasons,
  is_cooling, is_future, is_invalid_state, counter_reasons, state_reasons, is_invalid, min_ℤ,
  permitted_quantity, permitted_loss, is_risky, quantity_reasons, sizing, policy_reasons, evaluate,
}

append-none : (xs ys : List RiskReason) → xs ++ ys ≡ [] → (xs ≡ []) × (ys ≡ [])
append-none [] ys h = (refl, h)
append-none (x ∷ xs) ys h = cc

nonempty : (r : RiskReason) (rs : List RiskReason) → r ∷ rs ≡ [] → ⊥
nonempty r rs h = cc

-- The counters of the state, its age and its day, where the policy approves.
pub record StateClear (y : DeterministicRiskPolicy) (now : ℕ) (s : RiskState) : Type 0 where
  pub fresh : is_fresh now s.as_of (seconds y.limits.maximum_state_age_seconds) ≡ true
  pub same_day : s.trading_day ≡ y.isoformat (ist_date now)
  pub valid : is_invalid_state s ≡ false
  pub trades_left : ltb_ℤ s.trades_today (pos y.limits.maximum_trades_per_day) ≡ true
  pub cooled :
      leb_ℤ (pos y.limits.loss_streak_limit) s.consecutive_losses
        && is_cooling y.limits now s.last_loss_at
      ≡ false
  pub past_loss : is_future now s.last_loss_at ≡ false

-- The quantity of an approval: whole lots, within both limits, its loss within the risk of a trade.
pub record QuantityClear (y : DeterministicRiskPolicy) (o : TradeProposal) (p : PortfolioSnapshot)
    (cost : ℤ) (a : Assessment) (quantity loss : ℤ) : Type 0 where
  pub lots : ℕ
  pub whole : quantity ≡ pos (o.instrument.lot_size * lots)
  pub some_lot : 0 < lots
  pub at_most_engine : quantity ≤ℤ a.quantity
  pub at_most_limit : quantity ≤ℤ pos y.limits.maximum_quantity
  pub planned_loss : loss ≡ loss_of (per_unit_risk o cost) quantity
  pub trade_risk : times y.risk.scale loss ≤ℤ times y.risk.maximum_risk_per_trade p.equity

-- What the policy has found when it approves.
pub record Permitted (y : DeterministicRiskPolicy) (o : TradeProposal) (p : PortfolioSnapshot)
    (cost : ℤ) (s : RiskState) (now : ℕ) (r : PolicyResult) : Type 0 where
  pub enabled : y.limits.emergency_disabled ≡ false
  pub session : Session
  pub today : session_at y.calendar now ≡ some session
  pub in_window : in_entry_window y.limits now session ≡ true
  pub state_clear : StateClear y now s
  pub valid : is_invalid y o p cost now ≡ false
  pub engine_decision : (Engine.evaluate y.risk o p cost).decision ≡ approve
  pub engine : Approved y.risk o p cost (Engine.evaluate y.risk o p cost)
  pub quantity_clear :
      QuantityClear y o p cost (Engine.evaluate y.risk o p cost) r.quantity r.estimated_loss

session_reasons-none :
    (l : HardLimits) (now : ℕ) (o : Option Session)
    → session_reasons l now o ≡ []
    → (s : Session) × (o ≡ some s) × (in_entry_window l now s ≡ true)
unfolding session_reasons
session_reasons-none l now none h = cc
session_reasons-none l now (some s) h =
    (s, refl, ground (arith, (unnoted (not (in_entry_window l now s)) outside_entry_window [] h).0))

state_reasons-StateClear :
    (y : DeterministicRiskPolicy) (now : ℕ) (s : RiskState)
    → state_reasons y now s ≡ []
    → StateClear y now s
unfolding state_reasons counter_reasons
state_reasons-StateClear y now s h =
    let (a1, h1) =
      unnoted (not (is_fresh now s.as_of (seconds y.limits.maximum_state_age_seconds)))
        stale_or_future_risk_state _ h in
    let (a2, h2) =
      unnoted (not (str_eq s.trading_day (y.isoformat (ist_date now)))) risk_state_day_mismatch
        (counter_reasons y.limits now s) h1 in
    elim (Bool-cases (is_invalid_state s)) [
      | inl invalid ↦ cc (rw invalid at h2)
      | inr valid ↦
          let h3 = rw valid at h2 in
          let (a3, h4) =
            unnoted (leb_ℤ (pos y.limits.maximum_trades_per_day) s.trades_today)
              maximum_daily_trades _ h3 in
          let (a4, h5) =
            unnoted
              (leb_ℤ (pos y.limits.loss_streak_limit) s.consecutive_losses
                && is_cooling y.limits now s.last_loss_at)
              consecutive_loss_cooldown _ h4 in
          let (a5, h6) = unnoted (is_future now s.last_loss_at) future_loss_state [] h5 in
          record {
            fresh = ground (arith, a1);
            same_day = (eq_iff _ _).0 (ground (arith, a2));
            valid = valid;
            trades_left = ground (arith, a3);
            cooled = a4;
            past_loss = a5;
          }
    ]

min_ℤ-bounds : (a b : ℤ) → (min_ℤ a b ≤ℤ a) × (min_ℤ a b ≤ℤ b)
unfolding min_ℤ
min_ℤ-bounds a b = (ground arith, ground arith)

quantity_reasons-none :
    (y : DeterministicRiskPolicy) (o : TradeProposal) (p : PortfolioSnapshot) (cost : ℤ)
    (a : Assessment)
    → 0 < o.instrument.lot_size
    → quantity_reasons y o p cost a ≡ []
    → (a.reason_codes ≡ [])
      × QuantityClear y o p cost a (permitted_quantity y o a) (permitted_loss y o cost a)
unfolding quantity_reasons permitted_quantity permitted_loss is_risky
quantity_reasons-none y o p cost a l h =
    let (clear, h1) = append-none a.reason_codes _ h in
    let (one, h2) =
      unnoted (leb_ℤ (permitted_quantity y o a) (pos 0)) no_permitted_quantity
        (note (is_risky y o p cost a) maximum_trade_risk []) h1 in
    let (risk, h3) = unnoted (is_risky y o p cost a) maximum_trade_risk [] h2 in
    let least = min_ℤ a.quantity (pos y.limits.maximum_quantity) in
    let lots = whole_lots-LotsOf least o.instrument.lot_size l (ground (arith, one)) in
    let bounds = min_ℤ-bounds a.quantity (pos y.limits.maximum_quantity) in
    (
      clear,
      record {
        lots = lots.lots;
        whole = lots.whole;
        some_lot = lots.some_lot;
        at_most_engine = rw lots.whole (omega (arith, lots.below, bounds.0));
        at_most_limit = rw lots.whole (omega (arith, lots.below, bounds.1));
        planned_loss = refl;
        trade_risk = ground (arith, risk);
      },
    )

sizing-Clear :
    (y : DeterministicRiskPolicy) (o : TradeProposal) (p : PortfolioSnapshot) (cost : ℤ) (now : ℕ)
    → 0 < o.instrument.lot_size
    → (sizing y o p cost now).reasons ≡ []
    → (is_invalid y o p cost now ≡ false)
      × ((Engine.evaluate y.risk o p cost).reason_codes ≡ [])
      × QuantityClear y o p cost
          (Engine.evaluate y.risk o p cost)
          (sizing y o p cost now).quantity
          (sizing y o p cost now).loss
unfolding sizing
sizing-Clear y o p cost now l h = elim (Bool-cases (is_invalid y o p cost now)) [
  | inl invalid ↦ absurd (nonempty _ _ (rw invalid at h))
  | inr valid ↦
      let (engine, quantity) =
        quantity_reasons-none y o p cost (Engine.evaluate y.risk o p cost) l (rw valid at h) in
      rw valid (refl, engine, quantity)
]

cleared : (rs : List RiskReason) → rs ≡ [] → decided rs ≡ approve
cleared rs h = rw h refl

engine_approves :
    (c : RiskConfig) (o : TradeProposal) (p : PortfolioSnapshot) (cost : ℤ)
    → (Engine.evaluate c o p cost).reason_codes ≡ []
    → (Engine.evaluate c o p cost).decision ≡ approve
unfolding Engine.evaluate
engine_approves c o p cost h = cleared _ h

-- When the policy approves, the emergency switch is off; the calendar has a session, which is open
-- and not near its close; the state is fresh, of this day, and within the limits on trades and on
-- losses in a row; the proposal and the portfolio are valid; the engine approves too, and finds what
-- an approval of the engine means; and the quantity is some whole lots, no more than the engine
-- allows and than the hard limit, with a loss at the stop within the maximum risk of a trade.
pub evaluate-Permitted :
    (y : DeterministicRiskPolicy) (o : TradeProposal) (p : PortfolioSnapshot) (cost : ℤ)
    (s : RiskState) (now : ℕ)
    → 0 < y.risk.scale
    → 0 < o.instrument.lot_size
    → (evaluate y o p cost s now).decision ≡ approve
    → Permitted y o p cost s now (evaluate y o p cost s now)
unfolding evaluate policy_reasons
evaluate-Permitted y o p cost s now sc l h =
    let rest = (sizing y o p cost now).reasons in
    let none_left = decided-none (policy_reasons y s now rest) h in
    let (on, h1) =
      unnoted _ _
        (session_reasons y.limits now (session_at y.calendar now)
          ++ (state_reasons y now s ++ rest))
        none_left in
    let (opened, h2) = append-none _ _ h1 in
    let (state, h3) = append-none _ _ h2 in
    let (day, there, window) =
      session_reasons-none y.limits now (session_at y.calendar now) opened in
    let (valid, engine, quantity) = sizing-Clear y o p cost now l h3 in
    rw none_left (record {
      enabled = on;
      session = day;
      today = there;
      in_window = window;
      state_clear = state_reasons-StateClear y now s state;
      valid = valid;
      engine_decision = engine_approves y.risk o p cost engine;
      engine = evaluate-Approved y.risk o p cost sc l (engine_approves y.risk o p cost engine);
      quantity_clear = quantity;
    })
