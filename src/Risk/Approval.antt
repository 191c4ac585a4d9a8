-- ===== src/Risk/Approval.antt =====
-- What an approval of `RiskEngine.evaluate` of src/kiwit/risk.py means.
use kiwi_t.Prelude.{
  ℕ, ◌+◌, ◌*◌, ◌≤◌, ◌<◌, ◌≡◌, refl, Bool, true, false, not, ◌&&◌, List, [], ◌∷◌, arith,
  if◌then◌else◌, leb, length,
}
use kiwi_t.Prelude.Int.{ℤ, pos, negsuc, pos_part, ◌+ℤ◌, ◌≤ℤ◌, leb_ℤ, ltb_ℤ}
use kiwi_t.Prelude.Scaling.{
  times, floor_quot, whole_lots-LotsOf, floor_quot_above, floor_quot_below, times_pos,
  times_at_most,
}
use native.Mathlib.Nat.{mul-le-mul_left, mul-le-mul_right}
use kiwi_t.Simulator.Methods.{approve, TradeProposal}
use kiwi_t.Risk.Types.{RiskConfig, PortfolioSnapshot, RiskReason, note, decided}
use kiwi_t.Risk.Engine.{
  Assessment, is_drawn, parts, base_risk, is_limit_reached, per_unit_risk, is_flat, affordable,
  sized, loss_of, sum_risk, exceeds, engine_reasons, evaluate,
}

pub decided-none : (rs : List RiskReason) → decided rs ≡ approve → rs ≡ []
decided-none [] h = refl
decided-none (r ∷ rs) h = cc

-- A reason that is not there was not noted.
pub unnoted :
    (b : Bool) (r : RiskReason) (rs : List RiskReason) → note b r rs ≡ [] → (b ≡ false) × (rs ≡ [])
unnoted true r rs h = cc
unnoted false r rs h = (refl, h)

-- The quantity of an approval, in whole lots: its loss is within the budget, and one lot more is not.
pub record WithinBudget (c : RiskConfig) (base per_unit : ℤ) (lot : ℕ) (quantity loss : ℤ)
    : Type 0 where
  pub unit : ℕ
  pub unit_risk : per_unit ≡ pos unit
  pub some_risk : 0 < unit
  pub lots : ℕ
  pub whole : quantity ≡ pos (lot * lots)
  pub some_lot : 0 < lots
  pub planned_loss : loss ≡ pos (unit * (lot * lots))
  pub affordable_loss : parts c * unit * (lot * lots) ≤ pos_part base
  pub largest : pos_part base < parts c * unit * (lot * lots + lot)

-- What every check of the engine has found when it approves.
pub record Approved (c : RiskConfig) (o : TradeProposal) (p : PortfolioSnapshot) (cost : ℤ)
    (a : Assessment) : Type 0 where
  pub solvent : pos 1 ≤ℤ p.equity
  pub room : length p.positions < c.maximum_positions
  pub not_halted : is_drawn c p c.drawdown_halt ≡ false
  pub daily_loss :
      is_limit_reached c a.risk_budget c.daily_loss_limit_r p.realized_daily_pnl ≡ false
  pub weekly_loss :
      is_limit_reached c a.risk_budget c.weekly_loss_limit_r p.realized_weekly_pnl ≡ false
  pub budget : pos_part a.risk_budget ≤ 2 * c.risk_per_trade * pos_part p.equity
  pub position :
      WithinBudget c a.risk_budget
        (per_unit_risk o cost)
        o.instrument.lot_size
        a.quantity
        a.estimated_loss
  pub open_risk_bounded :
      times c.scale (pos (sum_risk p.positions) +ℤ a.estimated_loss)
      ≤ℤ times c.maximum_open_risk p.equity
  pub correlated_risk_bounded :
      times c.scale (p.correlated_open_risk +ℤ a.estimated_loss)
      ≤ℤ times c.maximum_correlated_risk p.equity

below_all : (a b : ℤ) → ltb_ℤ b a ≡ false → a ≤ℤ b
below_all a b h = ground arith

affordable-WithinBudget :
    (c : RiskConfig) (base : ℤ) (unit lot : ℕ)
    → 0 < lot
    → 0 < parts c * unit
    → 0 < unit
    → pos 1 ≤ℤ affordable c base unit lot
    → WithinBudget c base
        (pos unit)
        lot
        (affordable c base unit lot)
        (loss_of (pos unit) (affordable c base unit lot))
unfolding affordable loss_of
affordable-WithinBudget c base unit lot some_lot d u h =
    let raw = floor_quot base (parts c * unit) in
    let l = whole_lots-LotsOf raw lot some_lot h in
    record {
      unit = unit;
      unit_risk = refl;
      some_risk = u;
      lots = l.lots;
      whole = l.whole;
      some_lot = l.some_lot;
      planned_loss = rw l.whole (times_pos unit (lot * l.lots));
      affordable_loss = floor_quot_above base (parts c * unit) (lot * l.lots) d l.below;
      largest = floor_quot_below base (parts c * unit) (lot * l.lots + lot) d l.nearest;
    }

sized-WithinBudget :
    (c : RiskConfig) (base per_unit : ℤ) (lot : ℕ)
    → 0 < lot
    → 0 < c.scale
    → is_flat per_unit ≡ false
    → pos lot ≤ℤ sized c base per_unit lot
    → WithinBudget c base per_unit lot
        (sized c base per_unit lot)
        (loss_of per_unit (sized c base per_unit lot))
unfolding sized
sized-WithinBudget c base (pos n) lot l s f h =
    let some : leb n 0 ≡ false = ground arith in
    let u : 1 ≤ n = ground arith in
    let d : 0 < parts c * n = omega (arith, s, mul-le-mul_left {m = 1} {n = n} (parts c) u) in
    rw some (affordable-WithinBudget c base n lot l d u (omega (arith, l, (rw some at h))))
sized-WithinBudget c base (negsuc n) lot l s f h = absurd (omega (arith, l, h))

-- The checks of the engine, where it found no reason.
record AllClear (c : RiskConfig) (p : PortfolioSnapshot) (lot : ℕ) (base per_unit quantity : ℤ)
    : Type 0 where
  solvent : leb_ℤ p.equity (pos 0) ≡ false
  room : leb c.maximum_positions (length p.positions) ≡ false
  not_halted : is_drawn c p c.drawdown_halt ≡ false
  daily_loss : is_limit_reached c base c.daily_loss_limit_r p.realized_daily_pnl ≡ false
  weekly_loss : is_limit_reached c base c.weekly_loss_limit_r p.realized_weekly_pnl ≡ false
  some_risk : is_flat per_unit ≡ false
  one_lot : not (is_flat per_unit) && ltb_ℤ quantity (pos lot) ≡ false
  open_risk :
      exceeds c p.equity
        (pos (sum_risk p.positions))
        (loss_of per_unit quantity)
        c.maximum_open_risk
      ≡ false
  correlated_risk :
      exceeds c p.equity p.correlated_open_risk
        (loss_of per_unit quantity)
        c.maximum_correlated_risk
      ≡ false

all_clear :
    (c : RiskConfig) (p : PortfolioSnapshot) (lot : ℕ) (base per_unit quantity : ℤ)
    → engine_reasons c p lot base per_unit quantity ≡ []
    → AllClear c p lot base per_unit quantity
unfolding engine_reasons
all_clear c p lot base per_unit quantity h =
    let (a1, h1) = unnoted _ _ _ h in
    let (a2, h2) = unnoted _ _ _ h1 in
    let (a3, h3) = unnoted _ _ _ h2 in
    let (a4, h4) = unnoted _ _ _ h3 in
    let (a5, h5) = unnoted _ _ _ h4 in
    let (a6, h6) = unnoted _ _ _ h5 in
    let (a7, h7) = unnoted _ _ _ h6 in
    let (a8, h8) = unnoted _ _ _ h7 in
    let (a9, h9) = unnoted _ _ _ h8 in
    record {
      solvent = a1;
      room = a2;
      not_halted = a3;
      daily_loss = a4;
      weekly_loss = a5;
      some_risk = a6;
      one_lot = a7;
      open_risk = a8;
      correlated_risk = a9;
    }

unthrottled : (b : Bool) → (if b then 1 else 2) ≤ 2
unthrottled true = omega arith
unthrottled false = omega arith

-- A quantity that is not noted as too small is one lot at least.
enough_lots :
    (flat : Bool) (q : ℤ) (lot : ℕ)
    → flat ≡ false
    → not flat && ltb_ℤ q (pos lot) ≡ false
    → pos lot ≤ℤ q
enough_lots true q lot f h = cc
enough_lots false q lot f h = ground arith

within_limit :
    (c : RiskConfig) (equity risk loss : ℤ) (limit : ℕ)
    → exceeds c equity risk loss limit ≡ false
    → times c.scale (risk +ℤ loss) ≤ℤ times limit equity
unfolding exceeds
within_limit c equity risk loss limit h =
    below_all (times c.scale (risk +ℤ loss)) (times limit equity) h

base_risk-bound :
    (c : RiskConfig) (p : PortfolioSnapshot)
    → pos_part (base_risk c p) ≤ 2 * c.risk_per_trade * pos_part p.equity
unfolding base_risk
base_risk-bound c p =
    times_at_most _ (2 * c.risk_per_trade) p.equity
      (mul-le-mul_right c.risk_per_trade (unthrottled (is_drawn c p c.drawdown_throttle)))

-- When the engine approves, every check has passed, and the quantity is the greatest number of whole
-- lots of which the loss at the stop is within the risk budget; the budget is at most the risk per
-- trade, and the losses of the open positions and of this one together are within the maximum open risk.
pub evaluate-Approved :
    (c : RiskConfig) (o : TradeProposal) (p : PortfolioSnapshot) (cost : ℤ)
    → 0 < c.scale
    → 0 < o.instrument.lot_size
    → (evaluate c o p cost).decision ≡ approve
    → Approved c o p cost (evaluate c o p cost)
unfolding evaluate
evaluate-Approved c o p cost s l h =
    let none = decided-none _ h in
    let clear = all_clear c p _ _ _ _ none in
    rw none (record {
      solvent = ground (arith, clear.solvent);
      room = ground (arith, clear.room);
      not_halted = clear.not_halted;
      daily_loss = clear.daily_loss;
      weekly_loss = clear.weekly_loss;
      budget = base_risk-bound c p;
      position =
          sized-WithinBudget c _ _ _ l s clear.some_risk
            (enough_lots _ _ _ clear.some_risk clear.one_lot);
      open_risk_bounded = within_limit c _ _ _ _ clear.open_risk;
      correlated_risk_bounded = within_limit c _ _ _ _ clear.correlated_risk;
    })
