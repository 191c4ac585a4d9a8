-- ===== src/Ledger/Pricing.antt =====
-- `PaperCostModel` and the amounts of a trade, of src/kiwit/paper_trading.py. The quotient of decimals and
-- the rounding to the eight places of a column are a parameter.
use kiwi_t.Prelude.{ℕ, ◌+◌, ◌-◌, ◌*◌, ◌==◌, ltb, if◌then◌else◌, Outcome, ok, ◌>>◌, raise_if}
use kiwi_t.Prelude.Int.{ℤ, pos, ◌+ℤ◌, ◌-ℤ◌, ltb_ℤ}
use kiwi_t.Prelude.Scaling.{times}
use kiwi_t.Simulator.Types.{Quote}
use kiwi_t.Simulator.Methods.{Side, buy, sell}
use kiwi_t.Ledger.Tables.{PositionRow}
use kiwi_t.Ledger.Review.{LedgerFailure, insufficient_cash, long_position_exceeded}

-- the arithmetic that is not exact: a quotient to 28 digits, and the value that a column stores
pub record Decimals : Type 0 where
  pub divide : ℤ → ℕ → ℤ
  pub numeric : ℤ → ℤ

-- basis points, none of them negative
pub record PaperCostModel : Type 0 where
  pub slippage_bps : ℕ
  pub brokerage_bps : ℕ
  pub taxes_bps : ℕ

-- price, turnover and charges of a trade
pub record Trade : Type 0 where
  pub price : ℤ
  pub turnover : ℤ
  pub fees : ℤ
  pub taxes : ℤ

-- what a trade changes
pub record Change : Type 0 where
  pub cash_change : ℤ
  pub quantity : ℕ
  pub average : ℤ
  pub realized_delta : ℤ

module _ (d : Decimals) where
  -- `PaperCostModel.fill_price`
  unfoldable pub cost_price : PaperCostModel → Quote → Side → ℤ
  cost_price m quote buy = d.divide (pos (quote.ask * (10000 + m.slippage_bps))) 10000
  cost_price m quote sell = d.divide (pos (quote.bid * 10000)) (10000 + m.slippage_bps)

  -- the prices and charges of `execute`, with `PaperCostModel.charges`
  unfoldable pub trade_of : PaperCostModel → Quote → Side → ℕ → Trade
  trade_of m quote side quantity =
      let price = cost_price m quote side in
      let turnover = times quantity price in
      record {
        price = price;
        turnover = turnover;
        fees = d.divide (times m.brokerage_bps turnover) 10000;
        taxes = d.divide (times m.taxes_bps turnover) 10000;
      }

  -- the two branches on the side
  unfoldable pub change_of : Side → ℤ → PositionRow → Trade → ℕ → Outcome LedgerFailure Change
  change_of buy cash p t quantity =
      let cash_change = pos 0 -ℤ (t.turnover +ℤ (t.fees +ℤ t.taxes)) in
      raise_if (ltb_ℤ (cash +ℤ cash_change) (pos 0)) insufficient_cash
      >> ok (record {
        cash_change = cash_change;
        quantity = p.quantity + quantity;
        average = d.divide (times p.quantity p.average_price +ℤ t.turnover) (p.quantity + quantity);
        realized_delta = pos 0;
      })
  change_of sell cash p t quantity =
      raise_if (ltb p.quantity quantity) long_position_exceeded
      >> ok (record {
        cash_change = t.turnover -ℤ (t.fees +ℤ t.taxes);
        quantity = p.quantity - quantity;
        average = if p.quantity - quantity == 0 then pos 0 else p.average_price;
        realized_delta = times quantity (t.price -ℤ p.average_price) -ℤ (t.fees +ℤ t.taxes);
      })
