-- ===== src/Ledger/Amounts.antt =====
-- What the amounts of a trade of src/kiwit/paper_trading.py are: its price, cash, charges and gain.
use kiwi_t.Prelude.{
  ℕ, ◌+◌, ◌*◌, ◌≡◌, refl, sym, subst, ltb, ok, raise_if, raise_if_ok, arith, Returning,
  Returning-then,
}
use kiwi_t.Prelude.Int.{ℤ, pos, ◌+ℤ◌, ◌-ℤ◌, ltb_ℤ, ◌≤ℤ◌}
use kiwi_t.Prelude.Scaling.{times}
use kiwi_t.Simulator.Types.{Quote}
use kiwi_t.Simulator.Methods.{Side, buy, sell}
use kiwi_t.Ledger.Tables.{PositionRow}
use kiwi_t.Ledger.Review.{insufficient_cash, long_position_exceeded, check_violated}
use kiwi_t.Ledger.Pricing.{Decimals, PaperCostModel, Change, cost_price, trade_of, change_of}
use kiwi_t.Ledger.Trade.{new_balance}

-- the price of the fill: the ask and the slippage, or the bid less the slippage
abbrev pub executed_price : Decimals → PaperCostModel → Quote → Side → ℤ
executed_price d m quote buy = d.divide (pos (quote.ask * (10000 + m.slippage_bps))) 10000
executed_price d m quote sell = d.divide (pos (quote.bid * 10000)) (10000 + m.slippage_bps)

-- the brokerage and the taxes on a turnover
abbrev pub charges_on : Decimals → PaperCostModel → ℤ → ℤ
charges_on d m turnover =
    d.divide (times m.brokerage_bps turnover) 10000 +ℤ d.divide (times m.taxes_bps turnover) 10000

-- the cash of a trade: a purchase pays its turnover and the charges, a sale earns the one less the other
abbrev pub cash_flow : Decimals → PaperCostModel → Side → ℕ → ℤ → ℤ
cash_flow d m buy n price = pos 0 -ℤ (times n price +ℤ charges_on d m (times n price))
cash_flow d m sell n price = times n price -ℤ charges_on d m (times n price)

-- what a trade realizes against the average price of the position
abbrev pub gain : Decimals → PaperCostModel → Side → ℕ → ℤ → ℤ → ℤ
gain d m buy n price average = pos 0
gain d m sell n price average = times n (price -ℤ average) -ℤ charges_on d m (times n price)

-- What a trade on either side does to the quantity held, and what it needs.
abbrev pub IsMoved : Side → ℕ → ℕ → ℤ → ℤ → ℕ → Type 0
IsMoved buy before after cash flow n = (after ≡ before + n) × (pos 0 ≤ℤ cash +ℤ flow)
IsMoved sell before after cash flow n = before ≡ after + n

-- The changes of a trade at a price.
pub record IsTraded (d : Decimals) (m : PaperCostModel) (side : Side) (cash : ℤ) (p : PositionRow)
    (price : ℤ) (n : ℕ) (c : Change) : Type 0 where
  pub moved : IsMoved side p.quantity c.quantity cash (cash_flow d m side n price) n
  pub flow : c.cash_change ≡ cash_flow d m side n price
  pub gained : c.realized_delta ≡ gain d m side n price p.average_price

-- The price of the cost model.
pub cost_price_lem :
    (d : Decimals) (m : PaperCostModel) (quote : Quote) (side : Side)
    → cost_price d m quote side ≡ executed_price d m quote side
unfolding cost_price
cost_price_lem d m quote buy = refl
cost_price_lem d m quote sell = refl

-- Each branch on the side makes the changes of a trade.
pub change_of-IsTraded :
    (d : Decimals) (m : PaperCostModel) (quote : Quote) (side : Side) (cash : ℤ) (p : PositionRow)
    (n : ℕ)
    → Returning
        (IsTraded d m side cash p (trade_of d m quote side n).price n)
        (change_of d side cash p (trade_of d m quote side n) n)
unfolding change_of trade_of
change_of-IsTraded d m quote buy cash p n =
    let price = cost_price d m quote buy in
    let spent = ltb_ℤ (cash +ℤ cash_flow d m buy n price) (pos 0) in
    Returning-then (IsTraded d m buy cash p price n) (raise_if spent insufficient_cash) _ (λ paid.
      record {
        moved = (refl, ground (arith, raise_if_ok spent insufficient_cash paid));
        flow = refl;
        gained = refl;
      })
change_of-IsTraded d m quote sell cash p n =
    let price = cost_price d m quote sell in
    Returning-then (IsTraded d m sell cash p price n)
      (raise_if (ltb p.quantity n) long_position_exceeded) _
      (λ enough. record {
        moved = ground (arith, raise_if_ok (ltb p.quantity n) long_position_exceeded enough);
        flow = refl;
        gained = refl;
      })

pub replace_quantity :
    (side : Side) (before x y : ℕ) (cash flow : ℤ) (n : ℕ)
    → y ≡ x
    → IsMoved side before x cash flow n
    → IsMoved side before y cash flow n
replace_quantity side before x y cash flow n e h =
    subst (λ z. IsMoved side before z cash flow n) (sym e) h

pub new_balance_kept :
    (d : Decimals) (cash change : ℤ)
    → Returning (λ b. (b ≡ d.numeric (cash +ℤ change)) × (pos 0 ≤ℤ b)) (new_balance d cash change)
unfolding new_balance
new_balance_kept d cash change =
    let b = d.numeric (cash +ℤ change) in
    Returning-then (λ x. (x ≡ b) × (pos 0 ≤ℤ x)) (raise_if (ltb_ℤ b (pos 0)) check_violated) (ok b)
      (λ kept. (refl, ground (arith, raise_if_ok (ltb_ℤ b (pos 0)) check_violated kept)))
