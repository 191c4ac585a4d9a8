-- ===== src/Ledger/Trade.antt =====
-- The statements of `execute` of src/kiwit/paper_trading.py. The identity and the time of a fill are
-- arguments.
use kiwi_t.Prelude.{
  ℕ, ◌+◌, String, Bool, true, not, ◌&&◌, ◌||◌, ◌==◌, Option, none, some, List, ◌∷◌, if◌then◌else◌,
  str_eq, any, Outcome, ok, ◌>>=◌, ◌>>◌, raise_if, or_raise,
}
use kiwi_t.Prelude.Int.{ℤ, pos, ◌+ℤ◌, ltb_ℤ}
use kiwi_t.Simulator.Types.{Quote, instrument_eq}
use kiwi_t.Simulator.Methods.{Side, TradeProposal, RiskDecision}
use kiwi_t.Ledger.Tables.{
  find, update, ProposalRow, submitted, AccountRow, HaltRow, PositionRow, OrderRow, DailyRow,
  Database, is_active, is_released, of_proposal, of_order, is_approving_review, is_approving_risk,
}
use kiwi_t.Ledger.Review.{
  LedgerFailure, approved_risk_required, quote_mismatch, halted_or_not_approved, missing_proposal,
  check_violated, unknown_account, of_promotion, set_status,
}
use kiwi_t.Ledger.Pricing.{Decimals, PaperCostModel, Trade, Change, trade_of, change_of}

-- `PaperFill`
pub record LedgerFill : Type 0 where
  pub fill_id : String
  pub proposal_id : String
  pub timestamp : ℕ
  pub side : Side
  pub quantity : ℕ
  pub price : ℤ

-- the fill of a row, as `fill_for` returns it
unfoldable pub fill_of : OrderRow → LedgerFill
fill_of o = record {
  fill_id = o.fill_id;
  proposal_id = o.proposal_id;
  timestamp = o.filled_at;
  side = o.side;
  quantity = o.quantity;
  price = o.price;
}

abbrev pub fill_of_row : Option OrderRow → Option LedgerFill
fill_of_row none = none
fill_of_row (some o) = some (fill_of o)

-- `fill_for`
unfoldable pub paper_fill_for : String → Database → Option LedgerFill
paper_fill_for id db = fill_of_row (find (of_order id) db.orders)

-- `blocked`
unfoldable pub is_blocked : String → Database → Bool
is_blocked account_id db =
    any (λ (h : HaltRow). h.active && (str_eq h.scope "global" || str_eq h.scope account_id))
      db.halts

-- the proposal of the join, with its promotion
abbrev pub is_cleared : Database → String → ProposalRow → Bool
is_cleared db id p =
    of_proposal id p
    && (is_released p.status && any (of_promotion p.strategy_id p.strategy_version) db.promotions)

-- `approved`
unfoldable pub is_authorized : String → ℕ → Database → Bool
is_authorized id quantity db =
    any (is_cleared db id) db.proposals
    && (any (is_approving_review id) db.reviews && any (is_approving_risk id quantity) db.risks)

-- `not account or account[1] != 'active'`
unfoldable pub is_inactive : Option AccountRow → Bool
is_inactive none = true
is_inactive (some a) = not (is_active a.status)

abbrev pub of_account : String → AccountRow → Bool
of_account id a = str_eq a.account_id id

abbrev pub of_position : String → String → PositionRow → Bool
of_position account_id instrument_id p =
    str_eq p.account_id account_id && str_eq p.instrument_id instrument_id

-- `position or (0, 0, 0)`
abbrev pub position_or : String → String → Option PositionRow → PositionRow
position_or account_id instrument_id none = record {
  account_id = account_id;
  instrument_id = instrument_id;
  quantity = 0;
  average_price = pos 0;
  realized_pnl = pos 0;
}
position_or account_id instrument_id (some p) = p

unfoldable pub held : String → String → Database → PositionRow
held account_id instrument_id db =
    position_or account_id instrument_id (find (of_position account_id instrument_id) db.positions)

module _ (d : Decimals) where
  -- `INSERT INTO paper_positions ... ON CONFLICT ... DO UPDATE`
  unfoldable pub put_position :
      String → String → PositionRow → Change → List PositionRow → List PositionRow
  put_position account_id instrument_id p c rows =
      let same = of_position account_id instrument_id in
      if any same rows
      then update same
          (λ x. record x {
            quantity = c.quantity;
            average_price = d.numeric c.average;
            realized_pnl = d.numeric (x.realized_pnl +ℤ c.realized_delta);
          })
          rows
      else (record {
        account_id = account_id;
        instrument_id = instrument_id;
        quantity = c.quantity;
        average_price = d.numeric c.average;
        realized_pnl = d.numeric (p.realized_pnl +ℤ c.realized_delta);
      })
        ∷ rows

  -- `INSERT INTO paper_daily_ledger ... ON CONFLICT ... DO UPDATE`
  unfoldable pub put_daily : String → ℕ → ℤ → Trade → List DailyRow → List DailyRow
  put_daily account_id date cash t rows =
      let same : DailyRow → Bool = λ x. str_eq x.account_id account_id && x.trading_date == date in
      if any same rows
      then update same
          (λ x. record x {
            fees = d.numeric (x.fees +ℤ d.numeric (t.fees +ℤ t.taxes));
            turnover = d.numeric (x.turnover +ℤ d.numeric t.turnover);
            trade_count = x.trade_count + 1;
          })
          rows
      else (record {
        account_id = account_id;
        trading_date = date;
        starting_equity = d.numeric cash;
        fees = d.numeric (t.fees +ℤ t.taxes);
        turnover = d.numeric t.turnover;
        trade_count = 1;
      })
        ∷ rows

  -- the rows of `broker_orders` and `fills`
  unfoldable pub order_row : String → TradeProposal → ℕ → Trade → String → ℕ → OrderRow
  order_row account_id o quantity t fill_id now = record {
    proposal_id = o.proposal_id;
    account_id = account_id;
    fill_id = fill_id;
    filled_at = now;
    side = o.side;
    quantity = quantity;
    price = d.numeric t.price;
    fees = d.numeric t.fees;
    taxes = d.numeric t.taxes;
  }

  -- the balance after a change; the check of the column refuses a negative one
  unfoldable pub new_balance : ℤ → ℤ → Outcome LedgerFailure ℤ
  new_balance cash change =
      let after = d.numeric (cash +ℤ change) in
      raise_if (ltb_ℤ after (pos 0)) check_violated >> ok after

  -- the statements that write
  unfoldable pub settle :
      String
      → String
      → AccountRow
      → PositionRow
      → OrderRow
      → Trade
      → Change
      → ℤ
      → ℕ
      → Database
      → Database
  settle account_id instrument_id a p o t c balance date db = record db {
    orders = o ∷ db.orders;
    positions = put_position account_id instrument_id p c db.positions;
    accounts =
        update (of_account account_id)
          (λ x. record x {
            cash_balance = balance;
            realized_pnl = d.numeric (x.realized_pnl +ℤ c.realized_delta);
          })
          db.accounts;
    proposals = set_status (λ _. true) o.proposal_id submitted db.proposals;
    daily = put_daily account_id date a.cash_balance t db.daily;
  }

  -- `execute` for an account that was read, a proposal that is not filled yet
  unfoldable pub fill_order :
      PaperCostModel
      → String
      → TradeProposal
      → RiskDecision
      → Quote
      → String
      → ℕ
      → ℕ
      → Database
      → Outcome LedgerFailure (LedgerFill × Database)
  fill_order m account_id o r quote fill_id now date db = do
    raise_if
        (is_blocked account_id db
          || (is_inactive (find (of_account account_id) db.accounts)
              || not (is_authorized o.proposal_id r.quantity db)))
        halted_or_not_approved
    a ← or_raise (find (of_account account_id) db.accounts) unknown_account
    proposal ← or_raise (find (of_proposal o.proposal_id) db.proposals) missing_proposal
    c ←
        change_of d o.side a.cash_balance (held account_id proposal.instrument_id db)
          (trade_of d m quote o.side r.quantity) r.quantity
    balance ← new_balance a.cash_balance c.cash_change
    ok (
      record {
        fill_id = fill_id;
        proposal_id = o.proposal_id;
        timestamp = now;
        side = o.side;
        quantity = r.quantity;
        price = (trade_of d m quote o.side r.quantity).price;
      },
      settle account_id proposal.instrument_id a (held account_id proposal.instrument_id db)
          (order_row account_id o r.quantity (trade_of d m quote o.side r.quantity) fill_id now)
          (trade_of d m quote o.side r.quantity) c balance date db,
    )

  -- `execute` on the fill that was found
  unfoldable pub execute_found :
      PaperCostModel
      → String
      → TradeProposal
      → RiskDecision
      → Quote
      → String
      → ℕ
      → ℕ
      → Database
      → Option LedgerFill
      → Outcome LedgerFailure (LedgerFill × Database)
  execute_found m account_id o r quote fill_id now date db (some f) = ok (f, db)
  execute_found m account_id o r quote fill_id now date db none =
      fill_order m account_id o r quote fill_id now date db

  -- `execute`
  unfoldable pub execute_paper :
      PaperCostModel
      → String
      → TradeProposal
      → RiskDecision
      → Quote
      → String
      → ℕ
      → ℕ
      → Database
      → Outcome LedgerFailure (LedgerFill × Database)
  execute_paper m account_id o r quote fill_id now date db = do
    raise_if (not (str_eq r.proposal_id o.proposal_id) || r.quantity == 0) approved_risk_required
    raise_if (not (instrument_eq quote.instrument o.instrument)) quote_mismatch
    execute_found m account_id o r quote fill_id now date db (paper_fill_for o.proposal_id db)
