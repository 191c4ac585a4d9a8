-- ===== src/Ledger/Tests.antt =====
-- An account that buys ten units of a reviewed proposal.
use kiwi_t.Prelude.{◌≡◌, refl, true, none, List, [], ◌∷◌, ◌++◌, ok, err}
use kiwi_t.Prelude.Int.{pos, ◌+ℤ◌, ◌-ℤ◌, diff}
use kiwi_t.Prelude.Scaling.{times, floor_quot}
use kiwi_t.Simulator.Types.{Instrument, Quote, instrument_eq}
use kiwi_t.Simulator.Methods.{TradeProposal, RiskDecision, buy, approve}
use kiwi_t.Ledger.Tables.{
  find, update, insert_new, active, paper, submitted, approved_by_human, Database, empty_database,
}
use kiwi_t.Ledger.Review.{
  create_account, PromotedStrategy, register_promoted_strategy, is_version_immutable,
  is_promotion_immutable, is_promoted, stage_proposal, risk_status, set_status, record_risk,
  record_review, halted_or_not_approved,
}
use kiwi_t.Ledger.Pricing.{Decimals, PaperCostModel, cost_price, trade_of, change_of}
use kiwi_t.Ledger.Trade.{
  LedgerFill, paper_fill_for, is_blocked, is_authorized, is_inactive, held, put_position, put_daily,
  order_row, new_balance, settle, fill_order, execute_found, execute_paper,
}
use kiwi_t.Ledger.Run.{
  Call, creating, promoting, staging, deciding, reviewing, executing, perform, perform_all,
}
use kiwi_t.Ledger.Records.{IsReviewed}
use kiwi_t.Ledger.Authorization.{perform_all-IsReviewed}
use kiwi_t.Ledger.Settlement.{Settled, execute_paper-Settled}
use kiwi_t.Ledger.Retry.{IsSameFill, execute_paper-again}

-- quotients rounded down, and a column that keeps every place
abbrev decimals : Decimals
decimals = record { divide = floor_quot; numeric = λ a. a }

abbrev costs : PaperCostModel
costs = record { slippage_bps = 5; brokerage_bps = 0; taxes_bps = 3 }

abbrev infy : Instrument
infy = record { symbol = "INFY"; exchange = "NSE"; series = "EQ"; lot_size = 1; tick_size = 5 }

abbrev order : TradeProposal
order = record {
  proposal_id = "p1";
  instrument = infy;
  side = buy;
  signal_timestamp = 0;
  entry_price = 10000;
  stop_price = 9900;
  target_price = none;
}

abbrev decision : RiskDecision
decision = record { decision = approve; proposal_id = "p1"; quantity = 10; risk_budget = 5000 }

abbrev quote : Quote
quote = record { instrument = infy; timestamp = 0; bid = 9995; ask = 10000 }

abbrev strategy : PromotedStrategy
strategy = record { strategy_id = "s"; version = "1"; specification_sha256 = "h"; evidence = "e" }

-- the calls up to the review
abbrev calls : List Call
calls =
    creating "a" (pos 200000)
    ∷ promoting strategy
    ∷ staging order "s" "1" "i1"
    ∷ deciding decision "risk-v1"
    ∷ reviewing "p1" true "operator"
    ∷ []

abbrev ready : Database
ready = record empty_database {
  accounts =
      (record {
        account_id = "a";
        initial_cash = pos 200000;
        cash_balance = pos 200000;
        realized_pnl = pos 0;
        status = active;
      })
      ∷ [];
  versions =
      (record { strategy_id = "s"; version = "1"; status = paper; specification_sha256 = "h" })
      ∷ [];
  promotions = (record { strategy_id = "s"; strategy_version = "1"; evidence = "e" }) ∷ [];
  proposals =
      (record {
        proposal_id = "p1";
        strategy_id = "s";
        strategy_version = "1";
        instrument_id = "i1";
        side = buy;
        status = approved_by_human;
      })
      ∷ [];
  risks =
      (record { proposal_id = "p1"; rules_version = "risk-v1"; decision = approve; quantity = 10 })
      ∷ [];
  reviews = (record { proposal_id = "p1"; approved = true; reviewer = "operator" }) ∷ [];
}

test_ready : perform_all decimals costs calls empty_database ≡ ready
unfolding perform_all perform create_account register_promoted_strategy is_version_immutable
    is_promotion_immutable stage_proposal is_promoted record_risk risk_status set_status
    record_review find update insert_new
test_ready = refl

abbrev fill : LedgerFill
fill = record {
  fill_id = "f1";
  proposal_id = "p1";
  timestamp = 7;
  side = buy;
  quantity = 10;
  price = pos 10005;
}

abbrev filled : Database
filled = record ready {
  accounts =
      (record {
        account_id = "a";
        initial_cash = pos 200000;
        cash_balance = pos 99920;
        realized_pnl = pos 0;
        status = active;
      })
      ∷ [];
  proposals =
      (record {
        proposal_id = "p1";
        strategy_id = "s";
        strategy_version = "1";
        instrument_id = "i1";
        side = buy;
        status = submitted;
      })
      ∷ [];
  orders =
      (record {
        proposal_id = "p1";
        account_id = "a";
        fill_id = "f1";
        filled_at = 7;
        side = buy;
        quantity = 10;
        price = pos 10005;
        fees = pos 0;
        taxes = pos 30;
      })
      ∷ [];
  positions =
      (record {
        account_id = "a";
        instrument_id = "i1";
        quantity = 10;
        average_price = pos 10005;
        realized_pnl = pos 0;
      })
      ∷ [];
  daily =
      (record {
        account_id = "a";
        trading_date = 1;
        starting_equity = pos 200000;
        fees = pos 30;
        turnover = pos 100050;
        trade_count = 1;
      })
      ∷ [];
}

executes : execute_paper decimals costs "a" order decision quote "f1" 7 1 ready ≡ ok (fill, filled)
unfolding execute_paper instrument_eq paper_fill_for execute_found fill_order is_blocked is_inactive
    is_authorized held change_of trade_of cost_price new_balance settle put_position put_daily
    order_row set_status find update times floor_quot ◌+ℤ◌ ◌-ℤ◌ diff
executes = refl

-- A halted account does not trade.
test_halt :
    execute_paper decimals costs "a" order decision quote "f1" 7 1
      (record ready { halts = (record { scope = "a"; reason_code = "r"; active = true }) ∷ [] })
    ≡ err halted_or_not_approved
unfolding execute_paper instrument_eq paper_fill_for execute_found fill_order is_blocked is_inactive
    is_authorized find
test_halt = refl

unfilled : paper_fill_for "p1" ready ≡ none
unfolding paper_fill_for find
unfilled = refl

matched : instrument_eq infy infy ≡ true
unfolding instrument_eq
matched = refl

execute_paper-Settled_example : Settled decimals costs "a" order decision quote ready (fill, filled)
execute_paper-Settled_example =
    execute_paper-Settled decimals costs "a" order decision quote "f1" 7 1 ready (fill, filled)
      unfilled executes

execute_paper-again_example :
    (f : LedgerFill) × (execute_paper decimals costs "b" order decision quote "f2" 9 2 filled
      ≡ ok (f, filled))
    × IsSameFill f fill
execute_paper-again_example =
    execute_paper-again decimals costs "a" "b" order decision decision quote quote "f1" "f2" 7 9 1 2
      ready (fill, filled) executes refl matched

perform_all-IsReviewed_example : IsReviewed (
    perform_all decimals costs
      (calls ++ executing "a" order decision quote "f1" 7 1 ∷ [])
      empty_database)
perform_all-IsReviewed_example =
    perform_all-IsReviewed decimals costs
      (calls ++ executing "a" order decision quote "f1" 7 1 ∷ [])
