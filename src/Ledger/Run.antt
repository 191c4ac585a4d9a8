-- ===== src/Ledger/Run.antt =====
-- Sequences of calls of the paper ledger of src/kiwit/paper_trading.py.
use kiwi_t.Prelude.{ℕ, String, Bool, List, [], ◌∷◌, Outcome, ok, err, ◌>>=◌}
use kiwi_t.Prelude.Int.{ℤ}
use kiwi_t.Simulator.Types.{Quote}
use kiwi_t.Simulator.Methods.{TradeProposal, RiskDecision}
use kiwi_t.Ledger.Tables.{Database}
use kiwi_t.Ledger.Review.{
  LedgerFailure, create_account, halt, release_halt, PromotedStrategy, register_promoted_strategy,
  stage_proposal, record_risk, record_review,
}
use kiwi_t.Ledger.Pricing.{Decimals, PaperCostModel}
use kiwi_t.Ledger.Trade.{execute_paper}

-- a call of one of the methods that write
pub data Call : Type 0 where
  creating : (account_id : String) (cash : ℤ) → Call
  halting : (scope reason_code reason : String) → Call
  releasing : (scope released_by : String) → Call
  promoting : PromotedStrategy → Call
  staging : TradeProposal → (strategy_id version instrument_id : String) → Call
  deciding : RiskDecision → (rules_version : String) → Call
  reviewing : (proposal_id : String) → Bool → (reviewer : String) → Call
  executing :
      (account_id : String)
      → TradeProposal
      → RiskDecision
      → Quote
      → (fill_id : String) (now date : ℕ) → Call

module _ (d : Decimals) (m : PaperCostModel) where
  unfoldable pub perform : Call → Database → Outcome LedgerFailure Database
  perform (creating id cash) db = create_account id cash db
  perform (halting scope code reason) db = halt scope code reason db
  perform (releasing scope by) db = release_halt scope by db
  perform (promoting s) db = register_promoted_strategy s db
  perform (staging o id version instrument) db = stage_proposal o id version instrument db
  perform (deciding r rules) db = record_risk r rules db
  perform (reviewing id approved reviewer) db = record_review id approved reviewer db
  perform (executing account o r quote fill_id now date) db =
      execute_paper d m account o r quote fill_id now date db >>= λ done. ok done.1

  -- the database after a call
  abbrev pub after : Database → Outcome LedgerFailure Database → Database
  after db (ok db') = db'
  after db (err e) = db

  unfoldable pub perform_all : List Call → Database → Database
  perform_all [] db = db
  perform_all (c ∷ rest) db = perform_all rest (after db (perform c db))
