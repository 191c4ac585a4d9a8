-- ===== src/Ledger/Retry.antt =====
-- Retries of `execute` of src/kiwit/paper_trading.py.
use kiwi_t.Prelude.{
  ℕ, ◌≡◌, refl, String, true, false, not, ◌||◌, ◌==◌, Option, none, some, ok, raise_if, str_eq,
  Returning, Returning-then, Returning-eq, Returning-map,
}
use kiwi_t.Simulator.Types.{Quote, instrument_eq}
use kiwi_t.Simulator.Methods.{TradeProposal, RiskDecision}
use kiwi_t.Ledger.Tables.{Database}
use kiwi_t.Ledger.Review.{approved_risk_required, quote_mismatch}
use kiwi_t.Ledger.Pricing.{Decimals, PaperCostModel}
use kiwi_t.Ledger.Trade.{LedgerFill, paper_fill_for, fill_order, execute_found, execute_paper}
use kiwi_t.Ledger.Settlement.{Settled, fill_order-Settled}

-- two fills that differ in the price at most
pub record IsSameFill (f g : LedgerFill) : Type 0 where
  pub fill_id : f.fill_id ≡ g.fill_id
  pub proposal_id : f.proposal_id ≡ g.proposal_id
  pub timestamp : f.timestamp ≡ g.timestamp
  pub side : f.side ≡ g.side
  pub quantity : f.quantity ≡ g.quantity

-- The fill that was returned is on record.
abbrev Recorded : String → LedgerFill × Database → Type 0
Recorded id done = (f : LedgerFill) × (paper_fill_for id done.1 ≡ some f) × IsSameFill f done.0

execute_found-Recorded :
    (d : Decimals) (m : PaperCostModel) (account : String) (o : TradeProposal) (r : RiskDecision)
    (quote : Quote) (fill_id : String) (now date : ℕ) (db : Database) (found : Option LedgerFill)
    → paper_fill_for o.proposal_id db ≡ found
    → Returning
        (Recorded o.proposal_id)
        (execute_found d m account o r quote fill_id now date db found)
unfolding execute_found
execute_found-Recorded d m account o r quote fill_id now date db none e =
    Returning-map (Settled d m account o r quote db) (Recorded o.proposal_id)
      (fill_order d m account o r quote fill_id now date db)
      (λ done s. (
        _,
        s.recorded,
        record {
          fill_id = refl;
          proposal_id = refl;
          timestamp = refl;
          side = refl;
          quantity = refl;
        },
      ))
      (fill_order-Settled d m account o r quote fill_id now date db)
execute_found-Recorded d m account o r quote fill_id now date db (some f) e = (
  f,
  e,
  record { fill_id = refl; proposal_id = refl; timestamp = refl; side = refl; quantity = refl },
)

execute_paper-Recorded :
    (d : Decimals) (m : PaperCostModel) (account : String) (o : TradeProposal) (r : RiskDecision)
    (quote : Quote) (fill_id : String) (now date : ℕ) (db : Database)
    → Returning (Recorded o.proposal_id) (execute_paper d m account o r quote fill_id now date db)
unfolding execute_paper
execute_paper-Recorded d m account o r quote fill_id now date db =
    let P = Recorded o.proposal_id in
    Returning-then P
      (raise_if (not (str_eq r.proposal_id o.proposal_id) || r.quantity == 0)
        approved_risk_required)
      _
      (λ _.
        Returning-then P
          (raise_if (not (instrument_eq quote.instrument o.instrument)) quote_mismatch) _
          (λ _.
            execute_found-Recorded d m account o r quote fill_id now date db
              (paper_fill_for o.proposal_id db) refl))

-- a call for a proposal with a fill
execute_paper_found :
    (d : Decimals) (m : PaperCostModel) (account : String) (o : TradeProposal) (r : RiskDecision)
    (quote : Quote) (fill_id : String) (now date : ℕ) (db : Database) (f : LedgerFill)
    → not (str_eq r.proposal_id o.proposal_id) || r.quantity == 0 ≡ false
    → instrument_eq quote.instrument o.instrument ≡ true
    → paper_fill_for o.proposal_id db ≡ some f
    → execute_paper d m account o r quote fill_id now date db ≡ ok (f, db)
unfolding execute_paper execute_found
execute_paper_found d m account o r quote fill_id now date db f given matched there =
    rw given (rw matched (rw there refl))

-- Once `execute` has returned for a proposal, a retry, at any time, with any quote of the instrument and
-- on any account, changes nothing and returns the same fill, up to the price, which the column rounds.
pub execute_paper-again :
    (d : Decimals) (m : PaperCostModel) (account account' : String) (o : TradeProposal)
    (r r' : RiskDecision) (quote quote' : Quote) (id id' : String) (now now' date date' : ℕ)
    (db : Database) (done : LedgerFill × Database)
    → execute_paper d m account o r quote id now date db ≡ ok done
    → not (str_eq r'.proposal_id o.proposal_id) || r'.quantity == 0 ≡ false
    → instrument_eq quote'.instrument o.instrument ≡ true
    → (f : LedgerFill) × (execute_paper d m account' o r' quote' id' now' date' done.1
        ≡ ok (f, done.1))
      × IsSameFill f done.0
execute_paper-again d m account account' o r r' quote quote' id id' now now' date date' db done
      returned given matched =
    let (f, there, same) =
      Returning-eq (Recorded o.proposal_id) (execute_paper d m account o r quote id now date db)
        (execute_paper-Recorded d m account o r quote id now date db) returned in
    (
      f,
      execute_paper_found d m account' o r' quote' id' now' date' done.1 f given matched there,
      same,
    )
