-- ===== src/Ledger/Authorization.antt =====
-- No order of the paper ledger of src/kiwit/paper_trading.py is filled without its approvals, and none
-- twice.
use kiwi_t.Prelude.{
  ℕ, ◌≡◌, refl, String, Bool, true, false, not, ◌&&◌, ◌||◌, ◌==◌, Option, none, some, List, [], ◌∷◌,
  any, Outcome, ok, err, raise_if, raise_if_ok, or_raise, str_eq, Returning, Returning-bind,
  Returning-then, Returning-eq,
}
use kiwi_t.Prelude.Int.{ℤ}
use kiwi_t.Simulator.Types.{Quote, instrument_eq}
use kiwi_t.Simulator.Methods.{TradeProposal, RiskDecision}
use kiwi_t.Ledger.Tables.{
  find, ProposalRow, submitted, OrderRow, AccountRow, PositionRow, Database, empty_database,
  is_submitted, of_proposal, of_order, is_approving_review,
}
use kiwi_t.Ledger.Rows.{both, any-update, any_updated, any_mono, find_absent}
use kiwi_t.Ledger.Records.{
  is_done, IsReviewed, Extends-All, create_account-IsReviewed, halt-IsReviewed,
  release_halt-IsReviewed, register-IsReviewed, stage_proposal-IsReviewed, record_risk-IsReviewed,
  record_review-IsReviewed,
}
use kiwi_t.Ledger.Review.{
  LedgerFailure, approved_risk_required, quote_mismatch, halted_or_not_approved, missing_proposal,
  unknown_account, set_status,
}
use kiwi_t.Ledger.Pricing.{Decimals, PaperCostModel, Trade, Change, trade_of, change_of}
use kiwi_t.Ledger.Trade.{
  LedgerFill, is_cleared, is_authorized, is_blocked, is_inactive, of_account, held, paper_fill_for,
  fill_of_row, order_row, new_balance, settle, fill_order, execute_found, execute_paper,
}
use kiwi_t.Ledger.Run.{
  Call, creating, halting, releasing, promoting, staging, deciding, reviewing, executing, perform,
  after, perform_all,
}

-- a proposal that is submitted stays so, and the one that is filled becomes so
submit_done :
    (id' id : String) (rows : List ProposalRow)
    → any (is_done id) rows ≡ true
    → any (is_done id) (set_status (λ _. true) id' submitted rows) ≡ true
unfolding set_status
submit_done id' id rows =
    any-update _ (is_done id) _ (λ p done _. still (of_proposal id p) (is_submitted p.status) done)
      rows
  where
    still : (a b : Bool) → a && b ≡ true → a && true ≡ true
    still true b h = refl
    still false b h = h

submit_done_now :
    (db : Database) (id : String)
    → any (is_cleared db id) db.proposals ≡ true
    → any (is_done id) (set_status (λ _. true) id submitted db.proposals) ≡ true
unfolding set_status
submit_done_now db id h =
    any_updated (λ p. of_proposal id p && true) (is_done id) (λ p. record p { status = submitted })
      (λ p touched. touched) db.proposals
      (any_mono (is_cleared db id) (λ p. of_proposal id p && true)
        (λ p cleared. rw (both (of_proposal id p) _ cleared).0 refl) db.proposals h)

-- the writes of `execute`, where the approvals are there and no order is
settle-IsReviewed :
    (d : Decimals) (account instrument : String) (a : AccountRow) (p : PositionRow) (o : OrderRow)
    (t : Trade) (c : Change) (balance : ℤ) (date : ℕ) (db : Database)
    → is_authorized o.proposal_id o.quantity db ≡ true
    → any (of_order o.proposal_id) db.orders ≡ false
    → IsReviewed db
    → IsReviewed (settle d account instrument a p o t c balance date db)
unfolding settle is_authorized
settle-IsReviewed d account instrument a p o t c balance date db approved fresh h =
    let (cleared, rest) = both (any (is_cleared db o.proposal_id) db.proposals) _ approved in
    let (reviewed, risked) = both (any (is_approving_review o.proposal_id) db.reviews) _ rest in
    let db' = settle d account instrument a p o t c balance date db in
    record {
      authorized = (
        record {
          submitted_proposal = submit_done_now db o.proposal_id cleared;
          approving_review = reviewed;
          approving_risk = risked;
        },
        Extends-All db db' db.orders
            (record {
              done = λ id k. submit_done o.proposal_id id db.proposals k;
              reviewed = λ id k. k;
              decided = λ id q k. k;
            })
            h.authorized,
      );
      distinct = (fresh, h.distinct);
    }

authorized_of : (a b c : Bool) → a || (b || not c) ≡ false → c ≡ true
authorized_of true b c h = cc
authorized_of false true c h = cc
authorized_of false false true h = refl
authorized_of false false false h = cc

unfilled_order :
    (id : String) (db : Database)
    → paper_fill_for id db ≡ none
    → any (of_order id) db.orders ≡ false
unfolding paper_fill_for
unfilled_order id db h =
    find_absent (of_order id) db.orders (no_row (find (of_order id) db.orders) h)
  where
    no_row : (o : Option OrderRow) → fill_of_row o ≡ none → o ≡ none
    no_row none h = refl
    no_row (some o) h = cc

-- a postcondition of the database that a call of `execute` leaves
abbrev Filled : LedgerFill × Database → Type 0
Filled done = IsReviewed done.1

fill_order-IsReviewed :
    (d : Decimals) (m : PaperCostModel) (account : String) (o : TradeProposal) (r : RiskDecision)
    (quote : Quote) (fill_id : String) (now date : ℕ) (db : Database)
    → paper_fill_for o.proposal_id db ≡ none
    → IsReviewed db
    → Returning Filled (fill_order d m account o r quote fill_id now date db)
unfolding fill_order
fill_order-IsReviewed d m account o r quote fill_id now date db unfilled h =
    let cond =
      is_blocked account db
      || (is_inactive (find (of_account account) db.accounts)
          || not (is_authorized o.proposal_id r.quantity db)) in
    let t = trade_of d m quote o.side r.quantity in
    Returning-then Filled (raise_if cond halted_or_not_approved) _ (λ passed.
      Returning-bind Filled (or_raise (find (of_account account) db.accounts) unknown_account) _
        (λ a _.
          Returning-bind Filled
            (or_raise (find (of_proposal o.proposal_id) db.proposals) missing_proposal) _
            (λ proposal _.
              let p = held account proposal.instrument_id db in
              Returning-bind Filled (change_of d o.side a.cash_balance p t r.quantity) _ (λ c _.
                Returning-bind Filled (new_balance d a.cash_balance c.cash_change) _ (λ balance _.
                  settle-IsReviewed d account proposal.instrument_id a p
                    (order_row d account o r.quantity t fill_id now) t c balance date db
                    (unfold order_row in
                      authorized_of (is_blocked account db) _ _
                        (raise_if_ok cond halted_or_not_approved passed))
                    (unfold order_row in unfilled_order o.proposal_id db unfilled) h)))))

execute_paper-IsReviewed :
    (d : Decimals) (m : PaperCostModel) (account : String) (o : TradeProposal) (r : RiskDecision)
    (quote : Quote) (fill_id : String) (now date : ℕ) (db : Database)
    → IsReviewed db
    → Returning Filled (execute_paper d m account o r quote fill_id now date db)
unfolding execute_paper execute_found
execute_paper-IsReviewed d m account o r quote fill_id now date db h =
    Returning-then Filled
      (raise_if (not (str_eq r.proposal_id o.proposal_id) || r.quantity == 0)
        approved_risk_required)
      _
      (λ _.
        Returning-then Filled
          (raise_if (not (instrument_eq quote.instrument o.instrument)) quote_mismatch) _
          (λ _. found (paper_fill_for o.proposal_id db) refl))
  where
    found :
        (f : Option LedgerFill)
        → paper_fill_for o.proposal_id db ≡ f
        → Returning Filled (execute_found d m account o r quote fill_id now date db f)
    found none e = fill_order-IsReviewed d m account o r quote fill_id now date db e h
    found (some f) e = h

perform-IsReviewed :
    (d : Decimals) (m : PaperCostModel) (c : Call) (db : Database)
    → IsReviewed db
    → Returning IsReviewed (perform d m c db)
unfolding perform
perform-IsReviewed d m (creating id cash) db h = create_account-IsReviewed id cash db h
perform-IsReviewed d m (halting scope code reason) db h = halt-IsReviewed scope code reason db h
perform-IsReviewed d m (releasing scope by) db h = release_halt-IsReviewed scope by db h
perform-IsReviewed d m (promoting s) db h = register-IsReviewed s db h
perform-IsReviewed d m (staging o id version instrument) db h =
    stage_proposal-IsReviewed o id version instrument db h
perform-IsReviewed d m (deciding r rules) db h = record_risk-IsReviewed r rules db h
perform-IsReviewed d m (reviewing id approved reviewer) db h =
    record_review-IsReviewed id approved reviewer db h
perform-IsReviewed d m (executing account o r quote fill_id now date) db h =
    Returning-bind IsReviewed (execute_paper d m account o r quote fill_id now date db) _ (λ done e.
      Returning-eq Filled (execute_paper d m account o r quote fill_id now date db)
        (execute_paper-IsReviewed d m account o r quote fill_id now date db h) e)

perform_all_keeps :
    (d : Decimals) (m : PaperCostModel) (calls : List Call) (db : Database)
    → IsReviewed db
    → IsReviewed (perform_all d m calls db)
unfolding perform_all
perform_all_keeps d m [] db h = h
perform_all_keeps d m (c ∷ rest) db h =
    perform_all_keeps d m rest _ (ended db (perform d m c db) h (perform-IsReviewed d m c db h))
  where
    ended :
        (db : Database) (r : Outcome LedgerFailure Database)
        → IsReviewed db
        → Returning IsReviewed r
        → IsReviewed (after d m db r)
    ended db (ok db') h k = k
    ended db (err e) h k = h

-- After any calls on an empty database, of which some may raise, every filled order is of a proposal that
-- was submitted, that a reviewer has approved, and for which a risk decision has approved the quantity;
-- and no proposal has two orders.
pub perform_all-IsReviewed :
    (d : Decimals) (m : PaperCostModel) (calls : List Call)
    → IsReviewed (perform_all d m calls empty_database)
perform_all-IsReviewed d m calls =
    perform_all_keeps d m calls empty_database (record { authorized = tt; distinct = tt })
