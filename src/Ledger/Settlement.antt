-- ===== src/Ledger/Settlement.antt =====
-- What `execute` of src/kiwit/paper_trading.py has done when it returns.
use kiwi_t.Prelude.{
  ℕ, ◌≡◌, refl, sym, ap, ◌∙◌, inl, inr, String, Bool, true, false, not, ◌||◌, ◌==◌, Option, none,
  some, List, ◌∷◌, ok, raise_if, raise_if_ok, or_raise, or_raise_ok, Option-cases, str_eq, eq_iff,
  Returning, Returning-bind, Returning-then, Returning-eq,
}
use kiwi_t.Prelude.Int.{ℤ, pos, ◌+ℤ◌, ◌≤ℤ◌}
use kiwi_t.Simulator.Types.{Quote, instrument_eq}
use kiwi_t.Simulator.Methods.{TradeProposal, RiskDecision}
use kiwi_t.Ledger.Tables.{
  find, ProposalRow, OrderRow, AccountRow, PositionRow, Database, is_active, of_proposal, of_order,
}
use kiwi_t.Ledger.Rows.{find_updated, find_present, find_absent}
use kiwi_t.Ledger.Review.{
  approved_risk_required, quote_mismatch, halted_or_not_approved, missing_proposal, unknown_account,
}
use kiwi_t.Ledger.Pricing.{Decimals, PaperCostModel, Trade, Change, trade_of, change_of}
use kiwi_t.Ledger.Amounts.{
  executed_price, cash_flow, gain, IsMoved, IsTraded, cost_price_lem, change_of-IsTraded,
  replace_quantity, new_balance_kept,
}
use kiwi_t.Ledger.Trade.{
  LedgerFill, fill_of, fill_of_row, paper_fill_for, is_blocked, is_authorized, is_inactive,
  of_account, of_position, position_or, held, put_position, order_row, new_balance, settle,
  fill_order, execute_found, execute_paper,
}

-- The state before and after an order that was filled.
pub record Settled (d : Decimals) (m : PaperCostModel) (account : String) (o : TradeProposal)
    (r : RiskDecision) (quote : Quote) (db : Database) (done : LedgerFill × Database) : Type 0 where
  pub unblocked : is_blocked account db ≡ false
  pub authorized : is_authorized o.proposal_id r.quantity db ≡ true
  pub row : AccountRow
  pub found : find (of_account account) db.accounts ≡ some row
  pub open_account : is_active row.status ≡ true
  pub proposal : ProposalRow
  pub staged : find (of_proposal o.proposal_id) db.proposals ≡ some proposal
  pub priced : done.0.price ≡ executed_price d m quote o.side
  pub moved :
      IsMoved o.side
        (held account proposal.instrument_id db).quantity
        (held account proposal.instrument_id done.1).quantity
        row.cash_balance
        (cash_flow d m o.side r.quantity done.0.price)
        r.quantity
  pub row_after : AccountRow
  pub found_after : find (of_account account) done.1.accounts ≡ some row_after
  pub balance :
      row_after.cash_balance
      ≡ d.numeric (row.cash_balance +ℤ cash_flow d m o.side r.quantity done.0.price)
  pub realized :
      row_after.realized_pnl
      ≡ d.numeric (
          row.realized_pnl
          +ℤ gain d m o.side r.quantity done.0.price
              (held account proposal.instrument_id db).average_price)
  pub not_overdrawn : pos 0 ≤ℤ row_after.cash_balance
  pub recorded :
      paper_fill_for o.proposal_id done.1 ≡ some (record done.0 { price = d.numeric done.0.price })
  pub filled : done.0.quantity ≡ r.quantity

same_text : (a : String) → str_eq a a ≡ true
same_text a = (eq_iff a a).1 refl

-- the position that is found after it was put
put_position-held :
    (d : Decimals) (account instrument : String) (p : PositionRow) (c : Change)
    (rows : List PositionRow)
    → (position_or account instrument (
        find
          (of_position account instrument)
          (put_position d account instrument p c rows))).quantity
      ≡ c.quantity
unfolding put_position find
put_position-held d account instrument p c rows =
    let same = of_position account instrument in
    let moved : PositionRow → PositionRow = λ x. record x {
      quantity = c.quantity;
      average_price = d.numeric c.average;
      realized_pnl = d.numeric (x.realized_pnl +ℤ c.realized_delta);
    } in
    elim (Option-cases (find same rows)) [
      | inl absent ↦
          rw (find_absent same rows absent)
            (rw (same_text account) (rw (same_text instrument) refl))
      | inr (x, there) ↦
          rw (find_present same rows there)
            (rw (find_updated same moved (λ y h. h) rows there) refl)
    ]

settle-held :
    (d : Decimals) (account instrument : String) (a : AccountRow) (p : PositionRow) (o : OrderRow)
    (t : Trade) (c : Change) (balance : ℤ) (date : ℕ) (db : Database)
    → (held account instrument (settle d account instrument a p o t c balance date db)).quantity
      ≡ c.quantity
unfolding held settle
settle-held d account instrument a p o t c balance date db =
    put_position-held d account instrument p c db.positions

active_of :
    (o : Option AccountRow) {a : AccountRow}
    → o ≡ some a
    → is_inactive o ≡ false
    → is_active a.status ≡ true
unfolding is_inactive
active_of none e h = cc
active_of (some b) e h = flipped (is_active b.status) h (cc)
  where
    flipped : (x : Bool) {y : Bool} → not x ≡ false → x ≡ y → y ≡ true
    flipped true h e = sym e
    flipped false h e = cc

gates : (a b c : Bool) → a || (b || not c) ≡ false → (a ≡ false) × (b ≡ false) × (c ≡ true)
gates true b c h = cc
gates false true c h = cc
gates false false true h = (refl, refl, refl)
gates false false false h = cc

-- the fill of the order that was written
order_row_recorded :
    (d : Decimals) (account : String) (o : TradeProposal) (n : ℕ) (t : Trade) (fill_id : String)
    (now : ℕ) (orders : List OrderRow)
    → fill_of_row (find (of_order o.proposal_id) (order_row d account o n t fill_id now ∷ orders))
      ≡ some (fill_of (order_row d account o n t fill_id now))
unfolding find order_row
order_row_recorded d account o n t fill_id now orders = rw (same_text o.proposal_id) refl

module _ (d : Decimals) (m : PaperCostModel) (account : String) (o : TradeProposal)
    (r : RiskDecision) (quote : Quote) (fill_id : String) (now date : ℕ) (db : Database) where
  pub fill_order-Settled :
      Returning
        (Settled d m account o r quote db)
        (fill_order d m account o r quote fill_id now date db)
  unfolding fill_order settle fill_of
  fill_order-Settled =
      let S = Settled d m account o r quote db in
      let cond =
        is_blocked account db
        || (is_inactive (find (of_account account) db.accounts)
            || not (is_authorized o.proposal_id r.quantity db)) in
      let t = trade_of d m quote o.side r.quantity in
      Returning-then S (raise_if cond halted_or_not_approved) _ (λ passed.
        Returning-bind S (or_raise (find (of_account account) db.accounts) unknown_account) _
          (λ a found.
            Returning-bind S
              (or_raise (find (of_proposal o.proposal_id) db.proposals) missing_proposal) _
              (λ proposal staged.
                let p = held account proposal.instrument_id db in
                Returning-bind S (change_of d o.side a.cash_balance p t r.quantity) _ (λ c changed.
                  Returning-bind S (new_balance d a.cash_balance c.cash_change) _ (λ balance kept.
                    let (unblocked, inactive, authorized) =
                      gates (is_blocked account db) _ _
                        (raise_if_ok cond halted_or_not_approved passed) in
                    let there =
                      or_raise_ok (find (of_account account) db.accounts) unknown_account found in
                    let credited : AccountRow → AccountRow = λ x. record x {
                      cash_balance = balance;
                      realized_pnl = d.numeric (x.realized_pnl +ℤ c.realized_delta);
                    } in
                    let traded =
                      Returning-eq (IsTraded d m o.side a.cash_balance p t.price r.quantity)
                        (change_of d o.side a.cash_balance p t r.quantity)
                        (change_of-IsTraded d m quote o.side a.cash_balance p r.quantity) changed in
                    let (rounded, solvent) =
                      Returning-eq
                        (λ b. (b ≡ d.numeric (a.cash_balance +ℤ c.cash_change)) × (pos 0 ≤ℤ b))
                        (new_balance d a.cash_balance c.cash_change)
                        (new_balance_kept d a.cash_balance c.cash_change) kept in
                    record {
                      unblocked = unblocked;
                      authorized = authorized;
                      row = a;
                      found = there;
                      open_account = active_of _ there inactive;
                      proposal = proposal;
                      staged =
                          or_raise_ok (find (of_proposal o.proposal_id) db.proposals)
                            missing_proposal staged;
                      priced = unfold trade_of in cost_price_lem d m quote o.side;
                      moved =
                          replace_quantity o.side p.quantity c.quantity _ a.cash_balance _
                            r.quantity
                            (settle-held d account proposal.instrument_id a p
                              (order_row d account o r.quantity t fill_id now) t c balance date db)
                            traded.moved;
                      row_after = credited a;
                      found_after =
                          find_updated (of_account account) credited (λ x h. h) db.accounts there;
                      balance = rounded ∙ ap (λ x. d.numeric (a.cash_balance +ℤ x)) traded.flow;
                      realized = ap (λ x. d.numeric (a.realized_pnl +ℤ x)) traded.gained;
                      not_overdrawn = solvent;
                      recorded =
                          unfold paper_fill_for order_row in
                          order_row_recorded d account o r.quantity t fill_id now db.orders;
                      filled = refl;
                    })))))

  -- When `execute` returns for a proposal that was not filled, the account was active and not halted, and
  -- the proposal approved with its quantity; the price is the ask with the slippage for a purchase, the bid
  -- less the slippage for a sale; what is held has changed by the quantity, a sale within what was held
  -- and a purchase within the cash; the balance is the one before less the turnover and the charges of a
  -- purchase, or with the turnover less the charges of a sale, as the column rounds it, and not negative;
  -- a sale has realized its gain over the average price less the charges, a purchase nothing; and the fill is on record, with its price
  -- as the column rounds it. Charges are the brokerage and the taxes on the turnover, quantity times price.
  pub execute_paper-Settled :
      (done : LedgerFill × Database)
      → paper_fill_for o.proposal_id db ≡ none
      → execute_paper d m account o r quote fill_id now date db ≡ ok done
      → Settled d m account o r quote db done
  unfolding execute_paper execute_found
  execute_paper-Settled done unfilled returned =
      let S = Settled d m account o r quote db in
      Returning-eq S (execute_paper d m account o r quote fill_id now date db)
        (Returning-then S
          (raise_if (not (str_eq r.proposal_id o.proposal_id) || r.quantity == 0)
            approved_risk_required)
          _
          (λ _.
            Returning-then S
              (raise_if (not (instrument_eq quote.instrument o.instrument)) quote_mismatch) _
              (λ _. rw unfilled fill_order-Settled)))
        returned
