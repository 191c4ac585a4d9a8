-- ===== src/Ledger/Records.antt =====
-- What is on record of the filled orders of src/kiwit/paper_trading.py, and that the calls that review a
-- proposal keep it.
use kiwi_t.Prelude.{
  ℕ, ◌≡◌, refl, sym, String, Bool, true, false, not, ◌&&◌, ◌||◌, List, [], ◌∷◌, any, All, All-mono,
  raise_if, str_eq, Returning, Returning-then, subst,
}
use kiwi_t.Prelude.Int.{ℤ, pos, leb_ℤ}
use kiwi_t.Simulator.Methods.{TradeProposal, RiskDecision}
use kiwi_t.Ledger.Tables.{
  find, ProposalRow, ProposalStatus, submitted, OrderRow, Database, is_submitted, is_received,
  is_awaiting, of_proposal, of_order, is_approving_review, is_approving_risk,
}
use kiwi_t.Ledger.Rows.{both, any-insert_new, any-update}
use kiwi_t.Ledger.Review.{
  set_status, create_account, halt, release_halt, PromotedStrategy, register_promoted_strategy,
  stage_proposal, record_risk, record_review, risk_status, is_version_immutable,
  is_promotion_immutable, of_version, of_promotion, is_promoted,
}

-- a row of a proposal that was submitted
abbrev pub is_done : String → ProposalRow → Bool
is_done id p = of_proposal id p && is_submitted p.status

-- What is on record of a filled order.
pub record IsAuthorized (db : Database) (o : OrderRow) : Type 0 where
  pub submitted_proposal : any (is_done o.proposal_id) db.proposals ≡ true
  pub approving_review : any (is_approving_review o.proposal_id) db.reviews ≡ true
  pub approving_risk : any (is_approving_risk o.proposal_id o.quantity) db.risks ≡ true

-- No proposal has two orders.
abbrev pub Distinct : List OrderRow → Type 0
Distinct [] = Unit
Distinct (o ∷ rest) = (any (of_order o.proposal_id) rest ≡ false) × Distinct rest

pub record IsReviewed (db : Database) : Type 0 where
  pub authorized : All (IsAuthorized db) db.orders
  pub distinct : Distinct db.orders

-- A submitted proposal has none of the other statuses.
other_status :
    (id id' : String) (from : ProposalStatus → Bool) (s : ProposalStatus) (p : ProposalRow)
    → from submitted ≡ false
    → is_done id p ≡ true
    → of_proposal id' p && from p.status ≡ true
    → is_done id (record p { status = s }) ≡ true
other_status id id' from s p none_from done touched =
    conflict p.status (both (of_proposal id p) _ done).1 (both (of_proposal id' p) _ touched).1
  where
    conflict :
        (t : ProposalStatus)
        → is_submitted t ≡ true
        → from t ≡ true
        → is_done id (record p { status = s }) ≡ true
    conflict submitted h k = cc
    conflict ProposalStatus.received h k = cc
    conflict ProposalStatus.risk_rejected h k = cc
    conflict ProposalStatus.awaiting_human h k = cc
    conflict ProposalStatus.approved_by_human h k = cc
    conflict ProposalStatus.expired h k = cc

pub set_status_done :
    (from : ProposalStatus → Bool) (id' : String) (s : ProposalStatus) (id : String)
    (rows : List ProposalRow)
    → from submitted ≡ false
    → any (is_done id) rows ≡ true
    → any (is_done id) (set_status from id' s rows) ≡ true
unfolding set_status
set_status_done from id' s id rows h =
    any-update _ (is_done id) _ (λ p. other_status id id' from s p h) rows

-- What is on record stays on record.
pub record Extends (db db' : Database) : Type 0 where
  pub done :
      (id : String) → any (is_done id) db.proposals ≡ true → any (is_done id) db'.proposals ≡ true
  pub reviewed :
      (id : String)
      → any (is_approving_review id) db.reviews ≡ true
      → any (is_approving_review id) db'.reviews ≡ true
  pub decided :
      (id : String) (q : ℕ)
      → any (is_approving_risk id q) db.risks ≡ true
      → any (is_approving_risk id q) db'.risks ≡ true

pub Extends-All :
    (db db' : Database) (orders : List OrderRow)
    → Extends db db'
    → All (IsAuthorized db) orders
    → All (IsAuthorized db') orders
Extends-All db db' orders e h =
    All-mono (IsAuthorized db) (IsAuthorized db')
      (λ o a. record {
        submitted_proposal = e.done o.proposal_id a.submitted_proposal;
        approving_review = e.reviewed o.proposal_id a.approving_review;
        approving_risk = e.decided o.proposal_id o.quantity a.approving_risk;
      })
      orders h

-- a call that leaves the orders alone
Extends-IsReviewed :
    (db db' : Database) → db'.orders ≡ db.orders → Extends db db' → IsReviewed db → IsReviewed db'
Extends-IsReviewed db db' same e h = record {
  authorized =
      subst (All (IsAuthorized db')) (sym same) (Extends-All db db' db.orders e h.authorized);
  distinct = subst Distinct (sym same) h.distinct;
}

-- a call that leaves proposals, reviews and risks alone
unread :
    (db db' : Database)
    → db'.proposals ≡ db.proposals
    → db'.reviews ≡ db.reviews
    → db'.risks ≡ db.risks
    → Extends db db'
unread db db' p h r = record {
  done = λ id k. rw p k;
  reviewed = λ id k. rw h k;
  decided = λ id q k. rw r k;
}

pub create_account-IsReviewed :
    (id : String) (cash : ℤ) (db : Database)
    → IsReviewed db
    → Returning IsReviewed (create_account id cash db)
unfolding create_account
create_account-IsReviewed id cash db h =
    Returning-then IsReviewed (raise_if (str_eq id "" || leb_ℤ cash (pos 0)) _) _
      (λ _. Extends-IsReviewed db _ refl (unread db _ refl refl refl) h)

pub halt-IsReviewed :
    (scope code reason : String) (db : Database)
    → IsReviewed db
    → Returning IsReviewed (halt scope code reason db)
unfolding halt
halt-IsReviewed scope code reason db h =
    Returning-then IsReviewed (raise_if (str_eq scope "" || (str_eq code "" || str_eq reason "")) _)
      _ (λ _. Extends-IsReviewed db _ refl (unread db _ refl refl refl) h)

pub release_halt-IsReviewed :
    (scope by : String) (db : Database)
    → IsReviewed db
    → Returning IsReviewed (release_halt scope by db)
unfolding release_halt
release_halt-IsReviewed scope by db h =
    Returning-then IsReviewed (raise_if (str_eq by "") _) _
      (λ _. Extends-IsReviewed db _ refl (unread db _ refl refl refl) h)

pub register-IsReviewed :
    (s : PromotedStrategy) (db : Database)
    → IsReviewed db
    → Returning IsReviewed (register_promoted_strategy s db)
unfolding register_promoted_strategy
register-IsReviewed s db h =
    Returning-then IsReviewed
      (raise_if
        (is_version_immutable s.specification_sha256
          (find (of_version s.strategy_id s.version) db.versions))
        _)
      _
      (λ _.
        Returning-then IsReviewed
          (raise_if
            (is_promotion_immutable s.evidence
              (find (of_promotion s.strategy_id s.version) db.promotions))
            _)
          _ (λ _. Extends-IsReviewed db _ refl (unread db _ refl refl refl) h))

pub stage_proposal-IsReviewed :
    (o : TradeProposal) (id version instrument : String) (db : Database)
    → IsReviewed db
    → Returning IsReviewed (stage_proposal o id version instrument db)
unfolding stage_proposal
stage_proposal-IsReviewed o id version instrument db h =
    Returning-then IsReviewed (raise_if (not (is_promoted id version db)) _) _ (λ _.
      Extends-IsReviewed db _ refl
        (record {
          done = λ id k. any-insert_new _ (is_done id) _ db.proposals k;
          reviewed = λ id k. k;
          decided = λ id q k. k;
        })
        h)

pub record_risk-IsReviewed :
    (r : RiskDecision) (rules : String) (db : Database)
    → IsReviewed db
    → Returning IsReviewed (record_risk r rules db)
unfolding record_risk
record_risk-IsReviewed r rules db h =
    Returning-then IsReviewed (raise_if (not (any (of_proposal r.proposal_id) db.proposals)) _) _
      (λ _.
        Extends-IsReviewed db _ refl
          (record {
            done = λ id k.
                set_status_done is_received r.proposal_id (risk_status r) id db.proposals refl k;
            reviewed = λ id k. k;
            decided = λ id q k. any-insert_new _ (is_approving_risk id q) _ db.risks k;
          })
          h)

pub record_review-IsReviewed :
    (id : String) (approved : Bool) (reviewer : String) (db : Database)
    → IsReviewed db
    → Returning IsReviewed (record_review id approved reviewer db)
unfolding record_review
record_review-IsReviewed id approved reviewer db h =
    Returning-then IsReviewed (raise_if (str_eq reviewer "") _) _ (λ _.
      Returning-then IsReviewed (raise_if (not (any (of_proposal id) db.proposals)) _) _ (λ _.
        Extends-IsReviewed db _ refl
          (record {
            done = λ id' k. set_status_done is_awaiting id _ id' db.proposals refl k;
            reviewed = λ id' k. any-insert_new _ (is_approving_review id') _ db.reviews k;
            decided = λ id' q k. k;
          })
          h))
