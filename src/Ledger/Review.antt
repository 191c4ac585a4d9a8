-- ===== src/Ledger/Review.antt =====
-- Accounts, halts, promotions and the review states of a proposal, of `PostgresPaperLedger` of
-- src/kiwit/paper_trading.py. A call that raises leaves the database as it was, since its transaction
-- is rolled back.
use kiwi_t.Prelude.{
  String, Bool, true, false, not, ◌&&◌, ◌||◌, Option, none, some, List, if◌then◌else◌, str_eq, any,
  ltb, Outcome, ok, ◌>>◌, raise_if,
}
use kiwi_t.Prelude.Int.{ℤ, pos, leb_ℤ}
use kiwi_t.Simulator.Methods.{TradeProposal, RiskDecision, is_approved}
use kiwi_t.Ledger.Tables.{
  find, update, insert_new, active, VersionRow, paper, PromotionRow, ProposalRow, ProposalStatus,
  received, risk_rejected, awaiting_human, approved_by_human, expired, AccountRow, HaltRow, RiskRow,
  ReviewRow, Database, is_paper, is_received, is_awaiting, of_proposal,
}

pub data LedgerFailure : Type 0 where
  invalid_account halt_fields_required released_by_required version_immutable promotion_immutable
        strategy_not_approved reviewer_required foreign_key approved_risk_required quote_mismatch
        halted_or_not_approved missing_proposal insufficient_cash long_position_exceeded
        check_violated unknown_account :
      LedgerFailure

-- `create_account`
unfoldable pub create_account : String → ℤ → Database → Outcome LedgerFailure Database
create_account id cash db = do
  raise_if (str_eq id "" || leb_ℤ cash (pos 0)) invalid_account
  ok (record db {
    accounts =
        insert_new (λ (a : AccountRow). str_eq a.account_id id)
          (record {
            account_id = id;
            initial_cash = cash;
            cash_balance = cash;
            realized_pnl = pos 0;
            status = active;
          })
          db.accounts;
  })

-- `halt`; a scope has at most one active halt
unfoldable pub halt : String → String → String → Database → Outcome LedgerFailure Database
halt scope reason_code reason db = do
  raise_if (str_eq scope "" || (str_eq reason_code "" || str_eq reason "")) halt_fields_required
  ok (record db {
    halts =
        insert_new (λ (h : HaltRow). str_eq h.scope scope && h.active)
          (record { scope = scope; reason_code = reason_code; active = true }) db.halts;
  })

-- `release_halt`
unfoldable pub release_halt : String → String → Database → Outcome LedgerFailure Database
release_halt scope released_by db = do
  raise_if (str_eq released_by "") released_by_required
  ok (record db {
    halts =
        update (λ (h : HaltRow). str_eq h.scope scope && h.active)
          (λ h. record h { active = false }) db.halts;
  })

-- the fields of `PromotedStrategy`; the evidence stands for what a promotion is compared by
pub record PromotedStrategy : Type 0 where
  pub strategy_id : String
  pub version : String
  pub specification_sha256 : String
  pub evidence : String

abbrev pub of_version : String → String → VersionRow → Bool
of_version id version v = str_eq v.strategy_id id && str_eq v.version version

abbrev pub of_promotion : String → String → PromotionRow → Bool
of_promotion id version p = str_eq p.strategy_id id && str_eq p.strategy_version version

unfoldable pub is_version_immutable : String → Option VersionRow → Bool
is_version_immutable sha none = false
is_version_immutable sha (some v) =
    not (str_eq v.specification_sha256 sha) || not (is_paper v.status)

unfoldable pub is_promotion_immutable : String → Option PromotionRow → Bool
is_promotion_immutable evidence none = false
is_promotion_immutable evidence (some p) = not (str_eq p.evidence evidence)

-- `register_promoted_strategy`
unfoldable pub register_promoted_strategy :
    PromotedStrategy → Database → Outcome LedgerFailure Database
register_promoted_strategy s db = do
  raise_if
      (is_version_immutable s.specification_sha256
        (find (of_version s.strategy_id s.version) db.versions))
      version_immutable
  raise_if
      (is_promotion_immutable s.evidence
        (find (of_promotion s.strategy_id s.version) db.promotions))
      promotion_immutable
  ok (record db {
    versions =
        insert_new (of_version s.strategy_id s.version)
          (record {
            strategy_id = s.strategy_id;
            version = s.version;
            status = paper;
            specification_sha256 = s.specification_sha256;
          })
          db.versions;
    promotions =
        insert_new (of_promotion s.strategy_id s.version)
          (record {
            strategy_id = s.strategy_id;
            strategy_version = s.version;
            evidence = s.evidence;
          })
          db.promotions;
  })

-- the `EXISTS` of `stage_proposal`
unfoldable pub is_promoted : String → String → Database → Bool
is_promoted id version db =
    any (λ (v : VersionRow). of_version id version v && is_paper v.status) db.versions
    && any (of_promotion id version) db.promotions

-- `stage_proposal` of a proposal with its strategy and version
unfoldable pub stage_proposal :
    TradeProposal → String → String → String → Database → Outcome LedgerFailure Database
stage_proposal o strategy_id version instrument_id db = do
  raise_if (not (is_promoted strategy_id version db)) strategy_not_approved
  ok (record db {
    proposals =
        insert_new (of_proposal o.proposal_id)
          (record {
            proposal_id = o.proposal_id;
            strategy_id = strategy_id;
            strategy_version = version;
            instrument_id = instrument_id;
            side = o.side;
            status = received;
          })
          db.proposals;
  })

-- the status that `record_risk` gives
unfoldable pub risk_status : RiskDecision → ProposalStatus
risk_status r = if ltb 0 r.quantity && is_approved r.decision then awaiting_human else risk_rejected

-- `UPDATE trade_proposals SET status=... WHERE proposal_id=... AND status=...`
unfoldable pub set_status :
    (ProposalStatus → Bool) → String → ProposalStatus → List ProposalRow → List ProposalRow
set_status from id status =
    update (λ (p : ProposalRow). of_proposal id p && from p.status)
      (λ p. record p { status = status })

-- `record_risk`
unfoldable pub record_risk : RiskDecision → String → Database → Outcome LedgerFailure Database
record_risk r rules_version db = do
  raise_if (not (any (of_proposal r.proposal_id) db.proposals)) foreign_key
  ok (record db {
    risks =
        insert_new
          (λ (x : RiskRow).
            str_eq x.proposal_id r.proposal_id && str_eq x.rules_version rules_version)
          (record {
            proposal_id = r.proposal_id;
            rules_version = rules_version;
            decision = r.decision;
            quantity = r.quantity;
          })
          db.risks;
    proposals = set_status is_received r.proposal_id (risk_status r) db.proposals;
  })

-- `record_review`
unfoldable pub record_review : String → Bool → String → Database → Outcome LedgerFailure Database
record_review id approved reviewer db = do
  raise_if (str_eq reviewer "") reviewer_required
  raise_if (not (any (of_proposal id) db.proposals)) foreign_key
  ok (record db {
    reviews =
        insert_new (λ (h : ReviewRow). str_eq h.proposal_id id)
          (record { proposal_id = id; approved = approved; reviewer = reviewer }) db.reviews;
    proposals =
        set_status is_awaiting id (if approved then approved_by_human else expired) db.proposals;
  })
