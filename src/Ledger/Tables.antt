-- ===== src/Ledger/Tables.antt =====
-- The tables of `PostgresPaperLedger` of src/kiwit/paper_trading.py, with the keys and checks of
-- src/migrations that its statements rely on. A row is found by its key, and a new row stands in front.
-- The columns that no method of the ledger reads are left out, and so is the table of instruments. An
-- amount is a whole number of a unit small enough for the values at hand.
use kiwi_t.Prelude.{
  ℕ, String, Bool, true, false, ◌&&◌, Option, none, some, List, [], ◌∷◌, if◌then◌else◌, str_eq, any,
  ◌==◌,
}
use kiwi_t.Prelude.Int.{ℤ}
use kiwi_t.Simulator.Methods.{Side, Decision, is_approved}

-- `fetchone` of the rows that satisfy a condition
unfoldable pub find : {A : Type 0} → (A → Bool) → List A → Option A
find p [] = none
find p (x ∷ xs) = if p x then some x else find p xs

-- `UPDATE ... SET ... WHERE`
unfoldable pub update : {A : Type 0} → (A → Bool) → (A → A) → List A → List A
update p f [] = []
update p f (x ∷ xs) = (if p x then f x else x) ∷ update p f xs

-- `INSERT ... ON CONFLICT ... DO NOTHING`, where the conflict is a row that satisfies the condition
unfoldable pub insert_new : {A : Type 0} → (A → Bool) → A → List A → List A
insert_new p row rows = if any p rows then rows else row ∷ rows

pub data AccountStatus : Type 0 where
  active halted closed : AccountStatus

pub record AccountRow : Type 0 where
  pub account_id : String
  pub initial_cash : ℤ
  pub cash_balance : ℤ
  pub realized_pnl : ℤ
  pub status : AccountStatus

pub record HaltRow : Type 0 where
  pub scope : String
  pub reason_code : String
  pub active : Bool

pub data VersionStatus : Type 0 where
  paper approved other_status : VersionStatus

pub record VersionRow : Type 0 where
  pub strategy_id : String
  pub version : String
  pub status : VersionStatus
  pub specification_sha256 : String

-- The evidence stands for the six columns that are compared.
pub record PromotionRow : Type 0 where
  pub strategy_id : String
  pub strategy_version : String
  pub evidence : String

pub data ProposalStatus : Type 0 where
  received risk_rejected awaiting_human approved_by_human expired submitted : ProposalStatus

pub record ProposalRow : Type 0 where
  pub proposal_id : String
  pub strategy_id : String
  pub strategy_version : String
  pub instrument_id : String
  pub side : Side
  pub status : ProposalStatus

pub record RiskRow : Type 0 where
  pub proposal_id : String
  pub rules_version : String
  pub decision : Decision
  pub quantity : ℕ

pub record ReviewRow : Type 0 where
  pub proposal_id : String
  pub approved : Bool
  pub reviewer : String

-- a row of `broker_orders` of the paper environment with its row of `fills`
pub record OrderRow : Type 0 where
  pub proposal_id : String
  pub account_id : String
  pub fill_id : String
  pub filled_at : ℕ
  pub side : Side
  pub quantity : ℕ
  pub price : ℤ
  pub fees : ℤ
  pub taxes : ℤ

pub record PositionRow : Type 0 where
  pub account_id : String
  pub instrument_id : String
  pub quantity : ℕ
  pub average_price : ℤ
  pub realized_pnl : ℤ

pub record DailyRow : Type 0 where
  pub account_id : String
  pub trading_date : ℕ
  pub starting_equity : ℤ
  pub fees : ℤ
  pub turnover : ℤ
  pub trade_count : ℕ

pub record Database : Type 0 where
  pub accounts : List AccountRow
  pub halts : List HaltRow
  pub versions : List VersionRow
  pub promotions : List PromotionRow
  pub proposals : List ProposalRow
  pub risks : List RiskRow
  pub reviews : List ReviewRow
  pub orders : List OrderRow
  pub positions : List PositionRow
  pub daily : List DailyRow

abbrev pub empty_database : Database
empty_database = record {
  accounts = [];
  halts = [];
  versions = [];
  promotions = [];
  proposals = [];
  risks = [];
  reviews = [];
  orders = [];
  positions = [];
  daily = [];
}

-- tests of a status
abbrev pub is_active : AccountStatus → Bool
is_active active = true
is_active _ = false

abbrev pub is_paper : VersionStatus → Bool
is_paper paper = true
is_paper approved = true
is_paper other_status = false

abbrev pub is_received : ProposalStatus → Bool
is_received received = true
is_received _ = false

abbrev pub is_awaiting : ProposalStatus → Bool
is_awaiting awaiting_human = true
is_awaiting _ = false

abbrev pub is_released : ProposalStatus → Bool
is_released approved_by_human = true
is_released _ = false

abbrev pub is_submitted : ProposalStatus → Bool
is_submitted submitted = true
is_submitted _ = false

-- the conditions of the statements on proposals
abbrev pub of_proposal : String → ProposalRow → Bool
of_proposal id p = str_eq p.proposal_id id

abbrev pub is_approving_review : String → ReviewRow → Bool
is_approving_review id h = str_eq h.proposal_id id && h.approved

abbrev pub is_approving_risk : String → ℕ → RiskRow → Bool
is_approving_risk id quantity r =
    str_eq r.proposal_id id && (is_approved r.decision && r.quantity == quantity)

abbrev pub of_order : String → OrderRow → Bool
of_order id o = str_eq o.proposal_id id
