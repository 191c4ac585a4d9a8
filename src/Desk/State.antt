-- ===== src/Desk/State.antt =====
-- The stored state of `BankNiftyStore` of src/kiwit/banknifty.py. Texts for the operator, chart history
-- and provenance are left out. An amount is a number of grains, and a grain is so small that costs are
-- whole numbers of them.
use kiwi_t.Prelude.{ℕ, ◌/◌, String, Bool, true, false, Option, is_some}
use kiwi_t.Prelude.Int.{ℤ}
use kiwi_t.Options.Costs.{parts, Side, fees}
use kiwi_t.Options.Sizing.{OptionsState, OptionQuote, Contract}

pub data DeskStatus : Type 0 where
  running stopping completed : DeskStatus

abbrev pub is_running : DeskStatus → Bool
is_running running = true
is_running _ = false

abbrev pub is_stopping : DeskStatus → Bool
is_stopping stopping = true
is_stopping _ = false

abbrev pub is_completed : DeskStatus → Bool
is_completed completed = true
is_completed _ = false

pub data ExitReason : Type 0 where
  session_stop stop_loss take_profit underlying_invalidation playbook_time_exit : ExitReason

-- a contract with its symbol, whether it is a call, and the day on which it expires
pub record DeskContract : Type 0 where
  pub symbol : String
  pub is_call : Bool
  pub expiry : ℕ
  pub terms : Contract

-- a quote with its time
pub record DeskQuote : Type 0 where
  pub stamp : ℕ
  pub book : OptionQuote

-- `position["entry_plan"]`: the field that exits read
pub record PlanExit : Type 0 where
  pub is_call : Bool
  pub invalidation : ℕ

-- An open position. One that was stored without `entry_cost_remaining`, for which the source computes a
-- default, has it here.
pub record DeskPosition : Type 0 where
  pub id : String
  pub contract : DeskContract
  pub quantity : ℕ
  pub entry : ℕ
  pub entry_cost_remaining : ℤ
  pub stop : ℕ
  pub target : ℕ
  pub entered_at : ℕ
  pub exit_deadline : Option ℕ
  pub plan : Option PlanExit
  pub last_exit_quote : Option ℕ
  pub exit_pending : Option ExitReason
  pub mark : Option ℕ
  pub mark_at : Option ℕ

pub record DeskState : Type 0 where
  pub day : ℕ
  pub amount : ℕ
  pub loss_pct : ℕ
  pub profit_pct : ℕ
  pub trade_stop_pct : Option ℕ
  pub trade_target_pct : Option ℕ
  pub session_profit_cap_enabled : Bool
  pub cash : ℤ
  pub realized_pnl : ℤ
  pub pnl : ℤ
  pub entries : ℕ
  pub resumes : ℕ
  pub position : Option DeskPosition
  pub status : DeskStatus
  pub last_exit : Option ℕ
  pub last_tick : Option ℕ
  pub valuation_fresh : Bool

-- an event of the desk; of the approval, the decisions and the scans only the kind is kept
pub data DeskEvent : Type 0 where
  run_approved run_resumed stop_requested ai_decision ai_exit_advisory decision_suppressed :
      DeskEvent
  paper_entry : (position_id : String) (quantity : ℕ) (cost : ℤ) → DeskEvent
  paper_exit :
      (position_id : String) (quantity price : ℕ) (pnl : ℤ)
      → ExitReason
      → (closed : Bool) → DeskEvent
  paper_settlement :
      (position_id : String) (quantity : ℕ) (price costs : ℤ) (source_reference : String) (pnl : ℤ)
      → DeskEvent

-- the state as the rules of src/kiwit/options_risk.py read it
unfoldable pub options_state : DeskState → OptionsState
options_state s = record {
  amount = s.amount;
  cash = s.cash;
  realized_pnl = s.realized_pnl;
  loss_pct = s.loss_pct;
  profit_pct = s.profit_pct;
  trade_stop_pct = s.trade_stop_pct;
  trade_target_pct = s.trade_target_pct;
  session_profit_cap_enabled = s.session_profit_cap_enabled;
  entries = s.entries;
  has_position = is_some s.position;
  last_exit = s.last_exit;
}

-- The grains of a rupee, the quotient of a share of a cost as its context rounds it, and the rounding to
-- eight places.
pub record DeskArithmetic : Type 0 where
  pub rupee : ℕ
  pub share : ℤ → ℕ → ℕ → ℤ
  pub quantize : ℤ → ℤ

-- `fees`, in grains
unfoldable pub charge : ℕ → ℕ → Side → ℕ
charge rupee notional side = fees rupee notional side / parts
