-- ===== src/Desk/Entry.antt =====
-- `_apply` of src/kiwit/banknifty.py. The answers of the market, the calendar of events and the stored
-- call are arguments; a quote or a sample that raised is missing.
use kiwi_t.Prelude.{
  ℕ, ◌+◌, ◌*◌, String, Bool, true, false, not, ◌&&◌, ◌||◌, ltb, leb, ◌==◌, Option, none, some, List,
  [], ◌∷◌, if◌then◌else◌, str_eq, is_nonempty, is_some, is_fresh, Outcome, ok, ◌>>=◌, ◌>>◌,
  raise_if, or_raise,
}
use kiwi_t.Prelude.Int.{pos, ◌-ℤ◌}
use kiwi_t.Calendar.{seconds}
use kiwi_t.Options.Costs.{Side}
use kiwi_t.Options.Exits.{ExitLevels}
use kiwi_t.Options.Gate.{entry_cap, entry_calendar_blocker}
use kiwi_t.Desk.Clock.{entry_window}
use kiwi_t.Desk.State.{
  DeskState, is_running, DeskPosition, DeskContract, DeskQuote, DeskEvent, ai_decision,
  ai_exit_advisory, paper_entry, charge,
}
use kiwi_t.Desk.Exit.{Sample, fresh}
use kiwi_t.Desk.Monitor.{DeskEnvironment, is_limit_hit}
use kiwi_t.Desk.Plan.{
  DeskFailure, unknown_contract, exit_without_position, market_unavailable, entry_blocked, cooling,
  stale_input, limit_blocks_entry, expiry_day, no_evidence, calendar_blocked, EntryPlan,
  ChartAnalysis, entry_evidence, PlanContext, validate_plan, entry_price,
}

pub data Action : Type 0 where
  buy_action exit_action hold_action : Action

-- the decision of the model
pub record DeskDecision : Type 0 where
  pub action : Action
  pub symbol : String
  pub strategy : String
  pub plan_id : String

-- what `_apply` reads of the snapshot of the decision
pub record DeskSnapshot : Type 0 where
  pub day : ℕ
  pub position : Option DeskPosition
  pub spot_at : ℕ
  pub chart : Option ChartAnalysis
  pub plan : PlanContext

-- what the market answers, and the contract of the decided symbol if the snapshot has it
pub record Feed : Type 0 where
  pub selected : Option DeskContract
  pub quote : Option DeskQuote
  pub underlying : Option Sample

-- `snapshot["position"]["contract"]["symbol"] == symbol`
abbrev pub holds_symbol : String → Option DeskPosition → Bool
holds_symbol symbol none = false
holds_symbol symbol (some p) = str_eq p.contract.symbol symbol

-- the tests before the lock; a missing answer is a call that raised
unfoldable pub prepared : DeskDecision → DeskSnapshot → Feed → Outcome DeskFailure (Unit {0})
prepared d snap feed = elim d.action [
  | buy_action ↦ do
    raise_if (not (is_some feed.selected)) unknown_contract
    raise_if (not (is_some feed.underlying && is_some feed.quote)) market_unavailable
  | exit_action ↦ raise_if (not (holds_symbol d.symbol snap.position)) exit_without_position
  | hold_action ↦ ok tt
]

abbrev pub is_cooling : Option ℕ → ℕ → Bool
is_cooling none now = false
is_cooling (some exit) now = ltb now (exit + seconds 300)

-- the guards of an entry on the state and the clock
unfoldable pub checked_state :
    DeskEnvironment → DeskState → DeskDecision → ℕ → Outcome DeskFailure (Unit {0})
checked_state env s d now = do
  raise_if
      (is_some s.position
        || (not (entry_window now)
            || (env.halted
                || (not env.enabled || (leb entry_cap s.entries || str_eq d.strategy "no_trade")))))
      entry_blocked
  raise_if (is_cooling s.last_exit now) cooling

-- the guards of an entry on the quote, the limits, the contract, the chart and the calendar
unfoldable pub checked_inputs :
    DeskState
    → DeskDecision
    → DeskSnapshot
    → DeskContract
    → DeskQuote
    → ℕ
    → Outcome DeskFailure (Unit {0})
checked_inputs s d snap c q now = do
  raise_if (not (fresh (some q) now) || not (is_fresh now snap.spot_at (seconds 180))) stale_input
  raise_if (is_limit_hit s s.realized_pnl) limit_blocks_entry
  raise_if (leb c.expiry s.day) expiry_day
  raise_if (not (is_nonempty (entry_evidence snap.chart c.is_call d.strategy now))) no_evidence
  raise_if (is_some (entry_calendar_blocker snap.plan.current_events)) calendar_blocked

-- `cost` of the fill
unfoldable pub entry_cost : ℕ → DeskContract → DeskQuote → ℕ → ℕ
entry_cost rupee c q quantity =
    let value = entry_price c q * quantity in value + charge rupee value Side.buy

-- the position that is opened
unfoldable pub opened_position :
    String → DeskContract → DeskQuote → EntryPlan → ExitLevels → ℕ → ℕ → DeskPosition
opened_position call_id c q p l cost now = record {
  id = call_id;
  contract = c;
  quantity = p.quantity;
  entry = entry_price c q;
  entry_cost_remaining = pos cost;
  stop = l.stop;
  target = l.target;
  entered_at = now;
  exit_deadline = some (now + seconds (l.max_hold_minutes * 60));
  plan = some (record { is_call = p.is_call; invalidation = p.underlying_invalidation });
  last_exit_quote = none;
  exit_pending = none;
  mark = none;
  mark_at = none;
}

-- the state after an entry
unfoldable pub entered :
    DeskState → String → DeskContract → DeskQuote → EntryPlan → ExitLevels → ℕ → ℕ → DeskState
entered s call_id c q p l cost now = record s {
  cash = s.cash -ℤ pos cost;
  position = some (opened_position call_id c q p l cost now);
  entries = s.entries + 1;
}

-- the branch of a purchase
unfoldable pub buy_position :
    DeskEnvironment
    → DeskState
    → DeskDecision
    → DeskSnapshot
    → String
    → DeskContract
    → DeskQuote
    → Sample
    → ℕ
    → Outcome DeskFailure (DeskState × List DeskEvent)
buy_position env s d snap call_id c q underlying now = do
  checked_state env s d now
  checked_inputs s d snap c q now
  valid ←
      validate_plan (record snap.plan { contract = c }) s d.plan_id d.symbol d.strategy q underlying
        now
  ok (
    entered s call_id c q valid.0 valid.1 (entry_cost snap.plan.rupee c q valid.0.quantity) now,
    paper_entry call_id valid.0.quantity (pos (entry_cost snap.plan.rupee c q valid.0.quantity))
        ∷ [],
  )

abbrev same_id : Option DeskPosition → Option DeskPosition → Bool
same_id (some p) (some q) = str_eq p.id q.id
same_id _ _ = false

-- the branches of `_apply`, with the event of the decision
unfoldable pub decided_state :
    DeskEnvironment
    → DeskState
    → DeskDecision
    → DeskSnapshot
    → Feed
    → String
    → ℕ
    → Action
    → Outcome DeskFailure (DeskState × List DeskEvent)
decided_state env s d snap feed call_id now buy_action = do
  c ← or_raise feed.selected unknown_contract
  q ← or_raise feed.quote market_unavailable
  underlying ← or_raise feed.underlying market_unavailable
  done ← buy_position env s d snap call_id c q underlying now
  ok (done.0, ai_decision ∷ done.1)
decided_state env s d snap feed call_id now exit_action = ok (
  s,
  ai_decision
      ∷ (if same_id s.position snap.position && holds_symbol d.symbol s.position
          then ai_exit_advisory ∷ []
          else []),
)
decided_state env s d snap feed call_id now hold_action = ok (s, ai_decision ∷ [])

-- `_apply` on the latest state; `is_completed_call` tells whether the call is stored as completed, and the
-- last component whether it is marked as applied
unfoldable pub apply_decision :
    DeskEnvironment
    → DeskState
    → DeskDecision
    → DeskSnapshot
    → Feed
    → String
    → (is_completed_call : Bool) → ℕ
    → Outcome DeskFailure (DeskState × List DeskEvent × Bool)
apply_decision env s d snap feed call_id is_completed_call now = do
  prepared d snap feed
  if not (s.day == snap.day) || (not (is_running s.status) || not is_completed_call)
      then ok (s, [], false)
      else decided_state env s d snap feed call_id now d.action >>= λ done.
          ok (done.0, done.1, true)
