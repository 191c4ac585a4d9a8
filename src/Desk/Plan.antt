-- ===== src/Desk/Plan.antt =====
-- `validate_plan` and `quote_quality_failures` of src/kiwit/playbooks.py and `entry_evidence` of
-- src/kiwit/chart_analysis.py. The catalogue of playbooks is an argument, and so is whether the
-- fingerprint of a plan is its identity. A share of a price is compared without the quotient.
use kiwi_t.Prelude.{
  ℕ, ◌-◌, ◌*◌, String, Bool, true, false, not, ◌&&◌, ◌||◌, ltb, leb, ◌==◌, Option, none, some, List,
  [], ◌∷◌, if◌then◌else◌, str_eq, is_fresh, Outcome, ok, err, ◌>>=◌, ◌>>◌, raise_if, or_raise,
}
use kiwi_t.Prelude.Int.{pos, leb_ℤ, ltb_ℤ}
use kiwi_t.Prelude.Scaling.{times}
use kiwi_t.Calendar.{seconds}
use kiwi_t.Options.Costs.{fill_price}
use kiwi_t.Options.Sizing.{OptionQuote, trade_limits, quantity_for}
use kiwi_t.Options.Exits.{ExitProfile, ExitLevels, ExitFailure, exit_levels}
use kiwi_t.Options.Gate.{EventContext}
use kiwi_t.Desk.Clock.{age_ok}
use kiwi_t.Desk.State.{DeskState, DeskContract, DeskQuote, options_state}
use kiwi_t.Desk.Exit.{Sample}

pub data DeskFailure : Type 0 where
  unknown_contract exit_without_position market_unavailable entry_blocked cooling stale_input
        limit_blocks_entry expiry_day no_evidence calendar_blocked unknown_plan plan_altered
        plan_mismatch plan_expired limits_changed profile_changed calendar_unclear stale_underlying
        trigger_invalid quote_rejected quantity_unfit exits_refused reward_too_small invalid_limits
        limits_immutable not_reconciled outside_hours not_configured halt_active invalid_settlement
        different_evidence position_changed not_expired :
      DeskFailure

-- a plan of the selection; the patterns and features that it carries are left out
pub record EntryPlan : Type 0 where
  pub id : String
  pub is_intact : Bool
  pub symbol : String
  pub strategy : String
  pub created_at : ℕ
  pub expires_at : ℕ
  pub loss_pct : ℕ
  pub profit_pct : ℕ
  pub playbook_id : String
  pub live_exit : ExitProfile
  pub is_call : Bool
  pub underlying_trigger : ℕ
  pub underlying_invalidation : ℕ
  pub underlying_max_chase : ℕ
  pub max_fill : ℕ
  pub quantity : ℕ

pub record Playbook : Type 0 where
  pub id : String
  pub live_exit : ExitProfile

-- a pattern of the chart; the direction is bullish or not
pub record Pattern : Type 0 where
  pub is_bullish : Bool
  pub strategy : String
  pub at : ℕ

-- the analysis of the chart; of its version, whether it is the present one
pub record ChartAnalysis : Type 0 where
  pub ready : Bool
  pub is_present_version : Bool
  pub at : ℕ
  pub patterns : List Pattern

abbrev same_bool : Bool → Bool → Bool
same_bool true b = b
same_bool false b = not b

unfoldable pub matching : List Pattern → Bool → String → ℕ → List Pattern
matching [] is_call strategy now = []
matching (p ∷ rest) is_call strategy now =
    let later = matching rest is_call strategy now in
    if same_bool p.is_bullish is_call
      && (str_eq p.strategy strategy && is_fresh now p.at (seconds 300))
    then p ∷ later
    else later

-- `entry_evidence`
unfoldable pub entry_evidence : Option ChartAnalysis → Bool → String → ℕ → List Pattern
entry_evidence none is_call strategy now = []
entry_evidence (some a) is_call strategy now =
    if not a.ready || (not a.is_present_version || not (is_fresh now a.at (seconds 180)))
    then []
    else matching a.patterns is_call strategy now

-- `0 < bid <= ask`
abbrev pub has_prices : OptionQuote → Bool
has_prices b = ltb 0 b.bid && leb b.bid b.ask

-- `quote_quality_failures` finds something: the age, or the spread of more than a fiftieth of the ask
unfoldable pub is_poor : DeskQuote → ℕ → Bool
is_poor q now =
    not (is_fresh now q.stamp (seconds 90))
    || (not (has_prices q.book) || ltb q.book.ask ((q.book.ask - q.book.bid) * 50))

unfoldable pub find_plan : String → List EntryPlan → Option EntryPlan
find_plan id [] = none
find_plan id (p ∷ rest) = if str_eq p.id id then some p else find_plan id rest

unfoldable pub find_playbook : String → List Playbook → Option Playbook
find_playbook id [] = none
find_playbook id (p ∷ rest) = if str_eq p.id id then some p else find_playbook id rest

-- equality of two exit profiles
unfoldable pub same_profile : ExitProfile → ExitProfile → Bool
same_profile a b =
    a.stop_pct == b.stop_pct
    && (a.target_pct == b.target_pct
        && (a.reward_r == b.reward_r
            && (a.max_hold_minutes == b.max_hold_minutes && a.max_cost_share == b.max_cost_share)))

-- `coverage` is configured and `risk` is clear
unfoldable pub is_clear : EventContext → Bool
is_clear c = str_eq c.coverage "configured" && str_eq c.risk "clear"

-- the order of invalidation, trigger, spot and chase
unfoldable pub is_triggered : EntryPlan → ℕ → Bool
is_triggered p spot =
    if p.is_call
    then ltb p.underlying_invalidation p.underlying_trigger
      && (leb p.underlying_trigger spot && leb spot p.underlying_max_chase)
    else leb p.underlying_max_chase spot
      && (leb spot p.underlying_trigger && ltb p.underlying_trigger p.underlying_invalidation)

-- what `validate_plan` is given of the snapshot, of the feed and of the calendar
pub record PlanContext : Type 0 where
  pub is_present_selector : Bool
  pub plans : List EntryPlan
  pub playbooks : List Playbook
  pub decided_events : EventContext
  pub current_events : EventContext
  pub spot_at : ℕ
  pub contract : DeskContract
  pub rupee : ℕ
  pub divide_up : ℕ → ℕ → ℕ

-- the price at which a contract is bought
unfoldable pub entry_price : DeskContract → DeskQuote → ℕ
entry_price c q = fill_price c.terms.tick q.book.ask true

-- the exits of a plan at its fill
unfoldable pub plan_exits :
    PlanContext → DeskState → EntryPlan → DeskQuote → Outcome ExitFailure ExitLevels
plan_exits x s p q =
    exit_levels x.divide_up (options_state s)
      (record {
        rupee = x.rupee;
        price = entry_price x.contract q;
        units = p.quantity;
        tick = x.contract.terms.tick;
      })
      p.live_exit

abbrev pub exits_or : Outcome ExitFailure ExitLevels → Outcome DeskFailure ExitLevels
exits_or (ok l) = ok l
exits_or (err e) = err exits_refused

-- the reward at the target is positive and, per risk, what the profile asks for
unfoldable pub is_unrewarded : EntryPlan → ExitLevels → Bool
is_unrewarded p l =
    leb_ℤ l.net_reward_at_target (pos 0)
    || ltb_ℤ (times 1_000_000 l.net_reward_at_target) (times p.live_exit.reward_r l.net_risk)

-- the tests on the plan alone
unfoldable pub checked_plan :
    PlanContext → DeskState → String → String → EntryPlan → ℕ → Outcome DeskFailure (Unit {0})
checked_plan x s symbol strategy p now = do
  raise_if (not x.is_present_selector) unknown_plan
  raise_if (not p.is_intact) plan_altered
  raise_if (not (str_eq p.symbol symbol && str_eq p.strategy strategy)) plan_mismatch
  raise_if (not (leb p.created_at now && ltb now p.expires_at)) plan_expired
  raise_if
      (not (
        p.loss_pct == (trade_limits (options_state s)).0
        && p.profit_pct == (trade_limits (options_state s)).1))
      limits_changed
  playbook ← or_raise (find_playbook p.playbook_id x.playbooks) profile_changed
  raise_if (not (same_profile p.live_exit playbook.live_exit)) profile_changed

-- the tests on the calendar, the underlying and the quote
unfoldable pub checked_market :
    PlanContext → DeskState → EntryPlan → DeskQuote → Sample → ℕ → Outcome DeskFailure ExitLevels
checked_market x s p q underlying now = do
  raise_if (not (is_clear x.decided_events && is_clear x.current_events)) calendar_unclear
  raise_if (not (age_ok (some underlying.at) now 180) || ltb underlying.at x.spot_at)
      stale_underlying
  raise_if (not (is_triggered p underlying.spot)) trigger_invalid
  raise_if (is_poor q now || ltb p.max_fill (entry_price x.contract q)) quote_rejected
  raise_if
      (p.quantity == 0
        || ltb (quantity_for x.rupee (options_state s) x.contract.terms q.book) p.quantity)
      quantity_unfit
  l ← exits_or (plan_exits x s p q)
  raise_if (is_unrewarded p l) reward_too_small
  ok l

-- `validate_plan`, with the exits that its caller computes again
unfoldable pub validate_plan :
    PlanContext
    → DeskState
    → String
    → String
    → String
    → DeskQuote
    → Sample
    → ℕ
    → Outcome DeskFailure (EntryPlan × ExitLevels)
validate_plan x s plan_id symbol strategy q underlying now = do
  p ← or_raise (find_plan plan_id x.plans) unknown_plan
  checked_plan x s symbol strategy p now
  l ← checked_market x s p q underlying now
  ok (p, l)
