-- ===== src/Desk/Tests/Morning.antt =====
-- What the morning of the desk leaves in the tables of src/kiwit/banknifty.py.
use kiwi_t.Prelude.{
  ℕ, ◌+◌, ◌-◌, ◌*◌, ◌≤◌, ◌≡◌, refl, ◌⊎◌, String, Bool, true, false, ◌==◌, ◌&&◌, Option, none, some,
  List, [], ◌∷◌, arith, All, Returning, ok, Outcome, length,
}
use kiwi_t.Prelude.Int.{ℤ, pos, ◌+ℤ◌, ◌-ℤ◌}
use kiwi_t.Calendar.{ist_date}
use kiwi_t.Options.Sizing.{Contract, OptionQuote}
use kiwi_t.Options.Exits.{ExitProfile, ExitLevels}
use kiwi_t.Options.Costs.{fill_price}
use kiwi_t.Options.Gate.{EventContext}
use kiwi_t.Desk.State.{
  DeskState, DeskStatus, running, stopping, completed, is_running, is_completed, DeskContract,
  DeskQuote, DeskPosition, DeskArithmetic,
}
use kiwi_t.Desk.Exit.{Sample, fresh}
use kiwi_t.Desk.Clock.{market_window, is_regular, regular_session}
use kiwi_t.Desk.Monitor.{DeskEnvironment, monitor}
use kiwi_t.Desk.Plan.{EntryPlan, Playbook, Pattern, ChartAnalysis, PlanContext}
use kiwi_t.Desk.Entry.{buy_action, DeskDecision, DeskSnapshot, Feed, apply_decision}
use kiwi_t.Desk.Session.{Limits, new_session, stop}
use kiwi_t.Desk.Calls.{charged, total, on_day}
use kiwi_t.Desk.Run.{
  empty_desk, latest, Desk, Operation, starting, stopping_session, monitoring, reserving,
  concluding, applying, Moment, perform_all,
}
use kiwi_t.Desk.Tests.{arithmetic, upper, morning}

-- the entries of the morning, whether its session is complete, and the day's calls
abbrev outcome : Desk → ℕ × Bool × ℕ
outcome desk = elim (latest desk.sessions) [
  | none ↦ (0, false, 0)
  | some s ↦ (s.entries, is_completed s.status, total (on_day 20459) desk.calls)
]

test_morning : outcome (perform_all arithmetic upper morning empty_desk) ≡ (1, true, 1_000)
unfolding kiwi_t.Desk.Clock.regular_session kiwi_t.Desk.Clock.is_regular
    kiwi_t.Desk.Clock.entry_window kiwi_t.Desk.Clock.market_window kiwi_t.Desk.Clock.is_flattening
    kiwi_t.Desk.Clock.age_ok kiwi_t.Desk.State.options_state kiwi_t.Desk.Exit.fresh
    kiwi_t.Desk.Exit.exit_quantity kiwi_t.Desk.Exit.exit_price kiwi_t.Desk.Exit.is_unsellable
    kiwi_t.Desk.Exit.reduced kiwi_t.Desk.Exit.credited kiwi_t.Desk.Exit.after_sale
    kiwi_t.Desk.Exit.sell_position kiwi_t.Desk.Exit.close_at kiwi_t.Desk.Monitor.is_limit_hit
    kiwi_t.Desk.Monitor.is_ending kiwi_t.Desk.Monitor.ticked kiwi_t.Desk.Monitor.exit_reason
    kiwi_t.Desk.Monitor.flat kiwi_t.Desk.Monitor.marked kiwi_t.Desk.Monitor.close_if
    kiwi_t.Desk.Monitor.valued kiwi_t.Desk.Monitor.watched kiwi_t.Desk.Monitor.monitor_open
    kiwi_t.Desk.Monitor.monitor kiwi_t.Desk.Plan.matching kiwi_t.Desk.Plan.entry_evidence
    kiwi_t.Desk.Plan.is_poor kiwi_t.Desk.Plan.find_plan kiwi_t.Desk.Plan.find_playbook
    kiwi_t.Desk.Plan.same_profile kiwi_t.Desk.Plan.is_clear kiwi_t.Desk.Plan.is_triggered
    kiwi_t.Desk.Plan.entry_price kiwi_t.Desk.Plan.plan_exits kiwi_t.Desk.Plan.is_unrewarded
    kiwi_t.Desk.Plan.checked_plan kiwi_t.Desk.Plan.checked_market kiwi_t.Desk.Plan.validate_plan
    kiwi_t.Desk.Entry.prepared kiwi_t.Desk.Entry.checked_state kiwi_t.Desk.Entry.checked_inputs
    kiwi_t.Desk.Entry.opened_position kiwi_t.Desk.Entry.entered kiwi_t.Desk.Entry.buy_position
    kiwi_t.Desk.Entry.decided_state kiwi_t.Desk.Entry.apply_decision
    kiwi_t.Desk.Session.validate_limits kiwi_t.Desk.Session.new_session kiwi_t.Desk.Session.begin
    kiwi_t.Desk.Session.start_on kiwi_t.Desk.Session.start kiwi_t.Desk.Session.stop
    kiwi_t.Desk.Calls.total kiwi_t.Desk.Calls.first_rows kiwi_t.Desk.Calls.is_circuit_open
    kiwi_t.Desk.Calls.newest_calls kiwi_t.Desk.Calls.is_budget_spent kiwi_t.Desk.Calls.new_call
    kiwi_t.Desk.Calls.insert_call kiwi_t.Desk.Calls.reserve kiwi_t.Desk.Calls.update_calls
    kiwi_t.Desk.Calls.settle_call kiwi_t.Desk.Calls.mark_applied kiwi_t.Desk.Calls.is_call_completed
    kiwi_t.Desk.Run.newer kiwi_t.Desk.Run.latest kiwi_t.Desk.Run.save_session kiwi_t.Desk.Run.commit
    kiwi_t.Desk.Run.commit_final kiwi_t.Desk.Run.perform_start kiwi_t.Desk.Run.perform_on
    kiwi_t.Desk.Run.perform_first kiwi_t.Desk.Run.perform kiwi_t.Desk.Run.perform_all
    kiwi_t.Options.Costs.cost_breakdown kiwi_t.Options.Costs.fees kiwi_t.Options.Costs.fill_price
    kiwi_t.Options.Sizing.trade_limits kiwi_t.Options.Sizing.session_limit_reached
    kiwi_t.Options.Sizing.allocation_budget kiwi_t.Options.Sizing.planned_risk_budget
    kiwi_t.Options.Sizing.cash_budget kiwi_t.Options.Sizing.daily_risk_budget
    kiwi_t.Options.Sizing.entry_unit kiwi_t.Options.Sizing.risk_unit
    kiwi_t.Options.Sizing.budget_units kiwi_t.Options.Sizing.whole
    kiwi_t.Options.Sizing.quantity_for kiwi_t.Options.Exits.limited kiwi_t.Options.Exits.is_valid
    kiwi_t.Options.Exits.stop_price kiwi_t.Options.Exits.entry_total kiwi_t.Options.Exits.proceeds
    kiwi_t.Options.Exits.net_risk kiwi_t.Options.Exits.target_floor
    kiwi_t.Options.Exits.desired_reward kiwi_t.Options.Exits.required_proceeds
    kiwi_t.Options.Exits.tick_proceeds kiwi_t.Options.Exits.net_reward
    kiwi_t.Options.Exits.is_enough kiwi_t.Options.Exits.round_trip_cost
    kiwi_t.Options.Exits.is_costly kiwi_t.Options.Exits.accept kiwi_t.Options.Exits.search_target
    kiwi_t.Options.Exits.first_target kiwi_t.Options.Exits.exit_levels
    kiwi_t.Options.Gate.entry_calendar_blocker kiwi_t.Calendar.ist_date
    kiwi_t.Prelude.Queries.select kiwi_t.Prelude.Queries.select_all
    kiwi_t.Prelude.Queries.insert_row kiwi_t.Prelude.Queries.sort_rows kiwi_t.Prelude.Int.◌+ℤ◌
    kiwi_t.Prelude.Int.◌-ℤ◌ kiwi_t.Prelude.Int.diff kiwi_t.Prelude.Scaling.times
test_morning = refl
