-- ===== src/Options/Tests.antt =====
-- An event that fails and is retried; an option contract that is sized, priced and entered.
use kiwi_t.Prelude.{
  ℕ, ◌+◌, ◌*◌, ◌≤◌, ◌<◌, ◌≡◌, ◌≢◌, refl, String, true, false, List, [], ◌∷◌, length, arith, Option,
  none, some, ok, err, Outcome, Returning, ◌↔◌,
}
use kiwi_t.Prelude.Int.{pos, ◌+ℤ◌, ◌-ℤ◌, diff}
use kiwi_t.Prelude.Scaling.{times}
use kiwi_t.Simulator.Price.{ceil_div}
use kiwi_t.Simulator.Rounding.{ceil_div_bounds}
use kiwi_t.Options.Costs.{fees, cost_breakdown, gst_on, fill_price}
use kiwi_t.Options.Sizing.{
  OptionsState, Contract, OptionQuote, trade_limits, session_limit_reached, allocation_budget,
  planned_risk_budget, cash_budget, daily_risk_budget, entry_unit, risk_unit, budget_units, whole,
  quantity_for, sizing_diagnostics,
}
use kiwi_t.Options.Capacities.{
  IsAffordable, quantity_for-IsAffordable, whole_lot_quantity-explained,
}
use kiwi_t.Options.Exits.{
  ExitProfile, ExitFailure, Entry, ExitLevels, search_exhausted, exit_levels, limited, is_valid,
  stop_price, entry_total, proceeds, net_risk, target_floor, desired_reward, required_proceeds,
  tick_proceeds, net_reward, is_enough, round_trip_cost, is_costly, accept, search_target,
  first_target,
}
use kiwi_t.Options.Targets.{IsWorthwhile, exit_levels-IsWorthwhile}
use kiwi_t.Options.TargetSearch.{exit_levels-IsFound}
use kiwi_t.Options.Gate.{
  EntryReason, EventContext, entry_gate, entry_reasons, cooldown_remaining, calendar_blocker,
  entry_calendar_blocker, daily_entry_cap, one_position_active,
}
use kiwi_t.Options.GateLaws.{MayEnter, entry_gate-allowed}
use kiwi_t.Options.Reconsider.{
  max_event_attempts, Trigger, Attempt, is_retryable, reconsider_called, reconsider_event, Poll,
  poll_all,
}
use kiwi_t.Options.Attempts.{MayRetry, reconsider_event-due, poll_all-bound}

abbrev trigger : Trigger
trigger = record { call = true; kind = "ELIGIBLE_PLAN_SET_CHANGED" }

abbrev failed : List Attempt
failed = (record { status = "failed"; created_at = 1000000; action = "HOLD" }) ∷ []

abbrev upper : String → String
upper s = s

-- two minutes after the failure, and a second before
test_due : (reconsider_event upper trigger failed 121000000).due ≡ true
unfolding reconsider_event reconsider_called is_retryable
test_due = refl

test_early : (reconsider_event upper trigger failed 120000000).reason ≡ "RECONSIDERATION_COOLDOWN"
unfolding reconsider_event reconsider_called is_retryable
test_early = refl

reconsider_event-due_example :
    (trigger.call ≡ true) × (length failed < max_event_attempts) × MayRetry trigger failed 121000000
reconsider_event-due_example = reconsider_event-due upper trigger failed 121000000 test_due

abbrev poll : Poll
poll = record { trigger = trigger; now = 121000000; status = "failed"; action = "HOLD" }

poll_all-bound_example : length (poll_all upper (poll ∷ poll ∷ []) failed) ≤ max_event_attempts
poll_all-bound_example = poll_all-bound upper (poll ∷ poll ∷ []) failed (omega arith)

-- a desk of a hundred thousand rupees, of a hundred grains each
abbrev desk : OptionsState
desk = record {
  amount = 10_000_000;
  cash = pos 10_000_000;
  realized_pnl = pos 0;
  loss_pct = 30_000;
  profit_pct = 60_000;
  trade_stop_pct = some 150_000;
  trade_target_pct = some 300_000;
  session_profit_cap_enabled = true;
  entries = 2;
  has_position = false;
  last_exit = none;
}

-- at 100 rupees a unit, in lots of 15
abbrev contract : Contract
contract = record { tick = 5; lot = 15; freeze = 900 }

abbrev quoted : OptionQuote
quoted = record { bid = 9_995; ask = 10_000; bid_size = 600; ask_size = 600 }

-- The planned risk of a thousand rupees allows 60 units, which are four lots.
test_quantity : quantity_for 100 desk contract quoted ≡ 60
unfolding quantity_for whole budget_units entry_unit risk_unit allocation_budget planned_risk_budget
    cash_budget daily_risk_budget trade_limits fill_price times diff ◌+ℤ◌
test_quantity = refl

some_quantity : 0 < quantity_for 100 desk contract quoted
some_quantity = rw test_quantity (omega arith)

quantity_for-IsAffordable_example :
    IsAffordable 100 desk contract quoted (quantity_for 100 desk contract quoted)
quantity_for-IsAffordable_example = quantity_for-IsAffordable 100 desk contract quoted some_quantity

whole_lot_quantity-explained_example :
    (sizing_diagnostics 100 desk contract quoted).whole_lot_quantity
    ≡ whole 15 (sizing_diagnostics 100 desk contract quoted).raw_units
whole_lot_quantity-explained_example = whole_lot_quantity-explained 100 desk contract quoted

abbrev bought : Entry
bought = record { rupee = 100; price = 10_015; units = 60; tick = 5 }

abbrev profile : ExitProfile
profile = record {
  stop_pct = 120_000;
  target_pct = 200_000;
  reward_r = 1_500_000;
  max_hold_minutes = 45;
  max_cost_share = 250_000;
}

-- The quotient rounded up, exact.
up_near : (n d : ℕ) → 0 < d → n ≤ (ceil_div n d + 2) * d
up_near n d h = grind (arith, ceil_div_bounds n d h)

exit_levels-IsWorthwhile_example :
    Returning
      (IsWorthwhile bought (limited desk profile))
      (exit_levels ceil_div desk bought profile)
exit_levels-IsWorthwhile_example = exit_levels-IsWorthwhile ceil_div desk bought profile

exit_levels-IsFound_example : exit_levels ceil_div desk bought profile ≢ err search_exhausted
exit_levels-IsFound_example = exit_levels-IsFound ceil_div desk bought profile up_near

abbrev clear_day : Option EventContext
clear_day = some (record { coverage = "configured"; risk = "clear"; reason_code = none })

test_allowed : (entry_gate desk 5_000_000 true clear_day).allowed ≡ true
unfolding entry_gate entry_reasons cooldown_remaining calendar_blocker entry_calendar_blocker
    session_limit_reached times diff ◌+ℤ◌
test_allowed = refl

entry_gate-allowed_example :
    ((entry_gate desk 5_000_000 true clear_day).allowed ≡ true)
    ↔ MayEnter desk 5_000_000 true clear_day
entry_gate-allowed_example = entry_gate-allowed desk 5_000_000 true clear_day

abbrev two_reasons : List EntryReason
two_reasons = one_position_active ∷ daily_entry_cap ∷ one_position_active ∷ []

abbrev stop_and_target : Outcome ExitFailure ExitLevels → ℕ × ℕ
stop_and_target (ok l) = (l.stop, l.target)
stop_and_target (err x) = (0, 0)

test_exit : stop_and_target (exit_levels ceil_div desk bought profile) ≡ (8_810, 12_080)
unfolding exit_levels limited is_valid stop_price entry_total proceeds net_risk target_floor
    desired_reward required_proceeds tick_proceeds net_reward is_enough round_trip_cost is_costly
    accept search_target first_target fees cost_breakdown gst_on trade_limits times diff ◌+ℤ◌ ◌-ℤ◌
    ceil_div
test_exit = refl
