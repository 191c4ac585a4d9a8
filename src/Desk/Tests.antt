-- ===== src/Desk/Tests.antt =====
-- A morning of the desk: a start, a call of the model, an entry, and a stop that sells in two parts.
mod Morning
use kiwi_t.Prelude.{
  ℕ, ◌+◌, ◌-◌, ◌*◌, ◌≤◌, ◌≡◌, refl, ◌⊎◌, String, Bool, true, false, ◌==◌, ◌&&◌, Option, none, some,
  List, [], ◌∷◌, arith, All, Returning, ok, Outcome, length,
}
use kiwi_t.Prelude.Int.{ℤ, pos, ◌+ℤ◌, ◌-ℤ◌}
use kiwi_t.Calendar.{ist_date}
use kiwi_t.Simulator.Price.{ceil_div}
use kiwi_t.Options.Sizing.{Contract, OptionQuote}
use kiwi_t.Options.Exits.{ExitProfile, ExitLevels}
use kiwi_t.Options.Costs.{fill_price}
use kiwi_t.Options.Gate.{EventContext}
use kiwi_t.Desk.State.{
  DeskState, DeskStatus, running, stopping, completed, is_running, is_completed, DeskContract,
  DeskQuote, DeskPosition, DeskArithmetic,
}
use kiwi_t.Desk.Exit.{Sample, fresh}
use kiwi_t.Desk.Clock.{market_window, is_regular, regular_session}
use kiwi_t.Desk.Monitor.{DeskEnvironment, monitor}
use kiwi_t.Desk.Plan.{EntryPlan, Playbook, Pattern, ChartAnalysis, PlanContext}
use kiwi_t.Desk.Entry.{buy_action, DeskDecision, DeskSnapshot, Feed, apply_decision}
use kiwi_t.Desk.Session.{Limits, new_session, stop}
use kiwi_t.Desk.Calls.{charged, total, on_day}
use kiwi_t.Desk.Run.{
  empty_desk, latest, Desk, Operation, starting, stopping_session, monitoring, reserving,
  concluding, applying, Moment, perform_all,
}
use kiwi_t.Desk.Books.{RoundsWithin}
use kiwi_t.Desk.Tables.{IsBooked}
use kiwi_t.Desk.Accounts.{perform_all-IsBooked}
use kiwi_t.Desk.Safety.{IsEntry, apply_decision-IsEntry}
use kiwi_t.Desk.Phases.{Phase, closing, Represents, Steps, by_stop, by_monitor}
use kiwi_t.Desk.Refinement.{Transitions, none_yet, followed, stops, monitors, Transitions-refines}
use kiwi_t.Desk.Budget.{IsWithinBudget}
use kiwi_t.Desk.Spending.{perform_all-IsWithinBudget}
use kiwi_t.Desk.Flattening.{Observation, monitor_all, IsExecutable}
use kiwi_t.Desk.Liquidation.{monitor_all-completes}

-- a second of the sixth of January 2026 in India
abbrev at : ℕ → ℕ
at second = 20459 * 86_400_000_000 + second * 1_000_000 - 19_800_000_000

abbrev arithmetic : DeskArithmetic
arithmetic = record { rupee = 100; share = λ (x : ℤ) n d. x; quantize = λ (x : ℤ). x }

abbrev upper : String → String
upper s = s

abbrev switched_on : DeskEnvironment
switched_on = record { enabled = true; halted = false }

abbrev limits : Limits
limits = record {
  amount = 10_000_000;
  loss_pct = 30_000;
  profit_pct = 60_000;
  trade_stop_pct = some 150_000;
  trade_target_pct = some 300_000;
  session_profit_cap_enabled = true;
}

abbrev call_option : DeskContract
call_option = record {
  symbol = "BN";
  is_call = true;
  expiry = 20470;
  terms = record { tick = 5; lot = 15; freeze = 900 };
}

abbrev quote_at : ℕ → ℕ → DeskQuote
quote_at second size = record {
  stamp = at second;
  book = record { bid = 9_995; ask = 10_000; bid_size = size; ask_size = size };
}

abbrev profile : ExitProfile
profile = record {
  stop_pct = 120_000;
  target_pct = 200_000;
  reward_r = 1_500_000;
  max_hold_minutes = 45;
  max_cost_share = 250_000;
}

abbrev clear_day : EventContext
clear_day = record { coverage = "configured"; risk = "clear"; reason_code = none }

abbrev breakout_plan : EntryPlan
breakout_plan = record {
  id = "plan";
  is_intact = true;
  symbol = "BN";
  strategy = "breakout";
  created_at = at 36_000;
  expires_at = at 36_600;
  loss_pct = 150_000;
  profit_pct = 300_000;
  playbook_id = "book";
  live_exit = profile;
  is_call = true;
  underlying_trigger = 5_000;
  underlying_invalidation = 4_900;
  underlying_max_chase = 5_100;
  max_fill = 10_100;
  quantity = 30;
}

abbrev snapshot : DeskSnapshot
snapshot = record {
  day = 20459;
  position = none;
  spot_at = at 36_000;
  chart = some (record {
    ready = true;
    is_present_version = true;
    at = at 36_000;
    patterns = (record { is_bullish = true; strategy = "breakout"; at = at 36_000 }) ∷ [];
  });
  plan = record {
    is_present_selector = true;
    plans = breakout_plan ∷ [];
    playbooks = (record { id = "book"; live_exit = profile }) ∷ [];
    decided_events = clear_day;
    current_events = clear_day;
    spot_at = at 36_000;
    contract = call_option;
    rupee = 100;
    divide_up = ceil_div;
  };
}

abbrev decision : DeskDecision
decision = record { action = buy_action; symbol = "BN"; strategy = "breakout"; plan_id = "plan" }

abbrev spot : Sample
spot = record { at = at 36_010; spot = 5_050 }

abbrev feed : Feed
feed = record {
  selected = some call_option;
  quote = some (quote_at 36_010 600);
  underlying = some spot;
}

abbrev moment : ℕ → Operation → Moment
moment second op = record { env = switched_on; now = at second; operation = op }

abbrev morning : List Moment
morning =
    moment 35_990 (starting true limits)
    ∷ moment 36_000 (reserving (record { call = true; kind = "TIMER" }) "" "call" (at 36_000))
    ∷ moment 36_010 (concluding "call" (some "BUY") (charged 1_000))
    ∷ moment 36_020 (applying decision snapshot feed "call")
    ∷ moment 36_060 stopping_session
    ∷ moment 36_070 (monitoring (some "call") (some (quote_at 36_065 20)) none)
    ∷ moment 36_080 (monitoring (some "call") (some (quote_at 36_075 20)) none)
    ∷ []

exact : RoundsWithin 0 arithmetic
exact x = record { above = omega arith; below = omega arith }

perform_all-IsBooked_example : IsBooked 0 (perform_all arithmetic upper morning empty_desk)
perform_all-IsBooked_example = perform_all-IsBooked 0 arithmetic exact upper morning empty_desk tt

perform_all-IsWithinBudget_example :
    IsWithinBudget (perform_all arithmetic upper morning empty_desk).calls
unfolding total
perform_all-IsWithinBudget_example =
    perform_all-IsWithinBudget arithmetic upper morning empty_desk
      (tt, (tt, (omega arith, (tt, (tt, (tt, (tt, tt)))))))
      (record { held = tt; daily = λ day. omega arith })

abbrev fresh_session : DeskState
fresh_session = new_session limits (at 35_990)

apply_decision-IsEntry_example :
    Returning
      (λ r.
        (r.0 ≡ fresh_session)
        ⊎ ((is_running fresh_session.status ≡ true)
            × ((fresh_session.day == snapshot.day) ≡ true)
            × (true ≡ true)
            × IsEntry switched_on fresh_session decision snapshot feed "call" (at 36_020) r.0))
      (apply_decision switched_on fresh_session decision snapshot feed "call" true (at 36_020))
apply_decision-IsEntry_example =
    apply_decision-IsEntry switched_on fresh_session decision snapshot feed "call" true (at 36_020)

abbrev position : DeskPosition
position = record {
  id = "call";
  contract = call_option;
  quantity = 30;
  entry = 10_015;
  entry_cost_remaining = pos 302_000;
  stop = 8_810;
  target = 12_080;
  entered_at = at 36_020;
  exit_deadline = none;
  plan = none;
  last_exit_quote = none;
  exit_pending = none;
  mark = none;
  mark_at = none;
}

abbrev closing_session : DeskState
closing_session = record fresh_session {
  position = some position;
  status = stopping;
  cash = pos 9_698_000;
}

abbrev observation : ℕ → Observation
observation second = record {
  env = switched_on;
  now = at (second + 5);
  quote = quote_at second 20;
  underlying = none;
}

test_executable :
    (fresh (some (quote_at 36_065 20)) (at 36_070) && market_window (at 36_070)) ≡ true
unfolding fresh market_window is_regular regular_session ist_date
test_executable = refl

executable :
    IsExecutable call_option (observation 36_065)
    × (IsExecutable call_option (observation 36_075) × Unit {0})
unfolding fresh market_window is_regular regular_session fill_price ist_date
executable = (
  record { timely = refl; in_market = refl; unexpired = refl; deep = omega arith; priced = refl },
  (
    record { timely = refl; in_market = refl; unexpired = refl; deep = omega arith; priced = refl },
    tt,
  ),
)

monitor_all-completes_example :
    ((monitor_all arithmetic
        (observation 36_065 ∷ observation 36_075 ∷ [])
        closing_session).position
      ≡ none)
    × ((monitor_all arithmetic
          (observation 36_065 ∷ observation 36_075 ∷ [])
          closing_session).status
        ≡ completed)
monitor_all-completes_example =
    monitor_all-completes arithmetic (observation 36_065 ∷ observation 36_075 ∷ []) closing_session
      position 2 refl refl (omega arith) refl refl executable (refl, (refl, tt)) (omega arith)

abbrev stopped : DeskState
stopped = (stop closing_session).0

stopped_then_watched :
    Transitions
      (by_stop ∷ by_monitor ∷ [])
      closing_session
      (monitor arithmetic switched_on stopped
        (some "call")
        (some (quote_at 36_065 600))
        none
        (at 36_070)).0
stopped_then_watched = followed (stops closing_session) (
    followed
      (monitors arithmetic switched_on stopped (some "call") (some (quote_at 36_065 600)) none
        (at 36_070))
      none_yet)

Transitions-refines_example :
    (b : Phase) × Steps (by_stop ∷ by_monitor ∷ []) closing b
    × Represents b
        (monitor arithmetic switched_on stopped
          (some "call")
          (some (quote_at 36_065 600))
          none
          (at 36_070)).0
Transitions-refines_example = Transitions-refines closing (refl, refl) stopped_then_watched
