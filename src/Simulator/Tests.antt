-- ===== src/Simulator/Tests.antt =====
-- A day of one order, and the theorems of the simulator at it.
use kiwi_t.Prelude.{
  map, ℕ, ◌+◌, ◌*◌, ◌≡◌, refl, Bool, true, none, some, List, [], ◌∷◌, ◌++◌, arith, ok, length, All,
}
use kiwi_t.Prelude.Int.{ℤ, pos, negsuc, ◌+ℤ◌, ◌-ℤ◌, diff}
use kiwi_t.Calendar.{TradingCalendar, session_at, session, is_open, bounds, ist_date}
use kiwi_t.Simulator.Types.{
  FillRules, Quote, Order, Instrument, Metadata, State, Account, pending, cancelled, instrument_eq,
  awaiting_quote, IsFillRules,
}
use kiwi_t.Simulator.Price.{price, rounded, projected_stop, abs_diff, gross}
use kiwi_t.Simulator.Step.{
  quote_order, quote_live, quote_pending, try_fill, is_refused, in_geometry, fill_risk, mark_of,
  fill_order, close_order, exit_position, stop_reached, target_reached, is_leaving, exit_reason,
  watch_position,
}
use kiwi_t.Simulator.Store.{
  Codec, Database, one, submit_request, cancel_request_of, session_request, quote_request,
  initialize, initial_state, state_row, event, record_event, lookup, verified_state, verified_reply,
  stored_state, sort_orders, insert_order, text_before, is_late,
}
use kiwi_t.Simulator.Methods.{
  TradeProposal, RiskDecision, approve, buy, Call, submit_call, on_quote_call, call, run, portfolio,
  find_order, checked_order, is_matched, is_ordered, has_prices, new_order, add_order, apply_quote,
  quote_orders, check_quote,
}
use kiwi_t.Simulator.Conservation.{locked_sum}
use kiwi_t.Simulator.Sound.{IsSound}
use kiwi_t.Simulator.Seals.{IsSealed, Extends}
use kiwi_t.Simulator.Lifecycle.{◌⟶◌, SameTerms}
use kiwi_t.Simulator.Retry.{call_twice}
use kiwi_t.Simulator.Guarantees.{
  conservation, orders-IsSound, portfolio_adds_up, rows_verify_and_clock_advances, dead_order_stays,
  quote_order-steps, fill_gate, Admitted,
}

abbrev codec : Codec
codec = record {
  json = λ q. elim q [
    | submit_request at o ↦ at
    | cancel_request_of at id ↦ at
    | session_request at ↦ at
    | quote_request now quote ↦ now * 7 + quote.bid
  ];
  hash_state = λ s. length s.orders;
  hash_reply = λ _. 3;
  isoformat = λ _. "2024-10-04T09:15:00+00:00";
}

abbrev calendar : TradingCalendar
calendar = record {
  version = "v1";
  sessions = (record { day = 20000; opens = 33300000000; closes = 55800000000 }) ∷ [];
}

-- 09:15 in India on day 20000
abbrev open_time : ℕ
open_time = 1728013500000000

abbrev rules : FillRules
rules = record { scale = 10000; slippage = 5; fee = 3; maximum_quote_age_seconds = 5 }

abbrev metadata : Metadata
metadata = record { calendar_version = "v1"; initial_capital = 10000000000; rules = rules }

abbrev infy : Instrument
infy = record { symbol = "INFY"; exchange = "NSE"; series = "EQ"; lot_size = 1; tick_size = 5 }

abbrev proposal : TradeProposal
proposal = record {
  proposal_id = "p1";
  instrument = infy;
  side = buy;
  signal_timestamp = open_time;
  entry_price = 10000;
  stop_price = 9900;
  target_price = some 10200;
}

abbrev approval : RiskDecision
approval = record { decision = approve; proposal_id = "p1"; quantity = 10; risk_budget = 30000000 }

abbrev quote_at : ℕ → ℕ → ℕ → Quote
quote_at t b a = record { instrument = infy; timestamp = t; bid = b; ask = a }

abbrev calls : List Call
calls =
    submit_call proposal approval (open_time + 1)
    ∷ on_quote_call "q1" (quote_at (open_time + 2) 9995 10000) (open_time + 3)
    ∷ []

abbrev stop_calls : List Call
stop_calls = on_quote_call "q2" (quote_at (open_time + 4) 9890 9895) (open_time + 5) ∷ []

abbrev fresh_db : Database
fresh_db = record { state = state_row codec (initial_state metadata); events = [] }

fresh : initialize codec metadata none ≡ ok fresh_db
unfolding initialize
fresh = refl

-- the stored state after the calls of the day
day : List Call → State
unfolding run call initial_state state_row checked_order session_at session is_open bounds ist_date
    is_matched is_ordered has_prices new_order event lookup record_event verified_state
    verified_reply is_late add_order find_order check_quote apply_quote quote_orders quote_order
    quote_live quote_pending try_fill is_refused in_geometry fill_risk mark_of fill_order price
    rounded projected_stop abs_diff gross instrument_eq ◌+ℤ◌ ◌-ℤ◌ locked_sum stored_state
    sort_orders insert_order text_before
day xs = (run codec calendar rules xs fresh_db).state.payload

-- Two orders that are submitted against the order of their keys are read back in that order.
submitted_in_reverse :
    map
      (λ (o : Order). o.id)
      (day (
        submit_call
          (record proposal { proposal_id = "p2" })
          (record approval { proposal_id = "p2" })
          (open_time + 1)
        ∷ submit_call proposal approval (open_time + 2)
        ∷ [])).orders
    ≡ "p1" ∷ "p2" ∷ []
unfolding day
submitted_in_reverse = refl

-- Ten shares are bought at 100.05 and sold at the stop.
day_fills :
    ((day calls).account.cash ≡ pos 8999199850) × (locked_sum (day calls).orders ≡ 1000800150)
unfolding day
day_fills = (refl, refl)

day_stops :
    let s = day (calls ++ stop_calls) in
    (s.account.realized_pnl ≡ negsuc 12596699) × (locked_sum s.orders ≡ 0)
unfolding day exit_position close_order stop_reached target_reached is_leaving exit_reason
    watch_position diff
day_stops = (refl, refl)

conservation_example :
    let s = (run codec calendar rules calls fresh_db).state.payload in
    s.account.cash +ℤ pos (locked_sum s.orders) ≡ pos 10000000000 +ℤ s.account.realized_pnl
conservation_example = conservation codec calendar metadata fresh_db fresh calls

orders-IsSound_example : All IsSound (run codec calendar rules calls fresh_db).state.payload.orders
orders-IsSound_example = orders-IsSound codec calendar metadata fresh_db fresh calls

portfolio_adds_up_example :
    let last = run codec calendar rules calls fresh_db in
    (t : ℤ × ℤ) × (portfolio codec rules last ≡ ok t)
    × (t.0 ≡ pos 10000000000 +ℤ last.state.payload.account.realized_pnl +ℤ t.1)
portfolio_adds_up_example = portfolio_adds_up codec calendar metadata fresh_db fresh calls

rows_verify_and_clock_advances_example :
    let middle = run codec calendar rules calls fresh_db in
    IsSealed codec middle × Extends codec middle (run codec calendar rules stop_calls middle)
rows_verify_and_clock_advances_example =
    rows_verify_and_clock_advances codec calendar metadata fresh_db fresh calls stop_calls

abbrev first_order : Order
first_order = record {
  id = "p1";
  instrument = infy;
  long = true;
  quantity = 10;
  stop = 9900;
  target = 10200;
  risk_budget = 30000000;
  submitted_at = open_time + 1;
  session_end = 1728036000000000;
  status = pending;
  fills = [];
  reason = awaiting_quote;
  entered = none;
  mark = none;
  realized_pnl = none;
}

abbrev cancelled_db : Database
cancelled_db = record {
  state = state_row codec (record {
    metadata = metadata;
    account = record { cash = pos 10000000000; realized_pnl = pos 0 };
    orders = (record first_order { status = cancelled }) ∷ [];
    clock = some open_time;
  });
  events = [];
}

dead_order_stays_example :
    find_order "p1" (run codec calendar rules calls cancelled_db).state.payload.orders
    ≡ some (record first_order { status = cancelled })
unfolding find_order state_row new_order
dead_order_stays_example =
    dead_order_stays codec calendar rules cancelled_db "p1"
      (record first_order { status = cancelled }) refl refl calls

-- the database after the first call of the day
abbrev submitted_db : Database
submitted_db = record {
  state = state_row codec (record {
    metadata = metadata;
    account = record { cash = pos 10000000000; realized_pnl = pos 0 };
    orders = first_order ∷ [];
    clock = some (open_time + 1);
  });
  events =
      ("submit:p1", record { request = open_time + 1; result = one first_order; digest = 3 }) ∷ [];
}

submit_runs :
    call codec calendar rules (submit_call proposal approval (open_time + 1)) fresh_db
    ≡ ok (one first_order, submitted_db)
unfolding day
submit_runs = refl

call_twice_example :
    call codec calendar rules (submit_call proposal approval (open_time + 1)) submitted_db
    ≡ ok (one first_order, submitted_db)
call_twice_example =
    call_twice codec calendar rules (submit_call proposal approval (open_time + 1)) fresh_db
      submitted_db (one first_order) submit_runs

rules-IsFillRules : IsFillRules rules
rules-IsFillRules = omega arith

price_runs : price rules (quote_at (open_time + 2) 9995 10000) true ≡ ok 10005
unfolding price rounded
price_runs = refl

abbrev account : Account
account = record { cash = pos 10000000000; realized_pnl = pos 0 }

-- the first quote of the day, and what it makes of the account and the order
abbrev first_quote : Quote
first_quote = quote_at (open_time + 2) 9995 10000

abbrev filled_order : Account × Order × Bool
filled_order = (
  (fill_order rules first_quote (open_time + 3) account first_order 10005).0,
  (fill_order rules first_quote (open_time + 3) account first_order 10005).1,
  true,
)

fill_runs : quote_order rules first_quote (open_time + 3) account first_order ≡ ok filled_order
unfolding day
fill_runs = refl

fill_gate_example :
    Admitted rules first_quote (open_time + 3) first_order account (filled_order.0, filled_order.1)
unfolding fill_order
fill_gate_example =
    fill_gate rules first_quote (open_time + 3) account first_order filled_order fill_runs refl refl

quote_order-steps_example :
    (first_order.status ⟶ filled_order.1.status) × SameTerms first_order filled_order.1
quote_order-steps_example =
    quote_order-steps rules first_quote (open_time + 3) account first_order filled_order fill_runs
