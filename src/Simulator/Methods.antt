-- ===== src/Simulator/Methods.antt =====
-- The methods of `PaperSimulator` in src/kiwit/paper_simulator.py over the event log.
use kiwi_t.Prelude.{
  ℕ, ◌%◌, String, Bool, true, false, not, ◌&&◌, ◌||◌, ltb, leb, ◌==◌, str_eq, if◌then◌else◌, Option,
  none, some, List, [], ◌∷◌, ◌++◌, map, Outcome, ok, err, ◌>>=◌, ◌>>◌, raise_if, or_raise, is_fresh,
  append, is_some,
}
use kiwi_t.Prelude.Int.{ℤ, pos, ◌+ℤ◌, ◌-ℤ◌}
use kiwi_t.Calendar.{TradingCalendar, session_at, is_open, bounds, seconds}
use kiwi_t.Simulator.Types.{
  FillRules, Quote, Instrument, Order, State, Account, Status, pending, cancelled, awaiting_quote,
  cancel_request, Failure, outside_session, lot_quantity_required, prices_and_budget_required,
  invalid_geometry, order_exists, unknown_order, only_pending, quote_unavailable, invalid_quote,
  missing_field,
}
use kiwi_t.Simulator.Price.{gross}
use kiwi_t.Simulator.Step.{quote_order, end_order, is_held}
use kiwi_t.Simulator.Store.{
  Codec, Database, Reply, one, many, submit_request, cancel_request_of, session_request,
  quote_request, event, verified_state,
}

-- `domain.Decision` and `domain.Side`
pub data Decision : Type 0 where
  approve reject no_trade : Decision

pub data Side : Type 0 where
  buy sell : Side

-- the fields of `TradeProposal` that `submit` reads
pub record TradeProposal : Type 0 where
  pub proposal_id : String
  pub instrument : Instrument
  pub side : Side
  pub signal_timestamp : ℕ
  pub entry_price : ℕ
  pub stop_price : ℕ
  pub target_price : Option ℕ

-- the fields of `RiskDecision` that `submit` reads; quantities are not negative
pub record RiskDecision : Type 0 where
  pub decision : Decision
  pub proposal_id : String
  pub quantity : ℕ
  pub risk_budget : ℕ

abbrev pub is_approved : Decision → Bool
is_approved approve = true
is_approved _ = false

abbrev pub is_buy : Side → Bool
is_buy buy = true
is_buy sell = false

-- the condition of `submit` under "Matching approved lot quantity required", negated
unfoldable pub is_matched : TradeProposal → RiskDecision → ℕ → Bool
is_matched p risk at =
    is_approved risk.decision
    && (str_eq risk.proposal_id p.proposal_id
        && (ltb 0 risk.quantity
            && (risk.quantity % p.instrument.lot_size == 0 && leb p.signal_timestamp at)))

-- the three prices and the budget are positive
unfoldable pub has_prices : TradeProposal → RiskDecision → ℕ → Bool
has_prices p risk target =
    ltb 0 p.entry_price && (ltb 0 p.stop_price && (ltb 0 target && ltb 0 risk.risk_budget))

-- stop, entry and target in the order of the side
unfoldable pub is_ordered : TradeProposal → ℕ → Bool
is_ordered p target =
    if is_buy p.side
    then ltb p.stop_price p.entry_price && ltb p.entry_price target
    else ltb target p.entry_price && ltb p.entry_price p.stop_price

unfoldable pub new_order : TradeProposal → RiskDecision → ℕ → ℕ → ℕ → Order
new_order p risk target at session_end = record {
  id = p.proposal_id;
  instrument = p.instrument;
  long = is_buy p.side;
  quantity = risk.quantity;
  stop = p.stop_price;
  target = target;
  risk_budget = risk.risk_budget;
  submitted_at = at;
  session_end = session_end;
  status = pending;
  fills = [];
  reason = awaiting_quote;
  entered = none;
  mark = none;
  realized_pnl = none;
}

unfoldable pub find_order : String → List Order → Option Order
find_order k [] = none
find_order k (o ∷ rest) = if str_eq o.id k then some o else find_order k rest

-- `apply` of `submit`
unfoldable pub add_order : Order → State → Outcome Failure (Reply × State)
add_order o s =
    if is_some (find_order o.id s.orders)
    then err order_exists
    else ok (one o, record s { orders = s.orders ++ o ∷ [] })

-- the checks of `submit`, which return the order
unfoldable pub checked_order :
    TradingCalendar → TradeProposal → RiskDecision → ℕ → Outcome Failure Order
checked_order calendar p risk at = do
  session ← or_raise (session_at calendar at) outside_session
  raise_if (not (is_open session at)) outside_session
  raise_if (not (is_matched p risk at)) lot_quantity_required
  target ← or_raise p.target_price prices_and_budget_required
  raise_if (not (has_prices p risk target)) prices_and_budget_required
  raise_if (not (is_ordered p target)) invalid_geometry
  ok (new_order p risk target at (bounds session).1)

-- write the changed order back under its key
unfoldable pub replace_order : Order → List Order → List Order
replace_order o [] = []
replace_order o (x ∷ rest) = if str_eq x.id o.id then o ∷ rest else x ∷ replace_order o rest

abbrev pub is_pending : Status → Bool
is_pending pending = true
is_pending _ = false

abbrev pub cancelled_order : Order → Order
cancelled_order o = record o { status = cancelled; reason = cancel_request }

-- `apply` of `cancel`
unfoldable pub cancel_order : String → State → Outcome Failure (Reply × State)
cancel_order order_id s = do
  o ← or_raise (find_order order_id s.orders) unknown_order
  raise_if (not (is_pending o.status)) only_pending
  ok (one (cancelled_order o), record s { orders = replace_order (cancelled_order o) s.orders })

-- `apply` of `end_session`
unfoldable pub end_orders : ℕ → State → Outcome Failure (Reply × State)
end_orders at s =
    let orders = map (end_order at) s.orders in ok (many orders, record s { orders = orders })

-- The loop of `on_quote`: the account is threaded through the orders, and an error ends it.
unfoldable pub quote_orders :
    FillRules
    → Quote
    → ℕ
    → Account
    → List Order
    → Outcome Failure (Account × List Order × List Order)
quote_orders r quote now acct [] = ok (acct, [], [])
quote_orders r quote now acct (o ∷ rest) = quote_order r quote now acct o >>= λ p.
    quote_orders r quote now p.0 rest >>= λ t. ok (t.0, p.1 ∷ t.1, (if p.2 then p.1 ∷ t.2 else t.2))

-- `apply` of `on_quote`
unfoldable pub apply_quote : FillRules → Quote → ℕ → State → Outcome Failure (Reply × State)
apply_quote r quote now s = do
  t ← quote_orders r quote now s.account s.orders
  ok (many t.2, record s { account = t.0; orders = t.1 })

-- the checks of `on_quote`
unfoldable pub check_quote : FillRules → Quote → ℕ → Outcome Failure (Unit {0})
check_quote r quote now = do
  raise_if (not (is_fresh now quote.timestamp (seconds r.maximum_quote_age_seconds)))
      quote_unavailable
  raise_if (quote.bid == 0 || (quote.ask == 0 || ltb quote.ask quote.bid)) invalid_quote

-- The database after a call: a call that raises has been rolled back.
abbrev pub committed : Database → Outcome Failure (Reply × Database) → Database
committed db (ok p) = p.1
committed db (err _) = db

-- the calls that change the database
pub data Call : Type 0 where
  submit_call : TradeProposal → RiskDecision → ℕ → Call
  cancel_call : String → ℕ → Call
  end_session_call : ℕ → Call
  on_quote_call : String → Quote → ℕ → Call

module _ (c : Codec) (calendar : TradingCalendar) (r : FillRules) where
  unfoldable pub submit :
      TradeProposal → RiskDecision → ℕ → Database → Outcome Failure (Reply × Database)
  submit p risk at db = do
    o ← checked_order calendar p risk at
    event c (append "submit:" o.id) at (submit_request at o) (add_order o) db

  unfoldable pub cancel : String → ℕ → Database → Outcome Failure (Reply × Database)
  cancel order_id at db =
      event c (append "cancel:" order_id) at (cancel_request_of at order_id) (cancel_order order_id)
        db

  unfoldable pub end_session : ℕ → Database → Outcome Failure (Reply × Database)
  end_session at db =
      event c (append "session:" (c.isoformat at)) at (session_request at) (end_orders at) db

  unfoldable pub on_quote : String → Quote → ℕ → Database → Outcome Failure (Reply × Database)
  on_quote event_id quote now db = do
    check_quote r quote now
    event c event_id now (quote_request now quote) (apply_quote r quote now) db

  unfoldable pub call : Call → Database → Outcome Failure (Reply × Database)
  unfolding submit cancel end_session on_quote
  call (submit_call p risk at) db = submit p risk at db
  call (cancel_call order_id at) db = cancel order_id at db
  call (end_session_call at) db = end_session at db
  call (on_quote_call event_id quote now) db = on_quote event_id quote now db

  -- a caller that goes on after an error
  unfoldable pub run : List Call → Database → Database
  run [] db = db
  run (x ∷ rest) db = run rest (committed db (call x db))

-- the body of the loop of `portfolio`, for an order that is held
unfoldable pub add_held : FillRules → ℤ × ℤ → Order → Outcome Failure (ℤ × ℤ)
add_held r (equity, unrealized) o = do
  mark ← or_raise o.mark missing_field
  e ← or_raise o.entered missing_field
  ok (
    equity +ℤ (pos e.collateral +ℤ gross r o.long e.price mark o.quantity),
    unrealized +ℤ (gross r o.long e.price mark o.quantity -ℤ pos e.fee),
  )

-- The sums of `portfolio`, over the orders that are held.
unfoldable pub sum_held : FillRules → ℤ × ℤ → List Order → Outcome Failure (ℤ × ℤ)
sum_held r acc [] = ok acc
sum_held r acc (o ∷ rest) =
    (if is_held o.status then add_held r acc o else ok acc) >>= λ acc'. sum_held r acc' rest

-- `portfolio`: the equity and the unrealized profit. Its sums are exact here; the source takes them in the
-- default context of 28 digits.
unfoldable pub portfolio : Codec → FillRules → Database → Outcome Failure (ℤ × ℤ)
portfolio c r db = do s ← verified_state c db.state; sum_held r (s.account.cash, pos 0) s.orders
