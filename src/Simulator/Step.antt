-- ===== src/Simulator/Step.antt =====
-- What `PaperSimulator.on_quote` and `end_session` of src/kiwit/paper_simulator.py do to one order.
use kiwi_t.Prelude.{
  ℕ, ◌+◌, Bool, true, false, not, ◌&&◌, ◌||◌, ltb, leb, if◌then◌else◌, Outcome, ok, ◌>>=◌, or_raise,
  some, [], ◌∷◌, ◌++◌,
}
use kiwi_t.Prelude.Int.{pos, ◌+ℤ◌, ◌-ℤ◌, ltb_ℤ}
use kiwi_t.Simulator.Types.{
  FillRules, Quote, Account, Order, Entry, Status, pending, opened, exit_pending, closed, cancelled,
  rejected, Reason, session_ended, session_exit_awaiting_quote, fill_risk_or_capital_gate, filled,
  stop_hit, target_hit, session_exit, Kind, Failure, missing_field, instrument_eq,
}
use kiwi_t.Simulator.Price.{price, projected_stop, abs_diff, notional, fee_of, gross}

-- `order["status"] in {"PENDING", "OPEN", "EXIT_PENDING"}`
abbrev pub is_live : Status → Bool
is_live pending = true
is_live opened = true
is_live exit_pending = true
is_live _ = false

-- `order["status"] in {"OPEN", "EXIT_PENDING"}`
abbrev pub is_held : Status → Bool
is_held opened = true
is_held exit_pending = true
is_held _ = false

abbrev pub is_exit_pending : Status → Bool
is_exit_pending exit_pending = true
is_exit_pending _ = false

-- `geometry`: the fill lies between the stop and the target
unfoldable pub in_geometry : Order → ℕ → Bool
in_geometry o fill =
    if o.long then ltb o.stop fill && ltb fill o.target else ltb o.target fill && ltb fill o.stop

-- `risk`: the planned loss with the fees of both fills
unfoldable pub fill_risk : FillRules → Quote → Order → ℕ → ℕ
fill_risk r quote o fill =
    let stop = projected_stop r quote o.long o.stop in
    notional r (abs_diff fill stop) o.quantity + fee_of r fill o.quantity + fee_of r stop o.quantity

-- the gate before a fill
unfoldable pub is_refused : FillRules → Quote → Account → Order → ℕ → Bool
is_refused r quote acct o fill =
    not (in_geometry o fill)
    || (ltb o.risk_budget (fill_risk r quote o fill)
        || ltb_ℤ acct.cash (pos (notional r fill o.quantity + fee_of r fill o.quantity)))

-- the mark of a position: the price at which it could be closed
unfoldable pub mark_of : Quote → Order → ℕ
mark_of quote o = if o.long then quote.bid else quote.ask

-- the last branch of a pending order: the fill
unfoldable pub fill_order : FillRules → Quote → ℕ → Account → Order → ℕ → Account × Order
fill_order r quote now acct o fill = (
  record acct {
    cash = acct.cash -ℤ pos (notional r fill o.quantity) -ℤ pos (fee_of r fill o.quantity);
  },
  record o {
    status = opened;
    entered = some (record {
      price = fill;
      fee = fee_of r fill o.quantity;
      collateral = notional r fill o.quantity;
    });
    mark = some (mark_of quote o);
    reason = filled;
    fills =
        o.fills
        ++ (record { at = now; price = fill; fee = fee_of r fill o.quantity; kind = Kind.entry })
          ∷ [];
  },
)

abbrev pub refused_order : Order → Order
refused_order o = record o { status = rejected; reason = fill_risk_or_capital_gate }

-- a pending order at a quote of its session
unfoldable pub try_fill :
    FillRules → Quote → ℕ → Account → Order → Outcome Failure (Account × Order)
try_fill r quote now acct o = do
  fill ← price r quote o.long
  ok (
      if is_refused r quote acct o fill
      then (acct, refused_order o)
      else fill_order r quote now acct o fill)

-- the exit of a position at the price `fill`
unfoldable pub close_order : FillRules → ℕ → Account → Order → Reason → Entry → ℕ → Account × Order
close_order r now acct o why e fill =
    let fee = fee_of r fill o.quantity in
    let profit = gross r o.long e.price fill o.quantity in
    let net = profit -ℤ pos e.fee -ℤ pos fee in
    (
      record {
        cash = acct.cash +ℤ pos e.collateral +ℤ profit -ℤ pos fee;
        realized_pnl = acct.realized_pnl +ℤ net;
      },
      record o {
        status = closed;
        realized_pnl = some net;
        reason = why;
        fills = o.fills ++ (record { at = now; price = fill; fee = fee; kind = Kind.exit }) ∷ [];
      },
    )

unfoldable pub stop_reached : Order → ℕ → Bool
stop_reached o mark = if o.long then leb mark o.stop else leb o.stop mark

unfoldable pub target_reached : Order → ℕ → Bool
target_reached o mark = if o.long then leb o.target mark else leb mark o.target

-- the exit branch of an open position, whose mark is already written
unfoldable pub exit_position :
    FillRules → Quote → ℕ → Account → Order → Reason → Outcome Failure (Account × Order)
exit_position r quote now acct o why = do
  fill ← price r quote (not o.long)
  e ← or_raise o.entered missing_field
  ok (close_order r now acct o why e fill)

-- a level was reached, the session has ended, or the exit was pending
unfoldable pub is_leaving : Order → ℕ → Bool → Bool
is_leaving o mark ending =
    stop_reached o mark || (target_reached o mark || (ending || is_exit_pending o.status))

unfoldable pub exit_reason : Order → ℕ → Reason
exit_reason o mark =
    if stop_reached o mark
    then stop_hit
    else if target_reached o mark
    then target_hit
    else session_exit

abbrev pub marked : Quote → Order → Order
marked quote o = record o { mark = some (mark_of quote o) }

-- an open position at a quote: its mark is written, and it is closed if it is leaving
unfoldable pub watch_position :
    FillRules → Quote → ℕ → Bool → Account → Order → Outcome Failure (Account × Order)
watch_position r quote now ending acct o =
    if is_leaving o (mark_of quote o) ending
    then exit_position r quote now acct (marked quote o) (exit_reason o (mark_of quote o))
    else ok (acct, marked quote o)

abbrev pub expired_order : Order → Order
expired_order o = record o { status = cancelled; reason = session_ended }

-- the branches for a pending order
unfoldable pub quote_pending :
    FillRules → Quote → ℕ → Account → Order → Outcome Failure (Account × Order × Bool)
quote_pending r quote now acct o =
    if leb o.session_end now
    then ok (acct, expired_order o, true)
    else if ltb quote.timestamp o.submitted_at
    then ok (acct, o, false)
    else try_fill r quote now acct o >>= λ p. ok (p.0, p.1, true)

-- the branches for a live order of the quote's instrument, by its status
unfoldable pub quote_live :
    FillRules → Quote → ℕ → Account → Order → Status → Outcome Failure (Account × Order × Bool)
quote_live r quote now acct o pending = quote_pending r quote now acct o
quote_live r quote now acct o _ =
    watch_position r quote now (leb o.session_end now) acct o >>= λ p. ok (p.0, p.1, true)

-- The body of the loop of `on_quote`. The flag says whether the order is appended to `changed`.
unfoldable pub quote_order :
    FillRules → Quote → ℕ → Account → Order → Outcome Failure (Account × Order × Bool)
quote_order r quote now acct o =
    if not (instrument_eq o.instrument quote.instrument) || not (is_live o.status)
    then ok (acct, o, false)
    else quote_live r quote now acct o o.status

-- the body of the loop of `end_session`
unfoldable pub end_order : ℕ → Order → Order
end_order at o =
    if leb o.session_end at
    then elim o.status [
      | pending ↦ record o { status = cancelled; reason = session_ended }
      | opened ↦ record o { status = exit_pending; reason = session_exit_awaiting_quote }
      | _ ↦ o
    ]
    else o
