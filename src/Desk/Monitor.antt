-- ===== src/Desk/Monitor.antt =====
-- `_monitor` of src/kiwit/banknifty.py. The quote and the sample are what the market answered between the
-- two locks; a call of it that raised answered nothing.
use kiwi_t.Prelude.{
  ℕ, ◌*◌, String, Bool, true, false, not, ◌||◌, leb, ◌==◌, Option, none, some, List, [],
  if◌then◌else◌, str_eq, is_some,
}
use kiwi_t.Prelude.Int.{ℤ, pos, ◌+ℤ◌, ◌-ℤ◌}
use kiwi_t.Calendar.{ist_date}
use kiwi_t.Options.Costs.{Side}
use kiwi_t.Options.Sizing.{session_limit_reached}
use kiwi_t.Desk.Clock.{is_flattening}
use kiwi_t.Desk.State.{
  DeskState, DeskPosition, DeskQuote, DeskEvent, ExitReason, session_stop, stop_loss, take_profit,
  underlying_invalidation, playbook_time_exit, DeskArithmetic, stopping, completed, is_stopping,
  is_completed, options_state, charge,
}
use kiwi_t.Desk.Exit.{Sample, fresh, underlying_exit, exit_price, close_at}

-- whether the worker is enabled and a halt is active
pub record DeskEnvironment : Type 0 where
  pub enabled : Bool
  pub halted : Bool

-- `session_limit_reached` of the state at a profit
unfoldable pub is_limit_hit : DeskState → ℤ → Bool
is_limit_hit s pnl = session_limit_reached (options_state s) pnl

-- the status that the clock and the safety switches ask for
unfoldable pub is_ending : DeskEnvironment → DeskState → ℕ → Bool
is_ending env s now =
    (not (s.day == ist_date now) || is_flattening now) || (not env.enabled || env.halted)

-- the first writes under the lock
unfoldable pub ticked : DeskEnvironment → DeskState → ℕ → DeskState
ticked env s now = record s {
  last_tick = some now;
  status = if is_ending env s now then stopping else s.status;
}

abbrev is_due : Option ℕ → ℕ → Bool
is_due none now = false
is_due (some deadline) now = leb deadline now

-- the reason of the levels, of the underlying and of the clock
unfoldable pub level_reason : DeskPosition → ℕ → Option Sample → ℕ → Option ExitReason
level_reason p price underlying now =
    if leb price p.stop
    then some stop_loss
    else if leb p.target price
    then some take_profit
    else if underlying_exit p underlying now
    then some underlying_invalidation
    else if is_due p.exit_deadline now
    then some playbook_time_exit
    else none

abbrev or_reason : Option ExitReason → Option ExitReason → Option ExitReason
or_reason none r = r
or_reason (some p) r = some p

-- `reason`
unfoldable pub exit_reason : DeskState → DeskPosition → ℕ → Option Sample → ℕ → Option ExitReason
exit_reason s p price underlying now =
    if is_stopping s.status || is_limit_hit s s.pnl
    then some session_stop
    else or_reason p.exit_pending (level_reason p price underlying now)

-- the last part: a state without a position
unfoldable pub flat : DeskState → DeskState
flat s = if is_some s.position then s else record s {
  valuation_fresh = true;
  pnl = s.realized_pnl;
  status = if is_stopping s.status then completed else s.status;
}

module _ (m : DeskArithmetic) where
  -- the value of the position, net of the costs of selling it, against the amount
  unfoldable pub open_profit : DeskState → DeskPosition → ℕ → ℤ
  open_profit s p price =
      let value = price * p.quantity in
      ((s.cash +ℤ pos value) -ℤ pos (charge m.rupee value Side.sell)) -ℤ pos s.amount

  -- the marks that a fresh quote leaves
  unfoldable pub marked : DeskState → DeskPosition → DeskQuote → DeskState
  marked s p q = record s {
    valuation_fresh = true;
    pnl = open_profit s p (exit_price p q);
    position = some (record p { mark = some (exit_price p q); mark_at = some q.stamp });
  }

  -- the close for a reason, if there is one
  unfoldable pub close_if :
      DeskState → DeskPosition → DeskQuote → Option ExitReason → ℕ → DeskState × List DeskEvent
  close_if s p q none now = (s, [])
  close_if s p q (some reason) now = close_at m s p q reason now

  -- the branch on the quote, for the position that was there at the first lock too
  unfoldable pub valued :
      DeskState → DeskPosition → Option DeskQuote → Option Sample → ℕ → DeskState × List DeskEvent
  valued s p none underlying now = (record s { valuation_fresh = false }, [])
  valued s p (some q) underlying now =
      if fresh (some q) now
      then close_if (marked s p q)
          (record p { mark = some (exit_price p q); mark_at = some q.stamp }) q
          (exit_reason (marked s p q) p (exit_price p q) underlying now) now
      else (record s { valuation_fresh = false }, [])

  -- the position of the state, if it is the one that was quoted
  unfoldable pub watched :
      DeskState
      → Option DeskPosition
      → Option String
      → Option DeskQuote
      → Option Sample
      → ℕ
      → DeskState × List DeskEvent
  watched s none quoted quote underlying now = (s, [])
  watched s (some p) none quote underlying now = (s, [])
  watched s (some p) (some id) quote underlying now =
      if str_eq p.id id then valued s p quote underlying now else (s, [])

  -- the locked part of `_monitor` on a session that is not complete
  unfoldable pub monitor_open :
      DeskEnvironment
      → DeskState
      → Option String
      → Option DeskQuote
      → Option Sample
      → ℕ
      → DeskState × List DeskEvent
  monitor_open env s quoted quote underlying now =
      let w = watched (ticked env s now) s.position quoted quote underlying now in (flat w.0, w.1)

  -- the locked part of `_monitor`
  unfoldable pub monitor :
      DeskEnvironment
      → DeskState
      → Option String
      → Option DeskQuote
      → Option Sample
      → ℕ
      → DeskState × List DeskEvent
  monitor env s quoted quote underlying now =
      if is_completed s.status then (s, []) else monitor_open env s quoted quote underlying now
