-- ===== src/Desk/Session.antt =====
-- `start`, `stop` and `settle_expired_position` of src/kiwit/banknifty.py, and `validate_limits` of
-- src/kiwit/paper_session.py. A percentage is a number of ten-thousandths of a percent; values that are
-- not finite or negative, or have more places, are refused there and not represented here.
use kiwi_t.Prelude.{
  ℕ, ◌*◌, ◌%◌, String, Bool, true, false, not, ◌&&◌, ◌||◌, ltb, leb, ◌==◌, Option, none, some, List,
  [], ◌∷◌, if◌then◌else◌, str_eq, is_some, Outcome, ok, ◌>>=◌, ◌>>◌, raise_if, or_raise,
}
use kiwi_t.Prelude.Int.{ℤ, pos, ◌+ℤ◌, ◌-ℤ◌, ltb_ℤ, leb_ℤ}
use kiwi_t.Prelude.Scaling.{times}
use kiwi_t.Calendar.{ist_date}
use kiwi_t.Options.Sizing.{trade_limits}
use kiwi_t.Desk.Clock.{is_regular, local_time}
use kiwi_t.Desk.State.{
  DeskState, running, stopping, completed, is_completed, DeskPosition, DeskEvent, run_approved,
  run_resumed, stop_requested, paper_settlement, options_state,
}
use kiwi_t.Desk.Monitor.{DeskEnvironment}
use kiwi_t.Desk.Plan.{
  DeskFailure, invalid_limits, limits_immutable, not_reconciled, outside_hours, not_configured,
  halt_active, invalid_settlement, different_evidence, position_changed, not_expired,
}

-- `validate_limits`: at most a million rupees, 25 and 100 percent, and whole hundredths of a rupee. The tests
-- for finite values and for four places of a percentage hold of all numbers here.
unfoldable pub validate_limits : ℕ → ℕ → ℕ → ℕ → Outcome DeskFailure (Unit {0})
validate_limits rupee amount loss profit = do
  raise_if (amount == 0 || (loss == 0 || profit == 0)) invalid_limits
  raise_if (ltb (1_000_000 * rupee) amount || (ltb 250_000 loss || ltb 1_000_000 profit))
      invalid_limits
  raise_if (not ((amount * 100) % rupee == 0)) invalid_limits

-- the arguments of `start`
pub record Limits : Type 0 where
  pub amount : ℕ
  pub loss_pct : ℕ
  pub profit_pct : ℕ
  pub trade_stop_pct : Option ℕ
  pub trade_target_pct : Option ℕ
  pub session_profit_cap_enabled : Bool

abbrev pub given_or : Option ℕ → ℕ → ℕ
given_or none d = d
given_or (some a) d = a

-- the limits of a stored session are the given ones
unfoldable pub has_limits : DeskState → Limits → Bool
has_limits s l =
    (s.amount == l.amount && (s.loss_pct == l.loss_pct && s.profit_pct == l.profit_pct))
    && (((trade_limits (options_state s)).0 == given_or l.trade_stop_pct l.loss_pct
          && (trade_limits (options_state s)).1 == given_or l.trade_target_pct l.profit_pct)
        && (if l.session_profit_cap_enabled
            then s.session_profit_cap_enabled
            else not s.session_profit_cap_enabled))

-- `resumable`
unfoldable pub is_resumable : DeskState → ℕ → Bool
is_resumable s now =
    is_completed s.status
    && (not (is_some s.position)
        && (s.entries == 0
            && ((leb_ℤ s.realized_pnl (pos 0) && leb_ℤ (pos 0) s.realized_pnl)
                && (s.resumes == 0 && ltb (local_time now) 54_000_000_000))))

-- the state of a new session
unfoldable pub new_session : Limits → ℕ → DeskState
new_session l now = record {
  day = ist_date now;
  amount = l.amount;
  loss_pct = l.loss_pct;
  profit_pct = l.profit_pct;
  trade_stop_pct = some (given_or l.trade_stop_pct l.loss_pct);
  trade_target_pct = some (given_or l.trade_target_pct l.profit_pct);
  session_profit_cap_enabled = l.session_profit_cap_enabled;
  cash = pos l.amount;
  realized_pnl = pos 0;
  pnl = pos 0;
  entries = 0;
  resumes = 0;
  position = none;
  status = running;
  last_exit = none;
  last_tick = none;
  valuation_fresh = false;
}

-- a session of the same day
unfoldable pub resume : DeskState → Limits → ℕ → Outcome DeskFailure (DeskState × List DeskEvent)
resume s l now = do
  raise_if (not (has_limits s l)) limits_immutable
  ok (
      if is_resumable s now
      then (record s { status = running; resumes = 1; last_tick = none }, run_resumed ∷ [])
      else (s, []))

-- a session of a new day, where the worker, its key and its feed are configured or not
unfoldable pub begin :
    DeskEnvironment
    → Bool
    → Option DeskState
    → Limits
    → ℕ
    → Outcome DeskFailure (DeskState × List DeskEvent)
begin env configured old l now = do
  raise_if (elim old [ none ↦ false | some s ↦ is_some s.position || not (is_completed s.status) ])
      not_reconciled
  raise_if (not (is_regular now) || leb 54_000_000_000 (local_time now)) outside_hours
  raise_if (not (env.enabled && configured)) not_configured
  raise_if env.halted halt_active
  ok (new_session l now, run_approved ∷ [])

-- `start` on the latest session
unfoldable pub start_on :
    DeskEnvironment
    → Bool
    → Option DeskState
    → Limits
    → ℕ
    → Outcome DeskFailure (DeskState × List DeskEvent)
start_on env configured none l now = begin env configured none l now
start_on env configured (some s) l now =
    if s.day == ist_date now then resume s l now else begin env configured (some s) l now

-- `start`
unfoldable pub start :
    ℕ
    → DeskEnvironment
    → Bool
    → Option DeskState
    → Limits
    → ℕ
    → Outcome DeskFailure (DeskState × List DeskEvent)
start rupee env configured old l now = do
  validate_limits rupee l.amount l.loss_pct l.profit_pct
  validate_limits rupee l.amount (given_or l.trade_stop_pct l.loss_pct)
      (given_or l.trade_target_pct l.profit_pct)
  start_on env configured old l now

-- `stop`
unfoldable pub stop : DeskState → DeskState × List DeskEvent
stop s = if is_completed s.status then (s, []) else (
  record s { status = if is_some s.position then stopping else completed },
  stop_requested ∷ [],
)

-- the arguments of `settle_expired_position`; the reference is stripped, and its length given
pub record Settlement : Type 0 where
  pub position_id : String
  pub price : ℤ
  pub fees : ℤ
  pub source_reference : String
  pub reference_length : ℕ

-- the state after a settlement, with the profit of it
unfoldable pub settled_state : DeskState → DeskPosition → Settlement → DeskState × List DeskEvent
settled_state s p e =
    let proceeds = times p.quantity e.price -ℤ e.fees in
    let profit = proceeds -ℤ p.entry_cost_remaining in
    (
      record s {
        cash = s.cash +ℤ proceeds;
        realized_pnl = s.realized_pnl +ℤ profit;
        pnl = s.realized_pnl +ℤ profit;
        valuation_fresh = true;
        position = none;
        status = completed;
      },
      paper_settlement p.id p.quantity e.price e.fees e.source_reference profit ∷ [],
    )

-- a settlement of the position is recorded with this evidence; none means that it is not recorded
unfoldable pub recorded_settlement : List DeskEvent → Settlement → Option Bool
recorded_settlement [] e = none
recorded_settlement (x ∷ rest) e =
    let later = recorded_settlement rest e in
    elim x [
      | paper_settlement id quantity price costs source profit ↦
          if str_eq id e.position_id
          then some (
              (leb_ℤ price e.price && leb_ℤ e.price price)
              && ((leb_ℤ costs e.fees && leb_ℤ e.fees costs) && str_eq source e.source_reference))
          else later
      | _ ↦ later
    ]

-- the settlement of the position of the latest session
unfoldable pub settle_position :
    DeskState → Settlement → ℕ → Outcome DeskFailure (DeskState × List DeskEvent)
settle_position s e now = do
  p ← or_raise s.position position_changed
  raise_if (not (str_eq p.id e.position_id)) position_changed
  raise_if (leb (ist_date now) p.contract.expiry) not_expired
  ok (settled_state s p e)

-- the settlement that is recorded, or the one of the position
unfoldable pub settle_or_repeat :
    Option Bool → DeskState → Settlement → ℕ → Outcome DeskFailure (DeskState × List DeskEvent)
settle_or_repeat none s e now = settle_position s e now
settle_or_repeat (some same) s e now = raise_if (not same) different_evidence >> ok (s, [])

-- `settle_expired_position` on the latest session and the events
unfoldable pub settle_expired_position :
    List DeskEvent → DeskState → Settlement → ℕ → Outcome DeskFailure (DeskState × List DeskEvent)
settle_expired_position events s e now = do
  raise_if (ltb_ℤ e.price (pos 0) || ltb_ℤ e.fees (pos 0)) invalid_settlement
  raise_if (ltb e.reference_length 3 || ltb 500 e.reference_length) invalid_settlement
  settle_or_repeat (recorded_settlement events e) s e now
