-- ===== src/Simulator/Types.antt =====
-- The data of src/kiwit/paper_simulator.py: cost rules, quotes, orders, the stored state.
--
-- A price is a number of grains, a unit of which the prices, stops, targets and ticks at hand are
-- multiples. The two cost fractions stand over one denominator, `scale`; an amount of money is a
-- number of grains over `scale`, so that a price times a quantity times a fraction is a whole
-- number and sums are exact, as in the 50-digit decimal context of the source.
use kiwi_t.Prelude.{ℕ, ◌<◌, String, Bool, ◌&&◌, Option, List, str_eq, ◌==◌}
use kiwi_t.Prelude.Int.{ℤ}

pub data Failure : Type 0 where
  event_identity_required conflicting_event_retry events_not_chronological checksum_mismatch
        configuration_mismatch positive_capital_required invalid_fill_costs outside_session
        lot_quantity_required prices_and_budget_required invalid_geometry order_exists unknown_order
        only_pending quote_unavailable invalid_quote unrepresentable_price missing_field :
      Failure

-- `FillRules`: the fractions are `slippage / scale` and `fee / scale`.
pub record FillRules : Type 0 where
  pub scale : ℕ
  pub slippage : ℕ
  pub fee : ℕ
  pub maximum_quote_age_seconds : ℕ

-- What `FillRules.__post_init__` admits.
pub record IsFillRules (r : FillRules) : Type 0 where
  pub slippage_below_one : r.slippage < r.scale
  pub fee_below_one : r.fee < r.scale

-- `domain.Instrument`
pub record Instrument : Type 0 where
  pub symbol : String
  pub exchange : String
  pub series : String
  pub lot_size : ℕ
  pub tick_size : ℕ

-- equality of the two dicts that `asdict` makes
unfoldable pub instrument_eq : Instrument → Instrument → Bool
instrument_eq a b =
    str_eq a.symbol b.symbol
    && (str_eq a.exchange b.exchange
        && (str_eq a.series b.series && (a.lot_size == b.lot_size && a.tick_size == b.tick_size)))

pub record Quote : Type 0 where
  pub instrument : Instrument
  pub timestamp : ℕ
  pub bid : ℕ
  pub ask : ℕ

pub data Status : Type 0 where
  pending opened exit_pending closed cancelled rejected : Status

-- `Order.reason`
pub data Reason : Type 0 where
  awaiting_quote cancel_request session_ended session_exit_awaiting_quote fill_risk_or_capital_gate
        filled stop_hit target_hit session_exit :
      Reason

pub data Kind : Type 0 where
  entry exit : Kind

pub record Fill : Type 0 where
  pub at : ℕ
  pub price : ℕ
  pub fee : ℕ
  pub kind : Kind

-- the keys that an order gets when it is filled and keeps from then on
pub record Entry : Type 0 where
  pub price : ℕ
  pub fee : ℕ
  pub collateral : ℕ

pub record Order : Type 0 where
  pub id : String
  pub instrument : Instrument
  pub long : Bool
  pub quantity : ℕ
  pub stop : ℕ
  pub target : ℕ
  pub risk_budget : ℕ
  pub submitted_at : ℕ
  pub session_end : ℕ
  pub status : Status
  pub fills : List Fill
  pub reason : Reason
  pub entered : Option Entry
  pub mark : Option ℕ
  pub realized_pnl : Option ℤ

-- the two amounts of the state that a fill changes
pub record Account : Type 0 where
  pub cash : ℤ
  pub realized_pnl : ℤ

-- the configuration that a stored state is bound to
pub record Metadata : Type 0 where
  pub calendar_version : String
  pub initial_capital : ℕ
  pub rules : FillRules

-- The state. `orders` is the dict in the order of its iteration, which is the order of insertion until the
-- state is stored, and that of the keys when it is read back; an order's key is its `id`.
pub record State : Type 0 where
  pub metadata : Metadata
  pub account : Account
  pub orders : List Order
  pub clock : Option ℕ
