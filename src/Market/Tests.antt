-- ===== src/Market/Tests.antt =====
-- Two minutes of trade on the first session of a calendar.
use kiwi_t.Prelude.{
  ℕ, ◌+◌, ◌≡◌, refl, true, false, Option, none, some, List, [], ◌∷◌, All, ok, err, Returning,
}
use kiwi_t.Calendar.{Session, TradingCalendar, session_at, session, ist_date, bounds, is_open}
use kiwi_t.Market.Candles.{
  MarketInstrument, market_instrument_eq, Candle, ordered_candles, place, place_all, candle_eq,
  is_before, same_key, conflicting_duplicate, checked_candle,
}
use kiwi_t.Market.Assessment.{
  MarketQuote, Freshness, filter_candles, last_close, is_misaligned, candle_reasons, quote_reasons,
  current_candles, completed_candles, bar_reasons, session_market, assess_market, trade_allowed,
  stale_candles,
}
use kiwi_t.Market.Order.{Ordered}
use kiwi_t.Market.Soundness.{IsTradable, assess_market-IsTradable}
use kiwi_t.Market.Groww.{
  GrowwRow, row_session, row_candle, is_skipped, row_candles, all_rows, groww_candles, IsMinute,
  groww_candles-IsMinute,
}

abbrev instrument : MarketInstrument
instrument = record {
  symbol = "TCS";
  exchange = "NSE";
  segment = "CASH";
  series = "EQ";
  isin = none;
}

abbrev trading_day : Session
trading_day = record { day = 20000; opens = 33_300_000_000; closes = 55_800_000_000 }

abbrev calendar : TradingCalendar
calendar = record { version = "v1"; sessions = trading_day ∷ [] }

-- the opening of the session
abbrev opening : ℕ
opening = 1_728_013_500_000_000

abbrev candle_at : ℕ → Candle
candle_at t = record {
  instrument = instrument;
  opened_at = t;
  closed_at = t + 60_000_000;
  open_price = 10;
  high = 12;
  low = 9;
  close = 11;
  volume = none;
  source = "groww";
  source_sha256 = none;
}

abbrev candles : List Candle
candles = candle_at (opening + 60_000_000) ∷ candle_at opening ∷ []

abbrev policy : Freshness
policy = record { interval = 60_000_000; max_age = 120_000_000; require_quote = true }

abbrev quote : Option MarketQuote
quote = some (record {
  instrument = instrument;
  exchange_at = opening + 130_000_000;
  received_at = opening + 131_000_000;
})

abbrev now : ℕ
now = opening + 140_000_000

assessed : assess_market policy calendar candles instrument now quote ≡ ok []
unfolding assess_market session_market session_at session ist_date bounds is_open filter_candles
    market_instrument_eq ordered_candles place_all place candle_eq is_before same_key bar_reasons
    current_candles completed_candles candle_reasons last_close is_misaligned quote_reasons
assessed = refl

-- Three minutes later the same candles are stale.
test_stale :
    assess_market
      (record policy { require_quote = false })
      calendar
      candles
      instrument
      (now + 180_000_000)
      none
    ≡ ok (stale_candles ∷ [])
unfolding assess_market session_market session_at session ist_date bounds is_open filter_candles
    market_instrument_eq ordered_candles place_all place candle_eq is_before same_key bar_reasons
    current_candles completed_candles candle_reasons last_close is_misaligned quote_reasons
test_stale = refl

-- Two candles of the same times that differ are a conflict.
test_conflict :
    ordered_candles (candle_at opening ∷ record (candle_at opening) { close = 10 } ∷ [])
    ≡ err conflicting_duplicate
unfolding ordered_candles place_all place candle_eq is_before same_key market_instrument_eq
test_conflict = refl

allowed : trade_allowed [] ≡ true
unfolding trade_allowed
allowed = refl

assess_market-IsTradable_example : IsTradable policy calendar candles instrument now quote
assess_market-IsTradable_example =
    assess_market-IsTradable policy calendar candles instrument now quote [] assessed allowed

abbrev FromGroww : Candle → Type 0
FromGroww c = c.source ≡ "groww"

abbrev row : GrowwRow
row = record {
  opened = opening;
  open_price = 10;
  high = 12;
  low = 9;
  close = 11;
  volume = some 100;
}

-- The row gives a candle.
test_row :
    groww_candles 1 (row ∷ []) now instrument (some calendar) ≡ ok (row_candle instrument row ∷ [])
unfolding groww_candles all_rows row_candles row_session session ist_date bounds is_skipped
    row_candle checked_candle ordered_candles place_all place
test_row = refl

groww_candles-IsMinute_example :
    Returning
      (λ bars. Ordered bars × All (IsMinute now instrument (some calendar)) bars)
      (groww_candles 1 (row ∷ []) now instrument (some calendar))
groww_candles-IsMinute_example = groww_candles-IsMinute 1 (row ∷ []) now instrument (some calendar)
