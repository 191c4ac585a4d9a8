-- ===== src/Market/Assessment.antt =====
-- `assess_market` of src/kiwit/marketdata/canonical.py.
use kiwi_t.Prelude.{
  ℕ, ◌+◌, Bool, false, not, ◌&&◌, ◌||◌, ltb, leb, ◌==◌, Option, none, some, List, [], ◌∷◌, ◌++◌,
  any, Outcome, ok, err, ◌>>◌, raise_if, if◌then◌else◌, is_nonempty,
}
use kiwi_t.Calendar.{TradingCalendar, Session, session_at, bounds, is_open}
use kiwi_t.Market.Candles.{
  MarketInstrument, market_instrument_eq, Candle, MarketFailure, invalid_policy, ordered_candles,
}

pub data MarketReason : Type 0 where
  unknown_or_closed_session outside_session conflicting_duplicate future_or_forming_candle
        missing_candles stale_candles missing_or_misaligned_candles missing_quote
        wrong_quote_instrument future_quote stale_quote :
      MarketReason

-- `canonical.Quote`: the fields that are read
pub record MarketQuote : Type 0 where
  pub instrument : MarketInstrument
  pub exchange_at : ℕ
  pub received_at : ℕ

-- the arguments of the freshness policy; a delta of the source that is negative is refused there
pub record Freshness : Type 0 where
  pub interval : ℕ
  pub max_age : ℕ
  pub require_quote : Bool

unfoldable pub filter_candles : (Candle → Bool) → List Candle → List Candle
filter_candles p [] = []
filter_candles p (c ∷ rest) = let later = filter_candles p rest in if p c then c ∷ later else later

-- `completed[-1].closed_at`, from the value for no candle
unfoldable pub last_close : ℕ → List Candle → ℕ
last_close t [] = t
last_close t (c ∷ rest) = last_close c.closed_at rest

-- the loop over the completed candles, from the expected opening: one is missing or misaligned
unfoldable pub is_misaligned : ℕ → ℕ → List Candle → Bool
is_misaligned interval expected [] = false
is_misaligned interval expected (c ∷ rest) =
    not (c.opened_at == expected && c.closed_at == c.opened_at + interval)
    || is_misaligned interval c.closed_at rest

-- `reasons.add`, before the reasons that follow
abbrev pub add_if : Bool → MarketReason → List MarketReason → List MarketReason
add_if b r rs = if b then r ∷ rs else rs

-- the reasons of the completed candles
unfoldable pub candle_reasons : Freshness → ℕ → ℕ → List Candle → List MarketReason
candle_reasons f opened now [] = missing_candles ∷ []
candle_reasons f opened now (c ∷ rest) =
    add_if (ltb (last_close 0 (c ∷ rest) + f.max_age) now) stale_candles
      (add_if (is_misaligned f.interval opened (c ∷ rest)) missing_or_misaligned_candles [])

-- the reasons of the quote
unfoldable pub quote_reasons :
    Freshness → MarketInstrument → ℕ → Option MarketQuote → List MarketReason
quote_reasons f i now none = add_if f.require_quote missing_quote []
quote_reasons f i now (some q) =
    add_if (not (market_instrument_eq q.instrument i)) wrong_quote_instrument (
      if ltb now q.exchange_at || ltb now q.received_at
      then future_quote ∷ []
      else add_if (ltb (q.exchange_at + f.max_age) now) stale_quote [])

-- the candles of the session
unfoldable pub current_candles : Session → List Candle → List Candle
current_candles s =
    filter_candles (λ c. leb (bounds s).0 c.opened_at && ltb c.opened_at (bounds s).1)

-- the candles that are closed at the time
unfoldable pub completed_candles : ℕ → List Candle → List Candle
completed_candles now = filter_candles (λ c. leb c.closed_at now)

-- `MarketState.reasons`, in the order in which they are found; the source sorts their texts
unfoldable pub bar_reasons :
    Freshness
    → MarketInstrument
    → ℕ
    → Option MarketQuote
    → Session
    → Outcome MarketFailure (List Candle)
    → List MarketReason
bar_reasons f i now quote s (err e) = conflicting_duplicate ∷ []
bar_reasons f i now quote s (ok bars) =
    let current = current_candles s bars in
    add_if (any (λ (c : Candle). ltb now c.closed_at) current) future_or_forming_candle (
      candle_reasons f (bounds s).0 now (completed_candles now current)
      ++ quote_reasons f i now quote)

unfoldable pub session_market :
    Freshness
    → MarketInstrument
    → ℕ
    → Option MarketQuote
    → List Candle
    → Option Session
    → List MarketReason
session_market f i now quote candles none = unknown_or_closed_session ∷ []
session_market f i now quote candles (some s) =
    if not (is_open s now)
    then outside_session ∷ []
    else bar_reasons f i now quote s
        (ordered_candles (filter_candles (λ c. market_instrument_eq c.instrument i) candles))

unfoldable pub assess_market :
    Freshness
    → TradingCalendar
    → List Candle
    → MarketInstrument
    → ℕ
    → Option MarketQuote
    → Outcome MarketFailure (List MarketReason)
assess_market f calendar candles i now quote = do
  raise_if (f.interval == 0) invalid_policy
  ok (session_market f i now quote candles (session_at calendar now))

-- `MarketState.trade_allowed`
unfoldable pub trade_allowed : List MarketReason → Bool
trade_allowed reasons = not (is_nonempty reasons)
