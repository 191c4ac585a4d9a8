-- ===== src/Market/Candles.antt =====
-- Candles and `ordered_candles` of src/kiwit/marketdata/canonical.py. A price is a number of grains, a
-- time a number of microseconds.
use kiwi_t.Prelude.{
  ℕ, String, Bool, true, false, not, ◌&&◌, ◌||◌, ltb, leb, ◌==◌, Option, none, some, List, [], ◌∷◌,
  Outcome, ok, ◌>>=◌, ◌>>◌, raise_if, min, max, if◌then◌else◌, str_eq,
}

-- `canonical.Instrument`
pub record MarketInstrument : Type 0 where
  pub symbol : String
  pub exchange : String
  pub segment : String
  pub series : String
  pub isin : Option String

abbrev pub opt_text_eq : Option String → Option String → Bool
opt_text_eq none none = true
opt_text_eq none (some b) = false
opt_text_eq (some a) none = false
opt_text_eq (some a) (some b) = str_eq a b

abbrev pub opt_eq : Option ℕ → Option ℕ → Bool
opt_eq none none = true
opt_eq none (some b) = false
opt_eq (some a) none = false
opt_eq (some a) (some b) = a == b

unfoldable pub market_instrument_eq : MarketInstrument → MarketInstrument → Bool
market_instrument_eq a b =
    str_eq a.symbol b.symbol
    && (str_eq a.exchange b.exchange
        && (str_eq a.segment b.segment && (str_eq a.series b.series && opt_text_eq a.isin b.isin)))

pub record Candle : Type 0 where
  pub instrument : MarketInstrument
  pub opened_at : ℕ
  pub closed_at : ℕ
  pub open_price : ℕ
  pub high : ℕ
  pub low : ℕ
  pub close : ℕ
  pub volume : Option ℕ
  pub source : String
  pub source_sha256 : Option String

pub data MarketFailure : Type 0 where
  missing_source close_before_open price_not_positive invalid_ohlc conflicting_duplicate
        invalid_policy wrong_interval unaligned_minute :
      MarketFailure

-- `Candle.__post_init__`, whose version is the present one
unfoldable pub checked_candle : Candle → Outcome MarketFailure Candle
checked_candle c = do
  raise_if (str_eq c.source "") missing_source
  raise_if (leb c.closed_at c.opened_at) close_before_open
  raise_if (c.open_price == 0 || (c.high == 0 || (c.low == 0 || c.close == 0))) price_not_positive
  raise_if (not (leb c.low (min c.open_price c.close) && leb (max c.open_price c.close) c.high))
      invalid_ohlc
  ok c

-- equality of two candles
unfoldable pub candle_eq : Candle → Candle → Bool
candle_eq a b =
    market_instrument_eq a.instrument b.instrument
    && (a.opened_at == b.opened_at
        && (a.closed_at == b.closed_at
            && (a.open_price == b.open_price
                && (a.high == b.high
                    && (a.low == b.low
                        && (a.close == b.close
                            && (opt_eq a.volume b.volume
                                && (str_eq a.source b.source
                                    && opt_text_eq a.source_sha256 b.source_sha256))))))))

-- The order of the keys of candles of one instrument: when they open, then when they close.
unfoldable pub is_before : Candle → Candle → Bool
is_before a b =
    ltb a.opened_at b.opened_at || (a.opened_at == b.opened_at && ltb a.closed_at b.closed_at)

unfoldable pub same_key : Candle → Candle → Bool
same_key a b = a.opened_at == b.opened_at && a.closed_at == b.closed_at

-- a candle put in its place among those of the dict, in the order of `sorted`
unfoldable pub place : Candle → List Candle → Outcome MarketFailure (List Candle)
place c [] = ok (c ∷ [])
place c (x ∷ xs) =
    let later = place c xs >>= λ rest. ok (x ∷ rest) in
    if same_key c x
    then raise_if (not (candle_eq x c)) conflicting_duplicate >> ok (c ∷ xs)
    else if is_before c x
    then ok (c ∷ x ∷ xs)
    else later

-- the loop of `ordered_candles` from the candles that it has so far
unfoldable pub place_all : List Candle → List Candle → Outcome MarketFailure (List Candle)
place_all bars [] = ok bars
place_all bars (c ∷ rest) = do bars' ← place c bars; place_all bars' rest

-- `ordered_candles` on candles of one instrument
unfoldable pub ordered_candles : List Candle → Outcome MarketFailure (List Candle)
ordered_candles candles = place_all [] candles
