-- ===== src/Market/Groww.antt =====
-- `groww_candles` of src/kiwit/marketdata/canonical.py: the minute candles of a broker's answer.
use kiwi_t.Prelude.{
  ℕ, ◌+◌, ◌%◌, ◌≤◌, ◌≡◌, refl, Bool, true, false, not, ◌&&◌, ◌||◌, ltb, leb, ◌==◌, Option, none,
  some, List, [], ◌∷◌, ◌++◌, All, All-append, arith, Outcome, ok, ◌>>=◌, ◌>>◌, raise_if,
  raise_if_ok, if◌then◌else◌, if-intro, Returning, Returning-bind, Returning-then, Returning-eq,
  Returning-map, str_eq, min, max,
}
use kiwi_t.Calendar.{TradingCalendar, Session, session, bounds, ist_date}
use kiwi_t.Market.Candles.{
  MarketInstrument, Candle, MarketFailure, wrong_interval, unaligned_minute, checked_candle,
  ordered_candles,
}
use kiwi_t.Market.Order.{Ordered, ordered_candles-Ordered}

-- a row of the answer, of which the time is read by `exchange_timestamp`
pub record GrowwRow : Type 0 where
  pub opened : ℕ
  pub open_price : ℕ
  pub high : ℕ
  pub low : ℕ
  pub close : ℕ
  pub volume : Option ℕ

abbrev pub minute : ℕ
minute = 60_000_000

-- `Session(day)` with its default times, 09:15 and 15:30
abbrev pub default_session : ℕ → Session
default_session day = record { day = day; opens = 33_300_000_000; closes = 55_800_000_000 }

unfoldable pub row_session : Option TradingCalendar → ℕ → Option Session
row_session none day = some (default_session day)
row_session (some c) day = session c day

-- the candle of a row
unfoldable pub row_candle : MarketInstrument → GrowwRow → Candle
row_candle i r = record {
  instrument = i;
  opened_at = r.opened;
  closed_at = r.opened + minute;
  open_price = r.open_price;
  high = r.high;
  low = r.low;
  close = r.close;
  volume = r.volume;
  source = "groww";
  source_sha256 = none;
}

-- `closed > now or not session_open <= opened < closed <= session_close`
unfoldable pub is_skipped : ℕ → Session → GrowwRow → Bool
is_skipped now s r =
    ltb now (r.opened + minute)
    || not (leb (bounds s).0 r.opened && leb (r.opened + minute) (bounds s).1)

-- the candles of a row, on its session
unfoldable pub row_candles :
    ℕ → MarketInstrument → GrowwRow → Option Session → Outcome MarketFailure (List Candle)
row_candles now i r none = ok []
row_candles now i r (some s) =
    if is_skipped now s r
    then ok []
    else raise_if (not (r.opened % minute == 0)) unaligned_minute
      >> (checked_candle (row_candle i r) >>= λ c. ok (c ∷ []))

-- the loop over the rows
unfoldable pub all_rows :
    ℕ
    → MarketInstrument
    → Option TradingCalendar
    → List GrowwRow
    → Outcome MarketFailure (List Candle)
all_rows now i calendar [] = ok []
all_rows now i calendar (r ∷ rest) = do
  here ← row_candles now i r (row_session calendar (ist_date r.opened))
  later ← all_rows now i calendar rest
  ok (here ++ later)

unfoldable pub groww_candles :
    ℕ
    → List GrowwRow
    → ℕ
    → MarketInstrument
    → Option TradingCalendar
    → Outcome MarketFailure (List Candle)
groww_candles interval rows now i calendar = do
  raise_if (not (interval == 1)) wrong_interval
  candles ← all_rows now i calendar rows
  ordered_candles candles

-- A whole minute of trade that is over.
pub record IsMinute (now : ℕ) (i : MarketInstrument) (calendar : Option TradingCalendar)
    (c : Candle) : Type 0 where
  pub of_instrument : c.instrument ≡ i
  pub whole : c.closed_at ≡ c.opened_at + minute
  pub aligned : c.opened_at % minute ≡ 0
  pub over : c.closed_at ≤ now
  pub session : Session
  pub traded : row_session calendar (ist_date c.opened_at) ≡ some session
  pub inside : ((bounds session).0 ≤ c.opened_at) × (c.closed_at ≤ (bounds session).1)
  pub ohlc : c.low ≤ c.high

row_candle-IsMinute :
    (now : ℕ) (i : MarketInstrument) (calendar : Option TradingCalendar) (r : GrowwRow)
    (s : Session)
    → row_session calendar (ist_date r.opened) ≡ some s
    → is_skipped now s r ≡ false
    → r.opened % minute == 0 ≡ true
    → r.low ≤ r.high
    → IsMinute now i calendar (row_candle i r)
unfolding row_candle is_skipped
row_candle-IsMinute now i calendar r s there kept aligned low = record {
  of_instrument = refl;
  whole = refl;
  aligned = ground arith;
  over = ground arith;
  session = s;
  traded = there;
  inside = (ground arith, ground arith);
  ohlc = low;
}

-- What `Candle.__post_init__` leaves of a candle.
checked_candle-ohlc : (c : Candle) → Returning (λ d. (d ≡ c) × (c.low ≤ c.high)) (checked_candle c)
unfolding checked_candle
checked_candle-ohlc c =
    let P : Candle → Type 0 = λ d. (d ≡ c) × (c.low ≤ c.high) in
    Returning-then P (raise_if (str_eq c.source "") _) _ (λ _.
      Returning-then P (raise_if (leb c.closed_at c.opened_at) _) _ (λ _.
        Returning-then P
          (raise_if (c.open_price == 0 || (c.high == 0 || (c.low == 0 || c.close == 0))) _) _
          (λ _.
            Returning-then P
              (raise_if
                (not
                  (leb c.low (min c.open_price c.close) && leb (max c.open_price c.close) c.high))
                _)
              (ok c) (λ ordered. (refl, ground (arith, raise_if_ok _ _ ordered))))))

row_candles-IsMinute :
    (now : ℕ) (i : MarketInstrument) (calendar : Option TradingCalendar) (r : GrowwRow)
    (o : Option Session)
    → row_session calendar (ist_date r.opened) ≡ o
    → Returning (All (IsMinute now i calendar)) (row_candles now i r o)
unfolding row_candles
row_candles-IsMinute now i calendar r none there = tt
row_candles-IsMinute now i calendar r (some s) there =
    let P = All (IsMinute now i calendar) in
    if-intro (Returning P) (is_skipped now s r) (ok []) _ (λ _. tt)
      (λ kept.
        Returning-then P (raise_if (not (r.opened % minute == 0)) unaligned_minute) _ (λ aligned.
          Returning-bind P (checked_candle (row_candle i r)) _ (λ c e.
            let (same, low) =
              Returning-eq
                (λ d. (d ≡ row_candle i r) × ((row_candle i r).low ≤ (row_candle i r).high))
                (checked_candle (row_candle i r)) (checked_candle-ohlc (row_candle i r)) e in
            (
              rw same (
                  row_candle-IsMinute now i calendar r s there kept
                    (ground (arith, raise_if_ok _ _ aligned)) (unfold row_candle in low)),
              tt,
            ))))

all_rows-IsMinute :
    (now : ℕ) (i : MarketInstrument) (calendar : Option TradingCalendar) (rows : List GrowwRow)
    → Returning (All (IsMinute now i calendar)) (all_rows now i calendar rows)
unfolding all_rows
all_rows-IsMinute now i calendar [] = tt
all_rows-IsMinute now i calendar (r ∷ rest) =
    let P = All (IsMinute now i calendar) in
    let o = row_session calendar (ist_date r.opened) in
    Returning-bind P (row_candles now i r o) _ (λ here e.
      Returning-bind P (all_rows now i calendar rest) _ (λ later k.
        All-append (IsMinute now i calendar) here later
          (Returning-eq P (row_candles now i r o) (row_candles-IsMinute now i calendar r o refl) e)
          (Returning-eq P (all_rows now i calendar rest) (all_rows-IsMinute now i calendar rest)
            k)))

-- The candles that `groww_candles` returns are in the strict order of their times, and each is a whole
-- aligned minute of the instrument, inside a session, that is over.
pub groww_candles-IsMinute :
    (interval : ℕ) (rows : List GrowwRow) (now : ℕ) (i : MarketInstrument)
    (calendar : Option TradingCalendar)
    → Returning
        (λ bars. Ordered bars × All (IsMinute now i calendar) bars)
        (groww_candles interval rows now i calendar)
unfolding groww_candles
groww_candles-IsMinute interval rows now i calendar =
    let Q : List Candle → Type 0 = λ bars. Ordered bars × All (IsMinute now i calendar) bars in
    Returning-then Q (raise_if (not (interval == 1)) wrong_interval) _ (λ _.
      Returning-bind Q (all_rows now i calendar rows) _ (λ candles e.
        Returning-map _ Q (ordered_candles candles) (λ bars r. (r.0, r.1))
          (ordered_candles-Ordered (IsMinute now i calendar) candles (
            Returning-eq (All (IsMinute now i calendar)) (all_rows now i calendar rows)
              (all_rows-IsMinute now i calendar rows) e))))
