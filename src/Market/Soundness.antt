-- ===== src/Market/Soundness.antt =====
-- What it means that `assess_market` of src/kiwit/marketdata/canonical.py allows trade.
use kiwi_t.Prelude.{
  or_false, ℕ, ◌+◌, ◌≤◌, ◌≡◌, ◌≢◌, refl, inl, inr, Bool, true, false, not, ◌&&◌, ◌||◌, ltb, ◌==◌,
  Option, none, some, List, [], ◌∷◌, ◌++◌, any, arith, Outcome, ok, err, ◌>>◌, raise_if,
  if◌then◌else◌, Bool-cases, is_nonempty, Returning-then, Returning-eq, sym,
}
use kiwi_t.Calendar.{TradingCalendar, Session, session_at, bounds, is_open}
use kiwi_t.Market.Candles.{
  MarketInstrument, market_instrument_eq, Candle, MarketFailure, invalid_policy, ordered_candles,
}
use kiwi_t.Market.Assessment.{
  MarketReason, MarketQuote, Freshness, filter_candles, last_close, is_misaligned, add_if,
  candle_reasons, quote_reasons, stale_candles, missing_or_misaligned_candles, missing_quote,
  wrong_quote_instrument, future_quote, stale_quote, future_or_forming_candle, current_candles,
  completed_candles, bar_reasons, session_market, assess_market, trade_allowed,
}

-- Candles of the given length that follow one another without a gap, from a time on.
abbrev pub Contiguous : ℕ → ℕ → List Candle → Type 0
Contiguous interval from [] = Unit
Contiguous interval from (c ∷ rest) =
    (c.opened_at ≡ from) × (c.closed_at ≡ from + interval) × Contiguous interval c.closed_at rest

-- A quote that is of the instrument, not of the future and not stale.
abbrev pub IsCurrent : Freshness → MarketInstrument → ℕ → Option MarketQuote → Type 0
IsCurrent f i now none = f.require_quote ≡ false
IsCurrent f i now (some q) =
    (market_instrument_eq q.instrument i ≡ true)
    × (q.exchange_at ≤ now)
    × (q.received_at ≤ now)
    × (now ≤ q.exchange_at + f.max_age)

-- A market of which the data allow trade.
pub record IsTradable (f : Freshness) (calendar : TradingCalendar) (candles : List Candle)
    (i : MarketInstrument) (now : ℕ) (quote : Option MarketQuote) : Type 0 where
  pub session : Session
  pub bars : List Candle
  pub today : session_at calendar now ≡ some session
  pub open_now : is_open session now ≡ true
  pub ordered :
      ordered_candles (filter_candles (λ c. market_instrument_eq c.instrument i) candles) ≡ ok bars
  pub no_future : any (λ (c : Candle). ltb now c.closed_at) (current_candles session bars) ≡ false
  pub some_candle : completed_candles now (current_candles session bars) ≢ []
  pub contiguous :
      Contiguous f.interval
        (bounds session).0
        (completed_candles now (current_candles session bars))
  pub recent : now ≤ last_close 0 (completed_candles now (current_candles session bars)) + f.max_age
  pub current_quote : IsCurrent f i now quote

unadded :
    (b : Bool) (r : MarketReason) (rs : List MarketReason)
    → add_if b r rs ≡ []
    → (b ≡ false) × (rs ≡ [])
unadded true r rs h = cc
unadded false r rs h = (refl, h)

append-none : (xs ys : List MarketReason) → xs ++ ys ≡ [] → (xs ≡ []) × (ys ≡ [])
append-none [] ys h = (refl, h)
append-none (x ∷ xs) ys h = cc

aligned-Contiguous :
    (interval from : ℕ) (cs : List Candle)
    → is_misaligned interval from cs ≡ false
    → Contiguous interval from cs
unfolding is_misaligned
aligned-Contiguous interval from [] h = tt
aligned-Contiguous interval from (c ∷ rest) h =
    let (here, later) =
      or_false (not (c.opened_at == from && c.closed_at == c.opened_at + interval)) _ h in
    (ground arith, ground arith, aligned-Contiguous interval c.closed_at rest later)

not_empty : (c : Candle) (rest : List Candle) → c ∷ rest ≢ []
not_empty c rest e = cc

candle_reasons-none :
    (f : Freshness) (opened now : ℕ) (cs : List Candle)
    → candle_reasons f opened now cs ≡ []
    → (cs ≢ []) × Contiguous f.interval opened cs × (now ≤ last_close 0 cs + f.max_age)
unfolding candle_reasons
candle_reasons-none f opened now [] h = cc
candle_reasons-none f opened now (c ∷ rest) h =
    let (recent, h1) =
      unadded (ltb (last_close 0 (c ∷ rest) + f.max_age) now) stale_candles
        (add_if (is_misaligned f.interval opened (c ∷ rest)) missing_or_misaligned_candles []) h in
    let (aligned, h2) =
      unadded (is_misaligned f.interval opened (c ∷ rest)) missing_or_misaligned_candles [] h1 in
    (not_empty c rest, aligned-Contiguous f.interval opened (c ∷ rest) aligned, ground arith)

quote_reasons-none :
    (f : Freshness) (i : MarketInstrument) (now : ℕ) (quote : Option MarketQuote)
    → quote_reasons f i now quote ≡ []
    → IsCurrent f i now quote
unfolding quote_reasons
quote_reasons-none f i now none h = (unadded f.require_quote missing_quote [] h).0
quote_reasons-none f i now (some q) h =
    let late = ltb now q.exchange_at || ltb now q.received_at in
    let (matched, h1) =
      unadded (not (market_instrument_eq q.instrument i)) wrong_quote_instrument
        (if late
          then future_quote ∷ []
          else add_if (ltb (q.exchange_at + f.max_age) now) stale_quote [])
        h in
    let (past, h2) =
      not_future late (add_if (ltb (q.exchange_at + f.max_age) now) stale_quote []) h1 in
    let (sent, received) = or_false (ltb now q.exchange_at) (ltb now q.received_at) past in
    let (recent, h3) = unadded (ltb (q.exchange_at + f.max_age) now) stale_quote [] h2 in
    (ground arith, ground arith, ground arith, ground arith)
  where
    not_future :
        (b : Bool) (rs : List MarketReason)
        → (if b then future_quote ∷ [] else rs) ≡ []
        → (b ≡ false) × (rs ≡ [])
    not_future true rs h = cc
    not_future false rs h = (refl, h)

bar_reasons-IsTradable :
    (f : Freshness) (calendar : TradingCalendar) (candles : List Candle) (i : MarketInstrument)
    (now : ℕ) (quote : Option MarketQuote) (s : Session) (r : Outcome MarketFailure (List Candle))
    → session_at calendar now ≡ some s
    → is_open s now ≡ true
    → ordered_candles (filter_candles (λ c. market_instrument_eq c.instrument i) candles) ≡ r
    → bar_reasons f i now quote s r ≡ []
    → IsTradable f calendar candles i now quote
unfolding bar_reasons
bar_reasons-IsTradable f calendar candles i now quote s (err e) today opened made h = cc
bar_reasons-IsTradable f calendar candles i now quote s (ok bars) today opened made h =
    let current = current_candles s bars in
    let completed = completed_candles now current in
    let (future, h1) =
      unadded (any (λ (c : Candle). ltb now c.closed_at) current) future_or_forming_candle
        (candle_reasons f (bounds s).0 now completed ++ quote_reasons f i now quote) h in
    let (bars_clear, quote_clear) =
      append-none (candle_reasons f (bounds s).0 now completed) (quote_reasons f i now quote) h1 in
    let (one, tiled, recent) = candle_reasons-none f (bounds s).0 now completed bars_clear in
    record {
      session = s;
      bars = bars;
      today = today;
      open_now = opened;
      ordered = made;
      no_future = future;
      some_candle = one;
      contiguous = tiled;
      recent = recent;
      current_quote = quote_reasons-none f i now quote quote_clear;
    }

session_market-IsTradable :
    (f : Freshness) (calendar : TradingCalendar) (candles : List Candle) (i : MarketInstrument)
    (now : ℕ) (quote : Option MarketQuote) (o : Option Session)
    → session_at calendar now ≡ o
    → session_market f i now quote candles o ≡ []
    → IsTradable f calendar candles i now quote
unfolding session_market
session_market-IsTradable f calendar candles i now quote none today h = cc
session_market-IsTradable f calendar candles i now quote (some s) today h =
    elim (Bool-cases (is_open s now)) [
      | inl opened ↦
          bar_reasons-IsTradable f calendar candles i now quote s _ today opened refl
            (rw opened at h)
      | inr closed ↦ cc (rw closed at h)
    ]

-- When `assess_market` allows trade, the session is open; the candles of the instrument have no
-- conflict, none of the session closes in the future, and the completed ones run without a gap from the
-- opening to at most the maximal age before now; and the quote, if one is given or required, is of the
-- instrument, not of the future and not stale.
pub assess_market-IsTradable :
    (f : Freshness) (calendar : TradingCalendar) (candles : List Candle) (i : MarketInstrument)
    (now : ℕ) (quote : Option MarketQuote) (reasons : List MarketReason)
    → assess_market f calendar candles i now quote ≡ ok reasons
    → trade_allowed reasons ≡ true
    → IsTradable f calendar candles i now quote
unfolding assess_market trade_allowed
assess_market-IsTradable f calendar candles i now quote reasons h allowed =
    session_market-IsTradable f calendar candles i now quote (session_at calendar now) refl (
      none_of reasons
        (Returning-eq (λ rs. rs ≡ market) (raise_if (f.interval == 0) invalid_policy >> ok market)
          (Returning-then (λ rs. rs ≡ market) (raise_if (f.interval == 0) invalid_policy)
            (ok market) (λ _. refl))
          h)
        allowed)
  where
    market : List MarketReason
    market = session_market f i now quote candles (session_at calendar now)

    none_of : (rs : List MarketReason) → rs ≡ market → not (is_nonempty rs) ≡ true → market ≡ []
    none_of [] e a = sym e
    none_of (r ∷ rs) e a = cc
