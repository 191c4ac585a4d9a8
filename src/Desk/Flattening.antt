-- ===== src/Desk/Flattening.antt =====
-- A session of src/kiwit/banknifty.py that is stopping, over repeated calls of `_monitor`.
use kiwi_t.Prelude.{
  suc, ℕ, ◌-◌, ◌*◌, ◌/◌, ◌≤◌, ◌<◌, ◌≡◌, refl, sym, ap, ◌∙◌, subst, String, true, false, ltb, ◌==◌,
  Option, none, some, List, [], ◌∷◌, min, if◌then◌else◌, if-intro, inl, inr, ◌⊎◌, Bool-cases, arith,
  eq_iff,
}
use native.Mathlib.Nat.{le-div_iff_mul-le}
use kiwi_t.Calendar.{ist_date}
use kiwi_t.Options.Sizing.{whole}
use kiwi_t.Options.Costs.{fill_price}
use kiwi_t.Desk.Clock.{market_window}
use kiwi_t.Desk.State.{
  DeskState, stopping, completed, is_completed, DeskPosition, DeskContract, DeskQuote,
  DeskArithmetic, session_stop,
}
use kiwi_t.Desk.Exit.{
  Sample, fresh, is_at, exit_quantity, exit_price, is_unsellable, reduced, after_sale,
  sell_position, close_at, credited,
}
use kiwi_t.Desk.Monitor.{
  DeskEnvironment, is_ending, ticked, exit_reason, flat, marked, close_if, valued, watched,
  monitor_open, monitor,
}

-- a call of `_monitor` at which the market answered
pub record Observation : Type 0 where
  pub env : DeskEnvironment
  pub now : ℕ
  pub quote : DeskQuote
  pub underlying : Option Sample

abbrev pub position_id : Option DeskPosition → Option String
position_id none = none
position_id (some p) = some p.id

-- calls of `_monitor`, one after the other
unfoldable pub monitor_all : DeskArithmetic → List Observation → DeskState → DeskState
monitor_all m [] s = s
monitor_all m (o ∷ rest) s =
    monitor_all m rest
      (monitor m o.env s (position_id s.position) (some o.quote) o.underlying o.now).0

-- The quote is fresh, in market hours and before the expiry, shows a lot at least, and has a price to sell at.
pub record IsExecutable (c : DeskContract) (o : Observation) : Type 0 where
  pub timely : fresh (some o.quote) o.now ≡ true
  pub in_market : market_window o.now ≡ true
  pub unexpired : ltb c.expiry (ist_date o.now) ≡ false
  pub deep : c.terms.lot ≤ o.quote.book.bid_size
  pub priced : (fill_price c.terms.tick o.quote.book.bid false == 0) ≡ false

-- no quote has the time of the one before it
abbrev pub Renewed : Option ℕ → List Observation → Type 0
Renewed last [] = Unit
Renewed last (o ∷ rest) = (is_at last o.quote.stamp ≡ false) × Renewed (some o.quote.stamp) rest

-- the position with the marks of a quote
abbrev pub remarked : DeskPosition → DeskQuote → DeskPosition
remarked p q = record p { mark = some (exit_price p q); mark_at = some q.stamp }

-- what a sale leaves of a stopping session
pub record IsReduced (p : DeskPosition) (q : DeskQuote) (s : DeskState) : Type 0 where
  pub left : DeskPosition
  pub held : s.position ≡ some left
  pub still : s.status ≡ stopping
  pub same_contract : left.contract ≡ p.contract
  pub counted : left.quantity ≡ p.quantity - exit_quantity p q
  pub nonempty : (left.quantity == 0) ≡ false
  pub sold_at : left.last_exit_quote ≡ some q.stamp

pub sold_cases :
    (m : DeskArithmetic) (s : DeskState) (p : DeskPosition) (q : DeskQuote) (now : ℕ)
    → s.status ≡ stopping
    → ((flat (sell_position m s p q session_stop now).0).position ≡ none)
        × ((flat (sell_position m s p q session_stop now).0).status ≡ completed)
      ⊎ IsReduced p q (flat (sell_position m s p q session_stop now).0)
unfolding flat sell_position after_sale reduced credited
sold_cases m s p q now still = elim (Bool-cases (p.quantity - exit_quantity p q == 0)) [
  | inl spent ↦ inl (rw spent (rw still (refl, refl)))
  | inr part ↦ inr (
      rw part (record {
        left = record (reduced m p q) { exit_pending = some session_stop };
        held = refl;
        still = still;
        same_contract = refl;
        counted = refl;
        nonempty = part;
        sold_at = refl;
      }))
]

close_at_sells :
    (m : DeskArithmetic) (s : DeskState) (p : DeskPosition) (o : Observation)
    → IsExecutable p.contract o
    → is_at p.last_exit_quote o.quote.stamp ≡ false
    → (exit_quantity p o.quote == 0) ≡ false
    → close_at m s p o.quote session_stop o.now ≡ sell_position m s p o.quote session_stop o.now
unfolding close_at is_unsellable exit_price
close_at_sells m s p o x new some_lot =
    rw x.in_market (rw x.unexpired (rw new (rw some_lot (rw x.priced refl))))

valued_sells :
    (m : DeskArithmetic) (s : DeskState) (p : DeskPosition) (o : Observation)
    → s.status ≡ stopping
    → IsExecutable p.contract o
    → is_at p.last_exit_quote o.quote.stamp ≡ false
    → (exit_quantity p o.quote == 0) ≡ false
    → valued m s p (some o.quote) o.underlying o.now
      ≡ sell_position m (marked m s p o.quote) (remarked p o.quote) o.quote session_stop o.now
unfolding valued exit_reason close_if marked exit_quantity
valued_sells m s p o still x new some_lot = rw x.timely (
    rw still (
      close_at_sells m _ (remarked p o.quote) o
        (record {
          timely = x.timely;
          in_market = x.in_market;
          unexpired = x.unexpired;
          deep = x.deep;
          priced = x.priced;
        })
        new some_lot))

pub ticked_stopping :
    (env : DeskEnvironment) (s : DeskState) (now : ℕ)
    → s.status ≡ stopping
    → (ticked env s now).status ≡ stopping
unfolding ticked
ticked_stopping env s now still =
    if-intro (λ x. x ≡ stopping) (is_ending env s now) _ _ (λ _. refl) (λ _. still)

watched_sells :
    (m : DeskArithmetic) (s : DeskState) (p : DeskPosition) (o : Observation)
    → s.status ≡ stopping
    → IsExecutable p.contract o
    → is_at p.last_exit_quote o.quote.stamp ≡ false
    → (exit_quantity p o.quote == 0) ≡ false
    → watched m s (some p) (some p.id) (some o.quote) o.underlying o.now
      ≡ sell_position m (marked m s p o.quote) (remarked p o.quote) o.quote session_stop o.now
unfolding watched
watched_sells m s p o still x new some_lot =
    rw ((eq_iff p.id p.id).1 refl) (valued_sells m s p o still x new some_lot)

pub monitor_sells :
    (m : DeskArithmetic) (s : DeskState) (p : DeskPosition) (o : Observation)
    → s.status ≡ stopping
    → s.position ≡ some p
    → IsExecutable p.contract o
    → is_at p.last_exit_quote o.quote.stamp ≡ false
    → (exit_quantity p o.quote == 0) ≡ false
    → (monitor m o.env s (some p.id) (some o.quote) o.underlying o.now).0
      ≡ flat
          (sell_position m
            (marked m (ticked o.env s o.now) p o.quote)
            (remarked p o.quote)
            o.quote
            session_stop
            o.now).0
unfolding monitor monitor_open
monitor_sells m s p o still held x new some_lot =
    ap
      (λ status.
        (if is_completed status
          then (s, [])
          else monitor_open m o.env s (some p.id) (some o.quote) o.underlying o.now).0)
      still
    ∙ ap
        (λ h.
          flat (watched m (ticked o.env s o.now) h (some p.id) (some o.quote) o.underlying o.now).0)
        held
    ∙ ap (λ r. flat r.0)
        (watched_sells m (ticked o.env s o.now) p o (ticked_stopping o.env s o.now still) x new
          some_lot)

-- At least one lot is sold, if one is left and shown.
pub exit_quantity-lots :
    (p : DeskPosition) (q : DeskQuote) (lots : ℕ)
    → 0 < p.contract.terms.lot
    → p.quantity ≡ suc lots * p.contract.terms.lot
    → p.contract.terms.lot ≤ q.book.bid_size
    → (sold : ℕ) × (0 < sold) × (exit_quantity p q ≡ sold * p.contract.terms.lot)
unfolding exit_quantity whole
exit_quantity-lots p q lots positive counted deep =
    let lot = p.contract.terms.lot in
    let one : 1 ≤ min p.quantity q.book.bid_size / lot =
      (le-div_iff_mul-le {k = lot} {x = 1} {y = min p.quantity q.book.bid_size} positive).1
        (omega (arith, deep, counted)) in
    (min p.quantity q.book.bid_size / lot, one, refl)

-- A session that is complete stays so.
pub monitor_all-Complete :
    (m : DeskArithmetic) (rest : List Observation) (s : DeskState)
    → s.position ≡ none
    → s.status ≡ completed
    → ((monitor_all m rest s).position ≡ none) × ((monitor_all m rest s).status ≡ completed)
unfolding monitor_all monitor
monitor_all-Complete m [] s clear done = (clear, done)
monitor_all-Complete m (o ∷ rest) s clear done =
    let same : (monitor m o.env s (position_id s.position) (some o.quote) o.underlying o.now).0
        ≡ s =
      ap
        (λ status.
          (if is_completed status
            then (s, [])
            else monitor_open m o.env s (position_id s.position) (some o.quote) o.underlying
                o.now).0)
        done in
    subst
      (λ t. ((monitor_all m rest t).position ≡ none) × ((monitor_all m rest t).status ≡ completed))
      (sym same) (monitor_all-Complete m rest s clear done)
