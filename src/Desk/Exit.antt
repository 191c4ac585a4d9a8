-- ===== src/Desk/Exit.antt =====
-- `_close` of src/kiwit/banknifty.py and `underlying_exit` of src/kiwit/playbooks.py.
use kiwi_t.Prelude.{
  ℕ, ◌-◌, ◌*◌, Bool, false, not, ◌&&◌, ◌||◌, ltb, leb, ◌==◌, Option, none, some, List, [], ◌∷◌, min,
  if◌then◌else◌, is_fresh,
}
use kiwi_t.Prelude.Int.{ℤ, pos, ◌+ℤ◌, ◌-ℤ◌}
use kiwi_t.Calendar.{ist_date, seconds}
use kiwi_t.Options.Costs.{Side, fill_price}
use kiwi_t.Options.Sizing.{whole}
use kiwi_t.Desk.Clock.{market_window, age_ok}
use kiwi_t.Desk.State.{
  DeskState, DeskPosition, DeskQuote, DeskEvent, paper_exit, ExitReason, DeskArithmetic, completed,
  is_stopping, charge,
}

-- `fresh`
unfoldable pub fresh : Option DeskQuote → ℕ → Bool
fresh none now = false
fresh (some q) now = is_fresh now q.stamp (seconds 90)

-- an optional time is the given one
abbrev pub is_at : Option ℕ → ℕ → Bool
is_at none t = false
is_at (some s) t = s == t

-- a sample of the underlying
pub record Sample : Type 0 where
  pub at : ℕ
  pub spot : ℕ

-- `underlying_exit`
unfoldable pub underlying_exit : DeskPosition → Option Sample → ℕ → Bool
underlying_exit p none now = false
underlying_exit p (some sample) now = elim p.plan [
  | none ↦ false
  | some plan ↦
      age_ok (some sample.at) now 180
      && (not (ltb sample.at p.entered_at)
          && (if plan.is_call
              then leb sample.spot plan.invalidation
              else leb plan.invalidation sample.spot))
]

-- the units that are sold: whole lots within the displayed bid
unfoldable pub exit_quantity : DeskPosition → DeskQuote → ℕ
exit_quantity p q = whole p.contract.terms.lot (min p.quantity q.book.bid_size)

unfoldable pub exit_price : DeskPosition → DeskQuote → ℕ
exit_price p q = fill_price p.contract.terms.tick q.book.bid false

-- the guards of `_close` on a position and a fresh quote
unfoldable pub is_unsellable : DeskPosition → DeskQuote → ℕ → Bool
is_unsellable p q now =
    ltb p.contract.expiry (ist_date now)
    || (is_at p.last_exit_quote q.stamp || (exit_quantity p q == 0 || exit_price p q == 0))

module _ (m : DeskArithmetic) where
  -- `proceeds`
  unfoldable pub exit_proceeds : DeskPosition → DeskQuote → ℤ
  exit_proceeds p q =
      let value = exit_price p q * exit_quantity p q in
      pos value -ℤ pos (charge m.rupee value Side.sell)

  -- `entry_cost`
  unfoldable pub exit_cost : DeskPosition → ℕ → ℤ
  exit_cost p sold =
      if sold == p.quantity
      then p.entry_cost_remaining
      else m.share p.entry_cost_remaining sold p.quantity

  -- `realized`
  unfoldable pub exit_profit : DeskPosition → DeskQuote → ℤ
  exit_profit p q = m.quantize (exit_proceeds p q -ℤ exit_cost p (exit_quantity p q))

  -- the position that is left
  unfoldable pub reduced : DeskPosition → DeskQuote → DeskPosition
  reduced p q = record p {
    entry_cost_remaining = p.entry_cost_remaining -ℤ exit_cost p (exit_quantity p q);
    quantity = p.quantity - exit_quantity p q;
    last_exit_quote = some q.stamp;
  }

  -- the amounts after a sale
  unfoldable pub credited : DeskState → DeskPosition → DeskQuote → DeskState
  credited s p q = record s {
    cash = s.cash +ℤ exit_proceeds p q;
    realized_pnl = s.realized_pnl +ℤ exit_profit p q;
  }

  -- the last lines of `_close`
  unfoldable pub after_sale : DeskState → DeskPosition → ExitReason → ℕ → DeskState
  after_sale s p reason now =
      if p.quantity == 0
      then record s {
        position = none;
        last_exit = some now;
        pnl = s.realized_pnl;
        status = if is_stopping s.status then completed else s.status;
      }
      else record s { position = some (record p { exit_pending = some reason }) }

  -- the sale of `_close`
  unfoldable pub sell_position :
      DeskState → DeskPosition → DeskQuote → ExitReason → ℕ → DeskState × List DeskEvent
  sell_position s p q reason now =
      let sold = exit_quantity p q in
      (
        after_sale (credited s p q) (reduced p q) reason now,
        paper_exit p.id sold (exit_price p q) (exit_profit p q) reason (p.quantity - sold == 0)
            ∷ [],
      )

  -- `_close` of the position of a state at a fresh quote
  unfoldable pub close_at :
      DeskState → DeskPosition → DeskQuote → ExitReason → ℕ → DeskState × List DeskEvent
  close_at s p q reason now =
      if not (market_window now) || is_unsellable p q now
      then (s, [])
      else sell_position s p q reason now
