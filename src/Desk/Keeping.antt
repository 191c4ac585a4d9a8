-- ===== src/Desk/Keeping.antt =====
-- The books of the desk of src/kiwit/banknifty.py over each of its operations.
use kiwi_t.Prelude.{
  ℕ, ◌+◌, ◌≡◌, refl, not, ◌||◌, Option, none, some, List, [], if-intro, String, str_eq, is_some,
  arith, subst,
}
use kiwi_t.Prelude.Int.{pos, ◌+ℤ◌}
use kiwi_t.Desk.State.{DeskState, DeskPosition, DeskQuote, DeskEvent, ExitReason, DeskArithmetic}
use kiwi_t.Desk.Clock.{market_window}
use kiwi_t.Desk.Exit.{Sample, fresh, is_unsellable, sell_position, close_at}
use kiwi_t.Desk.Monitor.{
  DeskEnvironment, ticked, flat, marked, close_if, valued, watched, monitor_open, monitor,
}
use kiwi_t.Desk.Books.{
  IsNear, IsKept, IsKept-loosened, IsKept-marked, remaining, allowance, RoundsWithin, same_books,
  sell_position-IsKept,
}

-- the books of what an operation leaves
abbrev pub StaysKept : ℕ → ℕ → ℕ → DeskState × List DeskEvent → Type 0
StaysKept e day k r = IsKept day (allowance e r.1 + k) r.0

pub StaysKept-quiet : (e day k : ℕ) (s : DeskState) → IsKept day k s → StaysKept e day k (s, [])
unfolding allowance
StaysKept-quiet e day k s h = IsKept-loosened day k _ s (omega arith) h

module _ (m : DeskArithmetic) (e : ℕ) (rounds : RoundsWithin e m) where
  close_at-StaysKept :
      (day k : ℕ) (s : DeskState) (p : DeskPosition) (q : DeskQuote) (reason : ExitReason) (now : ℕ)
      → remaining s.position ≡ p.entry_cost_remaining
      → IsKept day k s
      → StaysKept e day k (close_at m s p q reason now)
  unfolding close_at sell_position allowance
  close_at-StaysKept day k s p q reason now held h =
      if-intro (StaysKept e day k) (not (market_window now) || is_unsellable p q now) _ _
        (λ _. StaysKept-quiet e day k s h)
        (λ _. IsKept-loosened day (e + k) _ _ (omega arith) (
          sell_position-IsKept m e rounds day k s p q reason now
            (subst (λ c. IsNear k (s.cash +ℤ c) (pos s.amount +ℤ s.realized_pnl)) held h.balanced)
            h))

  close_if-StaysKept :
      (day k : ℕ) (s : DeskState) (p : DeskPosition) (q : DeskQuote) (reason : Option ExitReason)
      (now : ℕ)
      → remaining s.position ≡ p.entry_cost_remaining
      → IsKept day k s
      → StaysKept e day k (close_if m s p q reason now)
  unfolding close_if
  close_if-StaysKept day k s p q none now held h = StaysKept-quiet e day k s h
  close_if-StaysKept day k s p q (some reason) now held h =
      close_at-StaysKept day k s p q reason now held h

  valued-StaysKept :
      (day k : ℕ) (s : DeskState) (p : DeskPosition) (quote : Option DeskQuote)
      (underlying : Option Sample) (now : ℕ)
      → s.position ≡ some p
      → IsKept day k s
      → StaysKept e day k (valued m s p quote underlying now)
  unfolding valued marked remaining
  valued-StaysKept day k s p none underlying now held h =
      StaysKept-quiet e day k _ (same_books day k s _ refl refl refl refl refl refl refl h)
  valued-StaysKept day k s p (some q) underlying now held h =
      if-intro (StaysKept e day k) (fresh (some q) now) _ _
        (λ _.
          close_if-StaysKept day k (marked m s p q) _ q _ now refl
            (IsKept-marked m day k s p q held h))
        (λ _. StaysKept-quiet e day k _ (same_books day k s _ refl refl refl refl refl refl refl h))

  watched-StaysKept :
      (day k : ℕ) (s : DeskState) (held : Option DeskPosition) (quoted : Option String)
      (quote : Option DeskQuote) (underlying : Option Sample) (now : ℕ)
      → s.position ≡ held
      → IsKept day k s
      → StaysKept e day k (watched m s held quoted quote underlying now)
  unfolding watched
  watched-StaysKept day k s none quoted quote underlying now here h = StaysKept-quiet e day k s h
  watched-StaysKept day k s (some p) none quote underlying now here h = StaysKept-quiet e day k s h
  watched-StaysKept day k s (some p) (some id) quote underlying now here h =
      if-intro (StaysKept e day k) (str_eq p.id id) _ _
        (λ _. valued-StaysKept day k s p quote underlying now here h)
        (λ _. StaysKept-quiet e day k s h)

  flat-IsKept : (day k : ℕ) (s : DeskState) → IsKept day k s → IsKept day k (flat s)
  unfolding flat
  flat-IsKept day k s h =
      if-intro (IsKept day k) (is_some s.position) _ _ (λ _. h)
        (λ _. same_books day k s _ refl refl refl refl refl refl refl h)

  pub monitor-StaysKept :
      (day k : ℕ) (env : DeskEnvironment) (s : DeskState) (quoted : Option String)
      (quote : Option DeskQuote) (underlying : Option Sample) (now : ℕ)
      → IsKept day k s
      → StaysKept e day k (monitor m env s quoted quote underlying now)
  unfolding monitor monitor_open ticked
  monitor-StaysKept day k env s quoted quote underlying now h =
      if-intro (StaysKept e day k) _ _ _ (λ _. StaysKept-quiet e day k s h)
        (λ _. flat-IsKept _ _ _ (
          watched-StaysKept day k (ticked env s now) s.position quoted quote underlying now refl
            (same_books day k s _ refl refl refl refl refl refl refl h)))
