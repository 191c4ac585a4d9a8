-- ===== src/Desk/Books.antt =====
-- The books of the desk of src/kiwit/banknifty.py: cash and cost against amount and profit.
use kiwi_t.Prelude.{
  ℕ, ◌+◌, ◌≤◌, ◌≡◌, ◌∙◌, true, ◌==◌, Option, none, some, List, [], ◌∷◌, if-intro, arith, min, subst,
}
use kiwi_t.Prelude.Int.{ℤ, pos, pos_part, neg_part, ◌+ℤ◌, ◌-ℤ◌, int_laws, eq_of_parts}
use kiwi_t.Options.Gate.{entry_cap}
use kiwi_t.Options.Capacities.{whole-le}
use kiwi_t.Desk.State.{
  DeskState, DeskPosition, DeskQuote, DeskEvent, paper_exit, ExitReason, DeskArithmetic,
}
use kiwi_t.Desk.Exit.{
  exit_quantity, exit_proceeds, exit_cost, exit_profit, reduced, credited, after_sale,
  sell_position,
}
use kiwi_t.Desk.Monitor.{marked}

-- two amounts differ by at most a number of grains
pub record IsNear (k : ℕ) (x y : ℤ) : Type 0 where
  pub above : pos_part x + neg_part y ≤ pos_part y + neg_part x + k
  pub below : pos_part y + neg_part x ≤ pos_part x + neg_part y + k

-- the cost of the open position
unfoldable pub remaining : Option DeskPosition → ℤ
remaining none = pos 0
remaining (some p) = p.entry_cost_remaining

-- the grains by which the exits among events may round
unfoldable pub allowance : ℕ → List DeskEvent → ℕ
allowance e [] = 0
allowance e (x ∷ rest) =
    let later = allowance e rest in
    elim x [ paper_exit id quantity price pnl reason closed ↦ e + later | _ ↦ later ]

-- What the books of the session of a day keep, up to a number of grains.
pub record IsKept (day k : ℕ) (s : DeskState) : Type 0 where
  pub dated : s.day ≡ day
  pub balanced : IsNear k (s.cash +ℤ remaining s.position) (pos s.amount +ℤ s.realized_pnl)
  pub capped : s.entries ≤ entry_cap
  pub resumed : s.resumes ≤ 1

pub IsKept-loosened : (day k l : ℕ) (s : DeskState) → k ≤ l → IsKept day k s → IsKept day l s
IsKept-loosened day k l s le h = record {
  balanced = record {
    above = omega (arith, le, h.balanced.above);
    below = omega (arith, le, h.balanced.below);
  };
  capped = h.capped;
  resumed = h.resumed;
  dated = h.dated;
}

-- the fields that the books read are the same
pub same_books :
    (day k : ℕ) (s t : DeskState)
    → t.day ≡ s.day
    → t.cash ≡ s.cash
    → remaining t.position ≡ remaining s.position
    → t.amount ≡ s.amount
    → t.realized_pnl ≡ s.realized_pnl
    → t.entries ≡ s.entries
    → t.resumes ≡ s.resumes
    → IsKept day k s
    → IsKept day k t
same_books day k s t d c r a p m u h = record {
  dated = d ∙ h.dated;
  balanced = rw c (rw r (rw a (rw p h.balanced)));
  capped = rw m h.capped;
  resumed = rw u h.resumed;
}

-- rounding moves an amount by at most the given grains
abbrev pub RoundsWithin : ℕ → DeskArithmetic → Type 0
RoundsWithin e m = (x : ℤ) → IsNear e (m.quantize x) x

sold_balance :
    (e k : ℕ) (cash cost amount profit proceeds sold gain : ℤ)
    → IsNear k (cash +ℤ cost) (amount +ℤ profit)
    → IsNear e gain (proceeds -ℤ sold)
    → IsNear (e + k) ((cash +ℤ proceeds) +ℤ (cost -ℤ sold)) (amount +ℤ (profit +ℤ gain))
sold_balance e k cash cost amount profit proceeds sold gain h g = record {
  above = omega (int_laws, h.above, h.below, g.above, g.below);
  below = omega (int_laws, h.above, h.below, g.above, g.below);
}

pub IsKept-marked :
    (m : DeskArithmetic) (day k : ℕ) (s : DeskState) (p : DeskPosition) (q : DeskQuote)
    → s.position ≡ some p
    → IsKept day k s
    → IsKept day k (marked m s p q)
unfolding marked remaining
IsKept-marked m day k s p q held h = record {
  balanced =
      subst (λ o. IsNear k (s.cash +ℤ remaining o) (pos s.amount +ℤ s.realized_pnl)) held
        h.balanced;
  capped = h.capped;
  resumed = h.resumed;
  dated = h.dated;
}

exit_quantity-le : (p : DeskPosition) (q : DeskQuote) → exit_quantity p q ≤ p.quantity
unfolding exit_quantity
exit_quantity-le p q = omega (arith, whole-le p.contract.terms.lot (min p.quantity q.book.bid_size))

module _ (m : DeskArithmetic) (e : ℕ) (rounds : RoundsWithin e m) where
  -- the amounts after a sale, with the cost that is left
  credited-IsNear :
      (k : ℕ) (s : DeskState) (p : DeskPosition) (q : DeskQuote)
      → IsNear k (s.cash +ℤ p.entry_cost_remaining) (pos s.amount +ℤ s.realized_pnl)
      → IsNear
          (e + k)
          ((credited m s p q).cash +ℤ (reduced m p q).entry_cost_remaining)
          (pos s.amount +ℤ (credited m s p q).realized_pnl)
  unfolding credited reduced exit_profit
  credited-IsNear k s p q h =
      sold_balance e k s.cash p.entry_cost_remaining (pos s.amount) s.realized_pnl
        (exit_proceeds m p q) (exit_cost m p (exit_quantity p q))
        (m.quantize (exit_proceeds m p q -ℤ exit_cost m p (exit_quantity p q))) h
        (rounds (exit_proceeds m p q -ℤ exit_cost m p (exit_quantity p q)))

  -- nothing is left of the cost of a position that is sold whole
  reduced-spent :
      (p : DeskPosition) (q : DeskQuote)
      → ((reduced m p q).quantity == 0) ≡ true
      → (reduced m p q).entry_cost_remaining ≡ pos 0
  unfolding reduced exit_cost
  reduced-spent p q h =
      if-intro (λ cost. p.entry_cost_remaining -ℤ cost ≡ pos 0) (exit_quantity p q == p.quantity) _
        _ (λ same. eq_of_parts _ _ (omega int_laws))
        (λ other. ground (arith, exit_quantity-le p q, h, other))

  pub sell_position-IsKept :
      (day k : ℕ) (s : DeskState) (p : DeskPosition) (q : DeskQuote) (reason : ExitReason) (now : ℕ)
      → IsNear k (s.cash +ℤ p.entry_cost_remaining) (pos s.amount +ℤ s.realized_pnl)
      → IsKept day k s
      → IsKept day (e + k) (sell_position m s p q reason now).0
  unfolding sell_position after_sale remaining reduced credited
  sell_position-IsKept day k s p q reason now near h =
      if-intro (IsKept day (e + k)) ((reduced m p q).quantity == 0) _ _
        (λ spent. record {
          balanced =
              subst
                (λ c.
                  IsNear (e + k) ((credited m s p q).cash +ℤ c)
                    (pos s.amount +ℤ (credited m s p q).realized_pnl))
                (reduced-spent p q spent) (credited-IsNear k s p q near);
          capped = h.capped;
          resumed = h.resumed;
          dated = h.dated;
        })
        (λ part. record {
          balanced = credited-IsNear k s p q near;
          capped = h.capped;
          resumed = h.resumed;
          dated = h.dated;
        })
