-- ===== src/Simulator/Conservation.antt =====
-- Money is conserved: cash and the amounts locked in positions move with the realized profit.
use kiwi_t.Prelude.{
  ℕ, ◌+◌, ◌≡◌, refl, inl, inr, true, false, not, Option, none, some, List, [], ◌∷◌, ◌++◌, map,
  arith, or_raise, Returning, Returning-bind, Returning-then, Returning-eq, Returning-if,
  or_raise_ok, ap, ◌∙◌, if-intro, String, eq_iff, is_some, sym, raise_if,
}
use kiwi_t.Calendar.{TradingCalendar}
use kiwi_t.Simulator.Orders.{find_order-cons, find_order-id, checked_order-pending}
use kiwi_t.Prelude.Int.{pos, ◌+ℤ◌, ◌-ℤ◌, int_laws, parts_of_eq, eq_of_parts}
use kiwi_t.Simulator.Types.{
  FillRules, Quote, Order, State, Account, Entry, Status, pending, opened, exit_pending,
  unknown_order, only_pending, Reason,
}
use kiwi_t.Simulator.Methods.{
  add_order, cancel_order, end_orders, apply_quote, quote_orders, find_order, replace_order,
  is_pending, cancelled_order,
}
use kiwi_t.Simulator.Store.{text_before, insert_order, sort_orders, stored_state}
use kiwi_t.Simulator.Invariant.{HoldsState, IsKept}
use kiwi_t.Simulator.Step.{is_held, fill_order, close_order, end_order, marked, quote_order}
use kiwi_t.Simulator.Quoted.{
  Quoted, untouched, expired, refused, taken, watched, left, QuotedFlagged, quote_order-Quoted,
}

-- what a position holds back: its collateral and the fee of its entry
abbrev pub held_amount : Option Entry → ℕ
held_amount none = 0
held_amount (some e) = e.collateral + e.fee

abbrev pub locked_at : Status → Option Entry → ℕ
locked_at opened e = held_amount e
locked_at exit_pending e = held_amount e
locked_at _ e = 0

abbrev pub locked : Order → ℕ
locked o = locked_at o.status o.entered

unfoldable pub locked_sum : List Order → ℕ
locked_sum [] = 0
locked_sum (o ∷ rest) = locked o + locked_sum rest

locked_sum-insert_order :
    (o : Order) (os : List Order) → locked_sum (insert_order o os) ≡ locked o + locked_sum os
unfolding locked_sum insert_order
locked_sum-insert_order o [] = refl
locked_sum-insert_order o (x ∷ rest) =
    if-intro (λ l. locked_sum l ≡ locked o + (locked x + locked_sum rest)) (text_before x.id o.id) _
      _ (λ _. omega (arith, locked_sum-insert_order o rest)) (λ _. refl)

locked_sum-sort_orders : (os : List Order) → locked_sum (sort_orders os) ≡ locked_sum os
unfolding locked_sum sort_orders
locked_sum-sort_orders [] = refl
locked_sum-sort_orders (o ∷ rest) =
    locked_sum-insert_order o (sort_orders rest)
    ∙ ap (λ n. locked o + n) (locked_sum-sort_orders rest)

-- `p` has as much as the account and the order that it came from.
abbrev pub Conserves : Account → Order → Account × Order → Type 0
Conserves acct o p =
    p.0.cash +ℤ pos (locked p.1) -ℤ p.0.realized_pnl
    ≡ acct.cash +ℤ pos (locked o) -ℤ acct.realized_pnl

fill_order-Conserves :
    (r : FillRules) (q : Quote) (now : ℕ) (acct : Account) (o : Order) (fill : ℕ)
    → o.status ≡ pending
    → Conserves acct o (fill_order r q now acct o fill)
unfolding fill_order
fill_order-Conserves r q now acct o fill h = rw h (omega int_laws)

pub locked_of_held :
    (s : Status) (e : Option Entry) → is_held s ≡ true → locked_at s e ≡ held_amount e
locked_of_held s e h = ground arith

pub locked_of_unheld : (s : Status) (e : Option Entry) → is_held s ≡ false → locked_at s e ≡ 0
locked_of_unheld s e h = ground arith

close_order-Conserves :
    (r : FillRules) (now : ℕ) (acct : Account) (o : Order) (why : Reason) (e : Entry) (fill : ℕ)
    → o.entered ≡ some e
    → is_held o.status ≡ true
    → Conserves acct o (close_order r now acct o why e fill)
unfolding close_order
close_order-Conserves r now acct o why e fill h k =
    rw (locked_of_held o.status o.entered k, h) (omega int_laws)

-- One order at a quote, on every branch.
Quoted-Conserves :
    (r : FillRules) (q : Quote) (now : ℕ) (acct : Account) (o : Order) (p : Account × Order)
    → Quoted r q now acct o p
    → Conserves acct o p
Quoted-Conserves r q now acct o _ untouched = refl
Quoted-Conserves r q now acct o _ (expired h k) = rw h refl
Quoted-Conserves r q now acct o _ (refused fill h e k) = rw h refl
Quoted-Conserves r q now acct o _ (taken fill h e k) = fill_order-Conserves r q now acct o fill h
Quoted-Conserves r q now acct o _ (watched h k) = refl
Quoted-Conserves r q now acct o _ (left fill x h k e there) =
    close_order-Conserves r now acct (marked q o) _ x fill there h

locked_sum-append : (xs ys : List Order) → locked_sum (xs ++ ys) ≡ locked_sum xs + locked_sum ys
unfolding locked_sum
locked_sum-append [] ys = omega arith
locked_sum-append (o ∷ xs) ys = omega (arith, locked_sum-append xs ys)

-- Over all orders: what the loop of `on_quote` leaves is what it began with.
abbrev pub ConservesAll : Account → List Order → Account × List Order × List Order → Type 0
ConservesAll acct os t =
    t.0.cash +ℤ pos (locked_sum t.1) -ℤ t.0.realized_pnl
    ≡ acct.cash +ℤ pos (locked_sum os) -ℤ acct.realized_pnl

pub quote_orders-Conserves :
    (r : FillRules) (q : Quote) (now : ℕ) (acct : Account) (os : List Order)
    → Returning (ConservesAll acct os) (quote_orders r q now acct os)
unfolding quote_orders locked_sum
quote_orders-Conserves r q now acct [] = refl
quote_orders-Conserves r q now acct (o ∷ rest) =
    Returning-bind (ConservesAll acct (o ∷ rest)) (quote_order r q now acct o) _ (λ p e.
      Returning-bind (ConservesAll acct (o ∷ rest)) (quote_orders r q now p.0 rest) _ (λ t e'.
        omega (
          int_laws,
          parts_of_eq _ _ (
              Quoted-Conserves r q now acct o (p.0, p.1)
                (Returning-eq (QuotedFlagged r q now acct o) _ (quote_order-Quoted r q now acct o)
                  e)),
          parts_of_eq _ _
              (Returning-eq (ConservesAll p.0 rest) _ (quote_orders-Conserves r q now p.0 rest) e'),
        )))

-- The books of a state balance, for an initial capital.
abbrev pub IsBalanced : ℕ → State → Type 0
IsBalanced capital s =
    s.account.cash +ℤ pos (locked_sum s.orders) ≡ pos capital +ℤ s.account.realized_pnl

locked-end_order : (at : ℕ) (o : Order) → locked (end_order at o) ≡ locked o
unfolding end_order
locked-end_order at o = ground arith

locked_sum-end_order :
    (at : ℕ) (os : List Order) → locked_sum (map (end_order at) os) ≡ locked_sum os
unfolding locked_sum
locked_sum-end_order at [] = refl
locked_sum-end_order at (o ∷ rest) =
    omega (arith, locked-end_order at o, locked_sum-end_order at rest)

locked_sum-replace :
    (id : String) (o' o : Order) (os : List Order)
    → find_order id os ≡ some o
    → o'.id ≡ id
    → locked o' ≡ locked o
    → locked_sum (replace_order o' os) ≡ locked_sum os
unfolding locked_sum find_order replace_order
locked_sum-replace id o' o [] h e l = cc
locked_sum-replace id o' o (x ∷ rest) h e l = elim (find_order-cons id x rest o h) [
  | inl (same, p) ↦
      rw (e, same, (eq_iff id id).1 refl)
        (rw l (ap (λ (y : Order). locked y + locked_sum rest) (sym p)))
  | inr (other, later) ↦ rw (e, other) (omega (arith, locked_sum-replace id o' o rest later e l))
]

add_order-IsBalanced :
    (capital : ℕ) (o : Order) (s : State)
    → o.status ≡ pending
    → IsBalanced capital s
    → Returning (HoldsState (IsBalanced capital)) (add_order o s)
unfolding add_order locked_sum
add_order-IsBalanced capital o s h b =
    Returning-if (HoldsState (IsBalanced capital)) (is_some (find_order o.id s.orders)) _ _
      (λ _. tt)
      (λ _. eq_of_parts _ _ (rw locked_sum-append (rw h (omega (int_laws, parts_of_eq _ _ b)))))

cancel_order-IsBalanced :
    (capital : ℕ) (id : String) (s : State)
    → IsBalanced capital s
    → Returning (HoldsState (IsBalanced capital)) (cancel_order id s)
unfolding cancel_order
cancel_order-IsBalanced capital id s b =
    Returning-bind (HoldsState (IsBalanced capital))
      (or_raise (find_order id s.orders) unknown_order) _
      (λ o e.
        Returning-then (HoldsState (IsBalanced capital))
          (raise_if (not (is_pending o.status)) only_pending) _
          (λ k.
            let there = or_raise_ok (find_order id s.orders) unknown_order e in
            rw
              (locked_sum-replace id (cancelled_order o) o s.orders there
                (find_order-id id s.orders o there) (ground arith))
              b))

end_orders-IsBalanced :
    (capital : ℕ) (at : ℕ) (s : State)
    → IsBalanced capital s
    → Returning (HoldsState (IsBalanced capital)) (end_orders at s)
unfolding end_orders
end_orders-IsBalanced capital at s b = rw (locked_sum-end_order at s.orders) b

apply_quote-IsBalanced :
    (capital : ℕ) (r : FillRules) (q : Quote) (now : ℕ) (s : State)
    → IsBalanced capital s
    → Returning (HoldsState (IsBalanced capital)) (apply_quote r q now s)
unfolding apply_quote
apply_quote-IsBalanced capital r q now s b =
    Returning-bind (HoldsState (IsBalanced capital)) (quote_orders r q now s.account s.orders) _
      (λ t e. eq_of_parts _ _ (
        omega (
          int_laws,
          parts_of_eq _ _ b,
          parts_of_eq _ _ (
              Returning-eq (ConservesAll s.account s.orders) _
                (quote_orders-Conserves r q now s.account s.orders) e),
        )))

-- Every change of the simulator keeps the books balanced.
pub IsBalanced-IsKept :
    (calendar : TradingCalendar) (r : FillRules) (capital : ℕ)
    → IsKept calendar r (IsBalanced capital)
unfolding stored_state
IsBalanced-IsKept calendar r capital = record {
  at_stored = λ s now h. rw (locked_sum-sort_orders s.orders) h;
  at_submit = λ p risk at o s e h.
      add_order-IsBalanced capital o s (checked_order-pending calendar p risk at o e) h;
  at_cancel = cancel_order-IsBalanced capital;
  at_end = end_orders-IsBalanced capital;
  at_quote = λ q now s e h. apply_quote-IsBalanced capital r q now s h;
}
