-- ===== src/Simulator/Sound.antt =====
-- What holds of every stored order: its fields agree with its status.
use kiwi_t.Prelude.{
  ℕ, ◌<◌, ◌≡◌, refl, Bool, true, not, List, [], ◌∷◌, map, arith, Returning, Returning-bind,
  Returning-then, Returning-eq, Returning-if, All, All-append, length, length-snoc, suc, is_some,
  String, subst, sym, ap, ltb, if◌then◌else◌, or_raise, raise_if, raise_if_ok, or_raise_ok,
}
use kiwi_t.Calendar.{TradingCalendar}
use kiwi_t.Simulator.Types.{
  FillRules, Quote, Order, State, Account, Status, opened, exit_pending, closed, unknown_order,
  only_pending,
}
use kiwi_t.Simulator.Step.{is_held, fill_order, close_order, end_order}
use kiwi_t.Simulator.Methods.{
  TradeProposal, RiskDecision, add_order, cancel_order, end_orders, apply_quote, quote_orders,
  find_order, cancelled_order, new_order, is_matched, is_ordered, is_pending,
}
use kiwi_t.Simulator.Quoted.{
  Quoted, untouched, expired, refused, taken, watched, left, quote_orders-All,
}
use kiwi_t.Simulator.Orders.{Checked, checked_order-Checked, find_order-All, replace_order-All}
use kiwi_t.Simulator.Store.{stored_state}
use kiwi_t.Simulator.Sorted.{sort_orders-All}
use kiwi_t.Simulator.Invariant.{HoldsState, IsKept}

-- how many fills an order of a status has
abbrev pub fill_count : Status → ℕ
fill_count opened = 1
fill_count exit_pending = 1
fill_count closed = 2
fill_count _ = 0

-- stop and target on their sides
abbrev pub is_bracketed : Bool → ℕ → ℕ → Bool
is_bracketed long stop target = if long then ltb stop target else ltb target stop

pub record IsSound (o : Order) : Type 0 where
  pub counted : length o.fills ≡ fill_count o.status
  pub entered_if_held : is_held o.status ≡ true → is_some o.entered ≡ true
  pub marked_if_held : is_held o.status ≡ true → is_some o.mark ≡ true
  pub realized_if_closed : o.status ≡ closed → is_some o.realized_pnl ≡ true
  pub quantity_positive : 0 < o.quantity
  pub bracketed : is_bracketed o.long o.stop o.target ≡ true

fill_count_of_held : (s : Status) → is_held s ≡ true → fill_count s ≡ 1
fill_count_of_held s h = ground arith

Quoted-IsSound :
    (r : FillRules) (q : Quote) (now : ℕ) (acct : Account) (o : Order) (p : Account × Order)
    → Quoted r q now acct o p
    → IsSound o
    → IsSound p.1
unfolding fill_order close_order
Quoted-IsSound r q now acct o _ untouched h = h
Quoted-IsSound r q now acct o _ (expired e k) h = ground arith
Quoted-IsSound r q now acct o _ (refused fill e k l) h = ground arith
Quoted-IsSound r q now acct o _ (taken fill e k l) h = record {
  counted = rw length-snoc (rw e at (ap suc h.counted));
  entered_if_held = λ _. refl;
  marked_if_held = λ _. refl;
  realized_if_closed = λ c. cc;
  quantity_positive = h.quantity_positive;
  bracketed = h.bracketed;
}
Quoted-IsSound r q now acct o _ (watched k l) h = ground arith
Quoted-IsSound r q now acct o _ (left fill x k l e there) h = record {
  counted = rw length-snoc (omega (arith, h.counted, fill_count_of_held o.status k));
  entered_if_held = λ c. cc;
  marked_if_held = λ c. cc;
  realized_if_closed = λ _. refl;
  quantity_positive = h.quantity_positive;
  bracketed = h.bracketed;
}

end_order-IsSound : (at : ℕ) (o : Order) → IsSound o → IsSound (end_order at o)
unfolding end_order
end_order-IsSound at o h = ground arith

end_orders-IsSound :
    (at : ℕ) (os : List Order) → All IsSound os → All IsSound (map (end_order at) os)
end_orders-IsSound at [] h = tt
end_orders-IsSound at (o ∷ rest) h = (end_order-IsSound at o h.0, end_orders-IsSound at rest h.1)

new_order-IsSound :
    (p : TradeProposal) (risk : RiskDecision) (target at session_end : ℕ)
    → is_matched p risk at ≡ true
    → is_ordered p target ≡ true
    → IsSound (new_order p risk target at session_end)
unfolding new_order is_matched is_ordered
new_order-IsSound p risk target at session_end h k = ground arith

-- All stored orders are sound.
abbrev pub AllSound : State → Type 0
AllSound s = All IsSound s.orders

add_order-AllSound :
    (o : Order) (s : State)
    → IsSound o
    → AllSound s
    → Returning (HoldsState AllSound) (add_order o s)
unfolding add_order
add_order-AllSound o s h k =
    Returning-if (HoldsState AllSound) (is_some (find_order o.id s.orders)) _ _ (λ _. tt)
      (λ _. All-append IsSound s.orders (o ∷ []) k (h, tt))

cancel_order-AllSound :
    (id : String) (s : State) → AllSound s → Returning (HoldsState AllSound) (cancel_order id s)
unfolding cancel_order
cancel_order-AllSound id s h =
    Returning-bind (HoldsState AllSound) (or_raise (find_order id s.orders) unknown_order) _ (λ o e.
      let sound = find_order-All IsSound id s.orders o h (or_raise_ok _ _ e) in
      Returning-then (HoldsState AllSound) (raise_if (not (is_pending o.status)) only_pending) _
        (λ k.
          replace_order-All IsSound (cancelled_order o) s.orders h
            (ground (arith, raise_if_ok _ _ k))))

-- Every change of the simulator keeps all orders sound.
pub AllSound-IsKept : (calendar : TradingCalendar) (r : FillRules) → IsKept calendar r AllSound
unfolding end_orders apply_quote stored_state
AllSound-IsKept calendar r = record {
  at_stored = λ s now h. sort_orders-All IsSound s.orders h;
  at_submit = λ p risk at o s e h.
      let c =
        Returning-eq (Checked calendar p risk at) _ (checked_order-Checked calendar p risk at) e in
      add_order-AllSound o s
        (subst IsSound (sym c.is_new)
          (new_order-IsSound p risk c.target at c.session_end c.matched c.ordered))
        h;
  at_cancel = cancel_order-AllSound;
  at_end = λ at s h. end_orders-IsSound at s.orders h;
  at_quote = λ q now s e h.
      Returning-bind (HoldsState AllSound) (quote_orders r q now s.account s.orders) _ (λ t e'.
        Returning-eq (λ t'. All IsSound t'.1) _
          (quote_orders-All IsSound r q now (Quoted-IsSound r q now) s.account s.orders h) e');
}
