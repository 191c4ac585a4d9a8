-- ===== src/Simulator/Lifecycle.antt =====
-- The life of an order: which statuses follow which, what never changes, and that an order that is
-- closed, cancelled or rejected stays as it is.
use kiwi_t.Prelude.{
  ℕ, ◌≡◌, refl, sym, ap, subst, inl, inr, true, false, not, some, List, [], ◌∷◌, ◌++◌, map, arith,
  String, str_eq, eq_iff, Returning, Returning-bind, Returning-then, Returning-eq, Returning-if,
  Bool-cases, is_some, or_raise, or_raise_ok, raise_if, raise_if_ok, ◌∙◌,
}
use kiwi_t.Calendar.{TradingCalendar}
use kiwi_t.Simulator.Types.{
  FillRules, Quote, Order, Account, Status, pending, opened, exit_pending, closed, cancelled,
  rejected, unknown_order, only_pending,
}
use kiwi_t.Simulator.Step.{is_live, is_held, fill_order, close_order, end_order, quote_order}
use kiwi_t.Simulator.Methods.{
  add_order, cancel_order, end_orders, apply_quote, quote_orders, find_order, replace_order,
  cancelled_order, is_pending,
}
use kiwi_t.Simulator.Quoted.{
  Quoted, untouched, expired, refused, taken, watched, left, QuotedFlagged, quote_order-Quoted,
}
use kiwi_t.Simulator.Orders.{find_order-cons, find_order-id}
use kiwi_t.Simulator.Store.{stored_state}
use kiwi_t.Simulator.Sorted.{find_order-sort_orders}
use kiwi_t.Simulator.Invariant.{HoldsState, IsKept}

-- the steps between statuses
infix 40 ◌⟶◌
pub data ◌⟶◌ : Status → Status → Type 0 where
  stay : {s : Status} → s ⟶ s
  fill : pending ⟶ opened
  refuse : pending ⟶ rejected
  cancel : pending ⟶ cancelled
  end : opened ⟶ exit_pending
  close : opened ⟶ closed
  leave : exit_pending ⟶ closed

ruleset steps = (stay, fill, refuse, cancel, end, close, leave)

-- the terms that an order keeps from its submission on
pub record SameTerms (o o' : Order) : Type 0 where
  pub same_id : o'.id ≡ o.id
  pub same_side : o'.long ≡ o.long
  pub same_quantity : o'.quantity ≡ o.quantity
  pub same_stop : o'.stop ≡ o.stop
  pub same_target : o'.target ≡ o.target
  pub same_budget : o'.risk_budget ≡ o.risk_budget
  pub same_session : o'.session_end ≡ o.session_end

close_of_held : (s : Status) → is_held s ≡ true → s ⟶ closed
close_of_held opened h = close
close_of_held exit_pending h = leave
close_of_held _ h = cc

pub Quoted-⟶ :
    (r : FillRules) (q : Quote) (now : ℕ) (acct : Account) (o : Order) (p : Account × Order)
    → Quoted r q now acct o p
    → o.status ⟶ p.1.status
unfolding fill_order close_order
Quoted-⟶ r q now acct o _ untouched = stay
Quoted-⟶ r q now acct o _ (expired h k) = rw h cancel
Quoted-⟶ r q now acct o _ (refused x h e k) = rw h refuse
Quoted-⟶ r q now acct o _ (taken x h e k) = rw h fill
Quoted-⟶ r q now acct o _ (watched h k) = stay
Quoted-⟶ r q now acct o _ (left x e h k l there) = close_of_held o.status h

pub Quoted-SameTerms :
    (r : FillRules) (q : Quote) (now : ℕ) (acct : Account) (o : Order) (p : Account × Order)
    → Quoted r q now acct o p
    → SameTerms o p.1
unfolding fill_order close_order
Quoted-SameTerms r q now acct o _ untouched = ground arith
Quoted-SameTerms r q now acct o _ (expired h k) = ground arith
Quoted-SameTerms r q now acct o _ (refused x h e k) = ground arith
Quoted-SameTerms r q now acct o _ (taken x h e k) = ground arith
Quoted-SameTerms r q now acct o _ (watched h k) = ground arith
Quoted-SameTerms r q now acct o _ (left x e h k l there) = ground arith

-- An order that is not live is left alone.
Quoted-of_dead :
    (r : FillRules) (q : Quote) (now : ℕ) (acct : Account) (o : Order) (p : Account × Order)
    → Quoted r q now acct o p
    → is_live o.status ≡ false
    → p.1 ≡ o
Quoted-of_dead r q now acct o _ untouched dead = refl
Quoted-of_dead r q now acct o _ (expired h k) dead = absurd (ground arith)
Quoted-of_dead r q now acct o _ (refused x h e k) dead = absurd (ground arith)
Quoted-of_dead r q now acct o _ (taken x h e k) dead = absurd (ground arith)
Quoted-of_dead r q now acct o _ (watched h k) dead = absurd (ground arith)
Quoted-of_dead r q now acct o _ (left x e h k l there) dead = absurd (ground arith)

find_order-head :
    (id : String) (x : Order) (rest : List Order) → x.id ≡ id → find_order id (x ∷ rest) ≡ some x
unfolding find_order
find_order-head id x rest h = rw ((eq_iff x.id id).1 h)

find_order-tail :
    (id : String) (x : Order) (rest : List Order) (o : Order)
    → str_eq x.id id ≡ false
    → find_order id rest ≡ some o
    → find_order id (x ∷ rest) ≡ some o
unfolding find_order
find_order-tail id x rest o h e = rw h e

module _ (id : String) (o : Order) (dead : is_live o.status ≡ false) where
  abbrev Finds : List Order → Type 0
  Finds os = find_order id os ≡ some o

  -- A step that keeps the keys and leaves this order alone finds it again.
  Finds-cons :
      (x x' : Order) (rest rest' : List Order)
      → x'.id ≡ x.id
      → (x ≡ o → x' ≡ x)
      → (Finds rest → Finds rest')
      → Finds (x ∷ rest)
      → Finds (x' ∷ rest')
  Finds-cons x x' rest rest' same alone later h = elim (find_order-cons id x rest o h) [
    | inl (key, e) ↦ find_order-head id x' rest' (same ∙ key) ∙ ap some (alone e ∙ e)
    | inr (other, e) ↦ find_order-tail id x' rest' o (ap (λ k. str_eq k id) same ∙ other) (later e)
  ]

  quote_orders-Finds :
      (r : FillRules) (q : Quote) (now : ℕ) (acct : Account) (os : List Order)
      → Finds os
      → Returning (λ t. Finds t.1) (quote_orders r q now acct os)
  unfolding quote_orders
  quote_orders-Finds r q now acct [] h = h
  quote_orders-Finds r q now acct (x ∷ rest) h =
      Returning-bind (λ t. Finds t.1) (quote_order r q now acct x) _
        (λ p e.
          let quoted =
            Returning-eq (QuotedFlagged r q now acct x) _ (quote_order-Quoted r q now acct x) e in
          Returning-bind (λ t. Finds t.1) (quote_orders r q now p.0 rest) _
            (λ t e'.
              Finds-cons x p.1 rest t.1 (Quoted-SameTerms r q now acct x (p.0, p.1) quoted).same_id
                (λ same.
                  Quoted-of_dead r q now acct x (p.0, p.1) quoted
                    (subst (λ (y : Order). is_live y.status ≡ false) (sym same) dead))
                (λ found.
                  Returning-eq (λ t'. Finds t'.1) _ (quote_orders-Finds r q now p.0 rest found) e')
                h))

  end_order_of_dead : (at : ℕ) (x : Order) → is_live x.status ≡ false → end_order at x ≡ x
  unfolding end_order
  end_order_of_dead at x h = ground arith

  end_order-id : (at : ℕ) (x : Order) → (end_order at x).id ≡ x.id
  unfolding end_order
  end_order-id at x = ground arith

  end_orders-Finds : (at : ℕ) (os : List Order) → Finds os → Finds (map (end_order at) os)
  end_orders-Finds at [] h = h
  end_orders-Finds at (x ∷ rest) h =
      Finds-cons x (end_order at x) rest (map (end_order at) rest) (end_order-id at x)
        (λ same.
          end_order_of_dead at x (subst (λ (y : Order). is_live y.status ≡ false) (sym same) dead))
        (end_orders-Finds at rest) h

  append-Finds : (os : List Order) (x : Order) → Finds os → Finds (os ++ x ∷ [])
  append-Finds [] x h = absurd (unfold find_order in cc)
  append-Finds (y ∷ rest) x h =
      Finds-cons y y rest (rest ++ x ∷ []) refl (λ _. refl) (append-Finds rest x) h

  clash : {k : String} → k ≡ id → str_eq k id ≡ false → ⊥
  clash {k} e h = cc ((eq_iff k id).1 e)

  -- A pending order has another key.
  pending_other :
      (k : String) (os : List Order) (x : Order)
      → Finds os
      → find_order k os ≡ some x
      → is_pending x.status ≡ true
      → str_eq x.id id ≡ false
  pending_other k os x h e p = elim (Bool-cases (str_eq x.id id)) [
    | inl mine ↦
        let key = sym (find_order-id k os x e) ∙ (eq_iff x.id id).0 mine in
        let same : some o ≡ some x = sym h ∙ ap (λ j. find_order j os) (sym key) ∙ e in
        absurd (ground arith)
    | inr other ↦ other
  ]

  replace_order-Finds :
      (x : Order) (os : List Order) → str_eq x.id id ≡ false → Finds os → Finds (replace_order x os)
  unfolding replace_order
  replace_order-Finds x [] other h = h
  replace_order-Finds x (y ∷ rest) other h = elim (Bool-cases (str_eq y.id x.id)) [
    | inl same ↦
        let key = (eq_iff y.id x.id).0 same in
        rw same (elim (find_order-cons id y rest o h) [
          | inl (mine, e) ↦ absurd (clash (sym key ∙ mine) other)
          | inr (k, e) ↦ find_order-tail id x rest o other e
        ])
    | inr k ↦ rw k (
        Finds-cons y y rest (replace_order x rest) refl (λ _. refl)
          (replace_order-Finds x rest other) h)
  ]

  -- A dead order is kept by every change.
  pub Finds-IsKept :
      (calendar : TradingCalendar) (r : FillRules) → IsKept calendar r (λ s. Finds s.orders)
  unfolding end_orders apply_quote add_order cancel_order stored_state
  Finds-IsKept calendar r = record {
    at_stored = λ s now h. find_order-sort_orders id s.orders ∙ h;
    at_submit = λ p risk at x s e h.
        Returning-if (HoldsState (λ s'. Finds s'.orders)) (is_some (find_order x.id s.orders)) _ _
          (λ _. tt) (λ _. append-Finds s.orders x h);
    at_cancel = λ k s h.
        Returning-bind (HoldsState (λ s'. Finds s'.orders))
          (or_raise (find_order k s.orders) unknown_order) _
          (λ x e.
            Returning-then (HoldsState (λ s'. Finds s'.orders))
              (raise_if (not (is_pending x.status)) only_pending) _
              (λ live.
                replace_order-Finds (cancelled_order x) s.orders
                  (pending_other k s.orders x h (or_raise_ok _ _ e)
                    (ground (arith, raise_if_ok _ _ live)))
                  h));
    at_end = λ at s h. end_orders-Finds at s.orders h;
    at_quote = λ q now s e h.
        Returning-bind (HoldsState (λ s'. Finds s'.orders))
          (quote_orders r q now s.account s.orders) _
          (λ t e'.
            Returning-eq (λ t'. Finds t'.1) _ (quote_orders-Finds r q now s.account s.orders h) e');
  }
