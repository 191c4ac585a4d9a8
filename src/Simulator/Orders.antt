-- ===== src/Simulator/Orders.antt =====
-- Finding an order of the state by its key, and writing it back.
use kiwi_t.Prelude.{
  String, ◌≡◌, refl, inl, inr, true, false, some, List, [], ◌∷◌, found-cases, str_eq, eq_iff, ap,
  subst, ◌⊎◌, All, if-intro, ℕ, ok, Returning, Returning-eq, Returning-bind, Returning-then,
  raise_if, raise_if_ok, or_raise, not, arith,
}
use kiwi_t.Calendar.{TradingCalendar, bounds, session_at, is_open}
use kiwi_t.Simulator.Types.{
  Order, pending, outside_session, lot_quantity_required, prices_and_budget_required,
  invalid_geometry,
}
use kiwi_t.Simulator.Methods.{
  TradeProposal, RiskDecision, find_order, replace_order, checked_order, new_order, is_matched,
  is_ordered, has_prices,
}

-- An order is found at the head, under its own key, or behind it.
pub find_order-cons :
    (id : String) (x : Order) (rest : List Order) (o : Order)
    → find_order id (x ∷ rest) ≡ some o
    → ((x.id ≡ id) × (x ≡ o)) ⊎ ((str_eq x.id id ≡ false) × (find_order id rest ≡ some o))
unfolding find_order
find_order-cons id x rest o h = elim (found-cases (str_eq x.id id) x (find_order id rest) h) [
  | inl (same, e) ↦ inl ((eq_iff x.id id).0 same, e)
  | inr later ↦ inr later
]

pub find_order-id :
    (id : String) (os : List Order) (o : Order) → find_order id os ≡ some o → o.id ≡ id
unfolding find_order
find_order-id id [] o h = cc
find_order-id id (x ∷ rest) o h = elim (find_order-cons id x rest o h) [
  | inl (same, e) ↦ subst (λ (y : Order). y.id ≡ id) e same
  | inr (other, later) ↦ find_order-id id rest o later
]

pub find_order-All {ℓ} :
    (P : Order → Type ℓ) (id : String) (os : List Order) (o : Order)
    → All P os
    → find_order id os ≡ some o
    → P o
unfolding find_order
find_order-All P id [] o h e = cc
find_order-All P id (x ∷ rest) o h e = elim (find_order-cons id x rest o e) [
  | inl (same, p) ↦ subst P p h.0
  | inr (other, later) ↦ find_order-All P id rest o h.1 later
]

pub replace_order-All {ℓ} :
    (P : Order → Type ℓ) (o : Order) (os : List Order) → All P os → P o → All P (replace_order o os)
unfolding replace_order
replace_order-All P o [] h p = tt
replace_order-All P o (x ∷ rest) h p =
    if-intro (All P) (str_eq x.id o.id) _ _ (λ _. (p, h.1))
      (λ _. (h.0, replace_order-All P o rest h.1 p))

-- What the checks of `submit` let through, and the order that they make of it.
pub record Checked (calendar : TradingCalendar) (p : TradeProposal) (risk : RiskDecision) (at : ℕ)
    (o : Order) : Type 0 where
  pub target : ℕ
  pub session_end : ℕ
  pub is_new : o ≡ new_order p risk target at session_end
  pub matched : is_matched p risk at ≡ true
  pub ordered : is_ordered p target ≡ true
  pub priced : has_prices p risk target ≡ true

pub checked_order-Checked :
    (calendar : TradingCalendar) (p : TradeProposal) (risk : RiskDecision) (at : ℕ)
    → Returning (Checked calendar p risk at) (checked_order calendar p risk at)
unfolding checked_order
checked_order-Checked calendar p risk at =
    Returning-bind (Checked calendar p risk at) (or_raise (session_at calendar at) outside_session)
      _
      (λ session _.
        Returning-then (Checked calendar p risk at)
          (raise_if (not (is_open session at)) outside_session) _
          (λ _.
            Returning-then (Checked calendar p risk at)
              (raise_if (not (is_matched p risk at)) lot_quantity_required) _
              (λ matched.
                Returning-bind (Checked calendar p risk at)
                  (or_raise p.target_price prices_and_budget_required) _
                  (λ target _.
                    Returning-then (Checked calendar p risk at)
                      (raise_if (not (has_prices p risk target)) prices_and_budget_required) _
                      (λ priced.
                        Returning-then (Checked calendar p risk at)
                          (raise_if (not (is_ordered p target)) invalid_geometry)
                          (ok (new_order p risk target at (bounds session).1))
                          (λ ordered. record {
                            target = target;
                            session_end = (bounds session).1;
                            is_new = refl;
                            matched = ground (arith, raise_if_ok _ _ matched);
                            ordered = ground (arith, raise_if_ok _ _ ordered);
                            priced = ground (arith, raise_if_ok _ _ priced);
                          }))))))

pub checked_order-pending :
    (calendar : TradingCalendar) (p : TradeProposal) (risk : RiskDecision) (at : ℕ) (o : Order)
    → checked_order calendar p risk at ≡ ok o
    → o.status ≡ pending
unfolding new_order
checked_order-pending calendar p risk at o e =
    ap (λ (x : Order). x.status)
      (Returning-eq (Checked calendar p risk at) _ (checked_order-Checked calendar p risk at)
        e).is_new
