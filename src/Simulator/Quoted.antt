-- ===== src/Simulator/Quoted.antt =====
-- The results of the loop body of `PaperSimulator.on_quote`, one constructor to a branch. Each
-- theorem about one order at a quote is a proof by cases over this relation.
use kiwi_t.Prelude.{
  ℕ, ◌≡◌, refl, Bool, true, false, not, ◌||◌, some, arith, ok, or_raise, or_raise_ok, Returning,
  Returning-bind, Returning-eq, Returning-if, if-intro, leb, ltb, ◌≤◌, List, [], ◌∷◌, All,
}
use kiwi_t.Simulator.Types.{
  FillRules, Quote, Order, Account, Entry, Status, pending, missing_field, instrument_eq,
}
use kiwi_t.Simulator.Price.{price}
use kiwi_t.Simulator.Step.{
  is_held, is_live, is_leaving, is_refused, exit_reason, mark_of, marked, refused_order,
  expired_order, fill_order, close_order, try_fill, exit_position, watch_position, quote_pending,
  quote_live, quote_order,
}
use kiwi_t.Simulator.Methods.{quote_orders}

module _ (r : FillRules) (q : Quote) (now : ℕ) (acct : Account) where
  pub data Quoted (o : Order) : Account × Order → Type 0 where
    untouched : Quoted o (acct, o)
    expired : o.status ≡ pending → o.session_end ≤ now → Quoted o (acct, expired_order o)
    refused :
        (fill : ℕ)
        → o.status ≡ pending
        → price r q o.long ≡ ok fill
        → is_refused r q acct o fill ≡ true
        → Quoted o (acct, refused_order o)
    taken :
        (fill : ℕ)
        → o.status ≡ pending
        → price r q o.long ≡ ok fill
        → is_refused r q acct o fill ≡ false
        → Quoted o (fill_order r q now acct o fill)
    watched :
        is_held o.status ≡ true
        → is_leaving o (mark_of q o) (leb o.session_end now) ≡ false
        → Quoted o (acct, marked q o)
    left :
        (fill : ℕ) (e : Entry)
        → is_held o.status ≡ true
        → is_leaving o (mark_of q o) (leb o.session_end now) ≡ true
        → price r q (not o.long) ≡ ok fill
        → o.entered ≡ some e
        → Quoted o (close_order r now acct (marked q o) (exit_reason o (mark_of q o)) e fill)

  abbrev pub QuotedFlagged : Order → Account × Order × Bool → Type 0
  QuotedFlagged o p = Quoted o (p.0, p.1)

  try_fill-Quoted :
      (o : Order) → o.status ≡ pending → Returning (Quoted o) (try_fill r q now acct o)
  unfolding try_fill
  try_fill-Quoted o h = Returning-bind (Quoted o) (price r q o.long) _ (λ fill e.
      if-intro (Quoted o) (is_refused r q acct o fill) (acct, refused_order o)
        (fill_order r q now acct o fill) (λ k. refused fill h e k) (λ k. taken fill h e k))

  watch_position-Quoted :
      (o : Order)
      → is_held o.status ≡ true
      → Returning (Quoted o) (watch_position r q now (leb o.session_end now) acct o)
  unfolding watch_position exit_position
  watch_position-Quoted o h =
      Returning-if (Quoted o) (is_leaving o (mark_of q o) (leb o.session_end now)) _ _
        (λ k. Returning-bind (Quoted o) (price r q (not o.long)) _ (λ fill e.
          Returning-bind (Quoted o) (or_raise o.entered missing_field) _
            (λ x there. left fill x h k e (or_raise_ok o.entered _ there))))
        (λ k. watched h k)

  quote_pending-Quoted :
      (o : Order) → o.status ≡ pending → Returning (QuotedFlagged o) (quote_pending r q now acct o)
  unfolding quote_pending
  quote_pending-Quoted o h =
      Returning-if (QuotedFlagged o) (leb o.session_end now) _ _ (λ k. expired h (ground arith))
        (λ _.
          Returning-if (QuotedFlagged o) (ltb q.timestamp o.submitted_at) _ _ (λ _. untouched)
            (λ _.
              Returning-bind (QuotedFlagged o) (try_fill r q now acct o) _
                (λ p e. Returning-eq (Quoted o) _ (try_fill-Quoted o h) e)))

  quote_live-Quoted :
      (o : Order) (s : Status)
      → o.status ≡ s
      → is_live s ≡ true
      → Returning (QuotedFlagged o) (quote_live r q now acct o s)
  unfolding quote_live
  quote_live-Quoted o pending h k = quote_pending-Quoted o h
  quote_live-Quoted o _ h k =
      Returning-bind (QuotedFlagged o) (watch_position r q now (leb o.session_end now) acct o) _
        (λ p e. Returning-eq (Quoted o) _ (watch_position-Quoted o (rw h (ground arith))) e)

  -- Every result of the loop body is one of the relation.
  pub quote_order-Quoted : (o : Order) → Returning (QuotedFlagged o) (quote_order r q now acct o)
  unfolding quote_order
  quote_order-Quoted o =
      Returning-if (QuotedFlagged o)
        (not (instrument_eq o.instrument q.instrument) || not (is_live o.status)) _ _
        (λ _. untouched) (λ live. quote_live-Quoted o o.status refl (ground arith))

-- A predicate on orders that one order at a quote keeps is kept by the whole loop.
pub quote_orders-All :
    (P : Order → Type 0) (r : FillRules) (q : Quote) (now : ℕ)
    → ((acct : Account) (o : Order) (p : Account × Order) → Quoted r q now acct o p → P o → P p.1)
    → (acct : Account) (os : List Order) → All P os
    → Returning (λ t. All P t.1) (quote_orders r q now acct os)
unfolding quote_orders
quote_orders-All P r q now keep acct [] h = tt
quote_orders-All P r q now keep acct (o ∷ rest) h =
    Returning-bind (λ t. All P t.1) (quote_order r q now acct o) _
      (λ p e.
        Returning-bind (λ t. All P t.1) (quote_orders r q now p.0 rest) _
          (λ t e'. (
            keep acct o (p.0, p.1)
                (Returning-eq (QuotedFlagged r q now acct o) _ (quote_order-Quoted r q now acct o)
                  e)
                h.0,
            Returning-eq (λ t'. All P t'.1) _ (quote_orders-All P r q now keep p.0 rest h.1) e',
          )))
