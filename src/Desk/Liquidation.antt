-- ===== src/Desk/Liquidation.antt =====
-- How a session of src/kiwit/banknifty.py that is stopping ends.
use kiwi_t.Prelude.{
  ℕ, zero, suc, ◌-◌, ◌*◌, ◌≤◌, ◌<◌, ◌≡◌, sym, ap, ◌∙◌, subst, false, ◌==◌, none, some, List, [],
  ◌∷◌, inl, inr, arith, All, length,
}
use native.Mathlib.Nat.{mul-le-mul_left, mul-sub, mul_comm}
use kiwi_t.Desk.State.{DeskState, stopping, completed, DeskPosition, DeskArithmetic, session_stop}
use kiwi_t.Desk.Exit.{exit_quantity, sell_position}
use kiwi_t.Desk.Monitor.{ticked, flat, marked, monitor}
use kiwi_t.Desk.Flattening.{
  Observation, position_id, monitor_all, IsExecutable, Renewed, remarked, sold_cases, monitor_sells,
  exit_quantity-lots, monitor_all-Complete, ticked_stopping,
}

-- a sale of one lot at least is not empty
sold_nonzero : (n sold lot : ℕ) → 0 < sold → 0 < lot → n ≡ sold * lot → (n == 0) ≡ false
sold_nonzero n sold lot some_sold positive e =
    ground (arith, e, positive, mul-le-mul_left {m = 1} {n = sold} lot some_sold, mul_comm lot sold)

-- what is left, in lots
lots_left :
    (n left lots sold lot exited : ℕ)
    → n ≡ lots * lot
    → exited ≡ sold * lot
    → left ≡ n - exited
    → left ≡ (lots - sold) * lot
lots_left n left lots sold lot exited counted sale rest = omega (
  arith,
  counted,
  sale,
  rest,
  mul-sub lot lots sold,
  mul_comm lot lots,
  mul_comm lot sold,
  mul_comm lot (lots - sold),
)

module _ (m : DeskArithmetic) where
  -- A stopping session with an open position of whole lots is flat and complete after at most as many calls
  -- of `_monitor` as lots are left, if at each call the quote is executable: fresh, in market hours, before
  -- the expiry, with a lot at the bid and a price to sell at, and of another time than the quote before.
  pub monitor_all-completes :
      (observations : List Observation) (s : DeskState) (p : DeskPosition) (lots : ℕ)
      → s.status ≡ stopping
      → s.position ≡ some p
      → 0 < p.contract.terms.lot
      → p.quantity ≡ lots * p.contract.terms.lot
      → (p.quantity == 0) ≡ false
      → All (IsExecutable p.contract) observations
      → Renewed p.last_exit_quote observations
      → lots ≤ length observations
      → ((monitor_all m observations s).position ≡ none)
        × ((monitor_all m observations s).status ≡ completed)
  unfolding monitor_all exit_quantity marked
  monitor_all-completes observations s p zero still held positive counted nonempty x r enough =
      ground (arith, counted, nonempty)
  monitor_all-completes [] s p (suc lots) still held positive counted nonempty x r enough =
      absurd (omega (arith, enough))
  monitor_all-completes (o ∷ rest) s p (suc lots) still held positive counted nonempty x r enough =
      let (sold, some_sold, sale) = exit_quantity-lots p o.quote lots positive counted x.0.deep in
      let next = (monitor m o.env s (position_id s.position) (some o.quote) o.underlying o.now).0 in
      let t = marked m (ticked o.env s o.now) p o.quote in
      let sells : next
          ≡ flat (sell_position m t (remarked p o.quote) o.quote session_stop o.now).0 =
        ap (λ h. (monitor m o.env s (position_id h) (some o.quote) o.underlying o.now).0) held
        ∙ monitor_sells m s p o still held x.0 r.0
            (sold_nonzero _ sold _ some_sold positive sale) in
      subst
        (λ u.
          ((monitor_all m rest u).position ≡ none) × ((monitor_all m rest u).status ≡ completed))
        (sym sells)
        (elim (sold_cases m t (remarked p o.quote) o.quote o.now
          (ticked_stopping o.env s o.now still)) [
            | inl (clear, done) ↦ monitor_all-Complete m rest _ clear done
            | inr part ↦
                monitor_all-completes rest _ part.left (suc lots - sold) part.still part.held
                  (subst (λ c. 0 < c.terms.lot) (sym part.same_contract) positive)
                  (subst (λ c. part.left.quantity ≡ (suc lots - sold) * c.terms.lot)
                    (sym part.same_contract)
                    (lots_left p.quantity _ (suc lots) sold _ _ counted sale part.counted))
                  part.nonempty
                  (subst (λ c. All (IsExecutable c) rest) (sym part.same_contract) x.1)
                  (subst (λ last. Renewed last rest) (sym part.sold_at) r.1)
                  (omega (arith, enough, some_sold))
          ])
