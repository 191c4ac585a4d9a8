-- ===== src/Desk/Buying.antt =====
-- The books of the desk of src/kiwit/banknifty.py over `_apply`.
use kiwi_t.Prelude.{
  ℕ, ◌+◌, ◌<◌, ◌≡◌, sym, Returning-map, none_of, inl, inr, Bool, none, String, arith, subst,
  Returning,
}
use kiwi_t.Prelude.Int.{ℤ, pos, ◌+ℤ◌, ◌-ℤ◌, int_laws}
use kiwi_t.Options.Exits.{ExitLevels}
use kiwi_t.Options.Gate.{entry_cap}
use kiwi_t.Desk.State.{DeskState, DeskQuote, DeskContract}
use kiwi_t.Desk.Monitor.{DeskEnvironment}
use kiwi_t.Desk.Plan.{EntryPlan}
use kiwi_t.Desk.Entry.{DeskDecision, DeskSnapshot, Feed, entered, opened_position, apply_decision}
use kiwi_t.Desk.Safety.{IsEntry, apply_decision-IsEntry}
use kiwi_t.Desk.Books.{IsNear, IsKept, IsKept-loosened, remaining, allowance}

bought_balance :
    (k : ℕ) (cash cost amount profit : ℤ)
    → IsNear k (cash +ℤ pos 0) (amount +ℤ profit)
    → IsNear k ((cash -ℤ cost) +ℤ cost) (amount +ℤ profit)
bought_balance k cash cost amount profit h = record {
  above = omega (int_laws, h.above, h.below);
  below = omega (int_laws, h.above, h.below);
}

module _ (e day k : ℕ) where
  entered-IsKept :
      (s : DeskState) (id : String) (c : DeskContract) (q : DeskQuote) (p : EntryPlan)
      (l : ExitLevels) (cost now : ℕ)
      → s.position ≡ none
      → s.entries < entry_cap
      → IsKept day k s
      → IsKept day k (entered s id c q p l cost now)
  unfolding entered opened_position remaining
  entered-IsKept s id c q p l cost now clear room h = record {
    balanced = bought_balance k s.cash (pos cost) (pos s.amount) s.realized_pnl (
        subst (λ o. IsNear k (s.cash +ℤ remaining o) (pos s.amount +ℤ s.realized_pnl)) clear
          h.balanced);
    capped = omega (arith, room);
    resumed = h.resumed;
    dated = h.dated;
  }

  entry-IsKept :
      (env : DeskEnvironment) (s : DeskState) (d : DeskDecision) (snap : DeskSnapshot) (feed : Feed)
      (id : String) (now : ℕ) (t : DeskState)
      → IsKept day k s
      → IsEntry env s d snap feed id now t
      → IsKept day k t
  entry-IsKept env s d snap feed id now t h entry =
      let b = entry.purchase in
      subst (IsKept day k) (sym b.opened) (
        entered-IsKept s id entry.contract entry.quote b.plan b.levels _ now
          (none_of s.position b.permitted.unheld) b.permitted.uncapped h)

  pub apply_decision-StaysKept :
      (env : DeskEnvironment) (s : DeskState) (d : DeskDecision) (snap : DeskSnapshot) (feed : Feed)
      (id : String) (completed : Bool) (now : ℕ)
      → IsKept day k s
      → Returning
          (λ r. IsKept day (allowance e r.1 + k) r.0)
          (apply_decision env s d snap feed id completed now)
  apply_decision-StaysKept env s d snap feed id completed now h =
      Returning-map _ (λ r. IsKept day (allowance e r.1 + k) r.0)
        (apply_decision env s d snap feed id completed now)
        (λ r known. IsKept-loosened day k _ r.0 (omega arith) (elim known [
          | inl same ↦ subst (IsKept day k) (sym same) h
          | inr opened ↦ entry-IsKept env s d snap feed id now r.0 h opened.3
        ]))
        (apply_decision-IsEntry env s d snap feed id completed now)
