-- ===== src/Desk/Safety.antt =====
-- What `_apply` of src/kiwit/banknifty.py may do to the state: nothing, or an entry that is allowed.
use kiwi_t.Prelude.{
  ℕ, ◌≡◌, refl, inl, inr, ◌⊎◌, Bool, true, not, ◌||◌, ◌==◌, some, List, String, Returning,
  Returning-bind, Returning-then, Returning-if, Returning-eq, ok, or_raise, or_raise_ok, or_false,
  not-false,
}
use kiwi_t.Options.Exits.{ExitLevels}
use kiwi_t.Desk.State.{DeskState, is_running, DeskQuote, DeskContract, DeskEvent}
use kiwi_t.Desk.Exit.{Sample}
use kiwi_t.Desk.Monitor.{DeskEnvironment}
use kiwi_t.Desk.Plan.{
  unknown_contract, market_unavailable, unknown_plan, EntryPlan, PlanContext, find_plan,
  checked_plan, checked_market, validate_plan,
}
use kiwi_t.Desk.Entry.{
  DeskDecision, DeskSnapshot, Feed, Action, buy_action, exit_action, hold_action, checked_state,
  checked_inputs, entry_cost, entered, buy_position, prepared, decided_state, apply_decision,
}
use kiwi_t.Desk.Permission.{
  IsPermitted, IsFit, IsValidPlan, IsFeasible, checked_state-IsPermitted, checked_inputs-IsFit,
  checked_plan-IsValidPlan, checked_market-IsFeasible,
}

-- the plan of the decision is in the selection, valid and feasible
pub record IsPlanned (x : PlanContext) (s : DeskState) (d : DeskDecision) (q : DeskQuote)
    (underlying : Sample) (now : ℕ) (r : EntryPlan × ExitLevels) : Type 0 where
  pub found : find_plan d.plan_id x.plans ≡ some r.0
  pub valid : IsValidPlan s d.symbol d.strategy r.0 now
  pub feasible : IsFeasible x s r.0 q underlying now r.1

validate_plan-IsPlanned :
    (x : PlanContext) (s : DeskState) (d : DeskDecision) (q : DeskQuote) (underlying : Sample)
    (now : ℕ)
    → Returning
        (IsPlanned x s d q underlying now)
        (validate_plan x s d.plan_id d.symbol d.strategy q underlying now)
unfolding validate_plan
validate_plan-IsPlanned x s d q underlying now =
    let P = IsPlanned x s d q underlying now in
    Returning-bind P (or_raise (find_plan d.plan_id x.plans) unknown_plan) _ (λ p found.
      Returning-then P (checked_plan x s d.symbol d.strategy p now) _ (λ valid.
        Returning-bind P (checked_market x s p q underlying now) (λ l. ok (p, l))
          (λ l feasible. record {
            found = or_raise_ok (find_plan d.plan_id x.plans) unknown_plan found;
            valid =
                Returning-eq (λ _. IsValidPlan s d.symbol d.strategy p now)
                  (checked_plan x s d.symbol d.strategy p now)
                  (checked_plan-IsValidPlan x s d.symbol d.strategy p now) valid;
            feasible =
                Returning-eq (IsFeasible x s p q underlying now)
                  (checked_market x s p q underlying now)
                  (checked_market-IsFeasible x s p q underlying now) feasible;
          })))

module _ (env : DeskEnvironment) (s : DeskState) (d : DeskDecision) (snap : DeskSnapshot) where
  -- An entry under all conditions, with the state that it leaves.
  pub record IsPurchase (call_id : String) (c : DeskContract) (q : DeskQuote) (underlying : Sample)
      (now : ℕ) (t : DeskState) : Type 0 where
    pub permitted : IsPermitted env s d now
    pub fit : IsFit s d snap c q now
    pub plan : EntryPlan
    pub levels : ExitLevels
    pub planned : IsPlanned (record snap.plan { contract = c }) s d q underlying now (plan, levels)
    pub opened :
        t ≡ entered s call_id c q plan levels (entry_cost snap.plan.rupee c q plan.quantity) now

  buy_position-IsPurchase :
      (call_id : String) (c : DeskContract) (q : DeskQuote) (underlying : Sample) (now : ℕ)
      → Returning
          (λ r. IsPurchase call_id c q underlying now r.0)
          (buy_position env s d snap call_id c q underlying now)
  unfolding buy_position
  buy_position-IsPurchase call_id c q underlying now =
      let P : DeskState × List DeskEvent → Type 0 =
        λ r. IsPurchase call_id c q underlying now r.0 in
      let x = record snap.plan { contract = c } in
      Returning-then P (checked_state env s d now) _ (λ permitted.
        Returning-then P (checked_inputs s d snap c q now) _ (λ fit.
          Returning-bind P (validate_plan x s d.plan_id d.symbol d.strategy q underlying now) _
            (λ valid planned. record {
              permitted =
                  Returning-eq (λ _. IsPermitted env s d now) (checked_state env s d now)
                    (checked_state-IsPermitted env s d now) permitted;
              fit =
                  Returning-eq (λ _. IsFit s d snap c q now) (checked_inputs s d snap c q now)
                    (checked_inputs-IsFit s d snap c q now) fit;
              plan = valid.0;
              levels = valid.1;
              planned =
                  Returning-eq (IsPlanned x s d q underlying now)
                    (validate_plan x s d.plan_id d.symbol d.strategy q underlying now)
                    (validate_plan-IsPlanned x s d q underlying now) planned;
              opened = refl;
            })))

  -- An entry of a running session of the day of the snapshot, on what the market answered.
  pub record IsEntry (feed : Feed) (call_id : String) (now : ℕ) (t : DeskState) : Type 0 where
    pub contract : DeskContract
    pub quote : DeskQuote
    pub underlying : Sample
    pub selected : feed.selected ≡ some contract
    pub quoted : feed.quote ≡ some quote
    pub sampled : feed.underlying ≡ some underlying
    pub purchase : IsPurchase call_id contract quote underlying now t

  decided_state-IsEntry :
      (feed : Feed) (call_id : String) (now : ℕ) (a : Action)
      → Returning
          (λ r. (r.0 ≡ s) ⊎ IsEntry feed call_id now r.0)
          (decided_state env s d snap feed call_id now a)
  unfolding decided_state
  decided_state-IsEntry feed call_id now buy_action =
      let P : DeskState × List DeskEvent → Type 0 = λ r. (r.0 ≡ s) ⊎ IsEntry feed call_id now r.0 in
      Returning-bind P (or_raise feed.selected unknown_contract) _ (λ c selected.
        Returning-bind P (or_raise feed.quote market_unavailable) _ (λ q quoted.
          Returning-bind P (or_raise feed.underlying market_unavailable) _ (λ underlying sampled.
            Returning-bind P (buy_position env s d snap call_id c q underlying now) _
              (λ done bought. inr (record {
                contract = c;
                quote = q;
                underlying = underlying;
                selected = or_raise_ok feed.selected unknown_contract selected;
                quoted = or_raise_ok feed.quote market_unavailable quoted;
                sampled = or_raise_ok feed.underlying market_unavailable sampled;
                purchase =
                    Returning-eq (λ r. IsPurchase call_id c q underlying now r.0)
                      (buy_position env s d snap call_id c q underlying now)
                      (buy_position-IsPurchase call_id c q underlying now) bought;
              })))))
  decided_state-IsEntry feed call_id now exit_action = inl refl
  decided_state-IsEntry feed call_id now hold_action = inl refl

  -- Whatever `_apply` returns, the state is what it was, or the session runs, is of the day of the snapshot,
  -- the call is stored as completed, and the decision is an entry that passed every condition: no
  -- position, the window for entries, no halt, an enabled worker, fewer entries than the cap, no pause
  -- after an exit, a fresh quote, no limit reached, evidence, a clear calendar, and a plan that is intact,
  -- current, triggered, affordable and rewarding. The state is then the one that the entry leaves.
  pub apply_decision-IsEntry :
      (feed : Feed) (call_id : String) (completed : Bool) (now : ℕ)
      → Returning
          (λ r.
            (r.0 ≡ s)
            ⊎ ((is_running s.status ≡ true)
                × ((s.day == snap.day) ≡ true)
                × (completed ≡ true)
                × IsEntry feed call_id now r.0))
          (apply_decision env s d snap feed call_id completed now)
  unfolding apply_decision
  apply_decision-IsEntry feed call_id completed now =
      let P : DeskState × List DeskEvent × Bool → Type 0 = λ r.
        (r.0 ≡ s)
        ⊎ ((is_running s.status ≡ true)
            × ((s.day == snap.day) ≡ true)
            × (completed ≡ true)
            × IsEntry feed call_id now r.0) in
      Returning-then P (prepared d snap feed) _ (λ _.
        Returning-if P (not (s.day == snap.day) || (not (is_running s.status) || not completed)) _ _
          (λ _. inl refl)
          (λ usable.
            let same = or_false (not (s.day == snap.day)) _ usable in
            let running = or_false (not (is_running s.status)) _ same.1 in
            Returning-bind P (decided_state env s d snap feed call_id now d.action) _
              (λ done decided.
                elim (Returning-eq (λ r. (r.0 ≡ s) ⊎ IsEntry feed call_id now r.0)
                  (decided_state env s d snap feed call_id now d.action)
                  (decided_state-IsEntry feed call_id now d.action) decided) [
                    | inl kept ↦ inl kept
                    | inr entry ↦
                        inr
                          (not-false _ running.0, not-false _ same.0, not-false _ running.1, entry)
                  ])))
