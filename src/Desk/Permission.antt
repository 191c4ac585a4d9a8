-- ===== src/Desk/Permission.antt =====
-- What an entry of `_apply` of src/kiwit/banknifty.py has passed.
use kiwi_t.Prelude.{
  ℕ, ◌≤◌, ◌<◌, ◌≡◌, true, false, not, ◌&&◌, ◌||◌, ltb, leb, ◌==◌, some, String, or_false, not-false,
  and_true, str_eq, is_some, is_nonempty, is_fresh, arith, Returning, Returning-bind,
  Returning-then, Returning-raise_if, Outcome, ok, err, raise_if, or_raise, raise_if_ok,
}
use kiwi_t.Calendar.{seconds}
use kiwi_t.Options.Sizing.{quantity_for, trade_limits}
use kiwi_t.Options.Exits.{ExitLevels, ExitFailure}
use kiwi_t.Options.Gate.{entry_cap, entry_calendar_blocker}
use kiwi_t.Desk.Clock.{entry_window, age_ok}
use kiwi_t.Desk.State.{DeskState, options_state, DeskQuote, DeskContract}
use kiwi_t.Desk.Exit.{Sample, fresh}
use kiwi_t.Desk.Monitor.{DeskEnvironment, is_limit_hit}
use kiwi_t.Desk.Plan.{
  entry_blocked, cooling, stale_input, limit_blocks_entry, expiry_day, no_evidence,
  calendar_blocked, unknown_plan, plan_altered, plan_mismatch, plan_expired, limits_changed,
  profile_changed, calendar_unclear, stale_underlying, trigger_invalid, quote_rejected,
  quantity_unfit, reward_too_small, EntryPlan, PlanContext, find_playbook, same_profile, is_clear,
  is_triggered, is_poor, entry_price, plan_exits, exits_or, is_unrewarded, entry_evidence,
  checked_plan, checked_market,
}
use kiwi_t.Desk.Entry.{DeskDecision, DeskSnapshot, is_cooling, checked_state, checked_inputs}

-- the state and the clock permit an entry
pub record IsPermitted (env : DeskEnvironment) (s : DeskState) (d : DeskDecision) (now : ℕ)
    : Type 0 where
  pub unheld : is_some s.position ≡ false
  pub timed : entry_window now ≡ true
  pub unhalted : env.halted ≡ false
  pub enabled : env.enabled ≡ true
  pub uncapped : s.entries < entry_cap
  pub trading : str_eq d.strategy "no_trade" ≡ false
  pub rested : is_cooling s.last_exit now ≡ false

pub checked_state-IsPermitted :
    (env : DeskEnvironment) (s : DeskState) (d : DeskDecision) (now : ℕ)
    → Returning (λ _. IsPermitted env s d now) (checked_state env s d now)
unfolding checked_state
checked_state-IsPermitted env s d now =
    let P = IsPermitted env s d now in
    Returning-then (λ _. P)
      (raise_if
        (is_some s.position
          || (not (entry_window now)
              || (env.halted
                  || (not env.enabled
                      || (leb entry_cap s.entries || str_eq d.strategy "no_trade")))))
        entry_blocked)
      _
      (λ passed. Returning-raise_if P (is_cooling s.last_exit now) cooling (λ rest.
        let a = or_false _ _ (raise_if_ok _ _ passed) in
        let b = or_false _ _ a.1 in
        let c = or_false _ _ b.1 in
        let f = or_false _ _ c.1 in
        let g = or_false (leb entry_cap s.entries) _ f.1 in
        record {
          unheld = a.0;
          timed = not-false _ b.0;
          unhalted = c.0;
          enabled = not-false _ f.0;
          uncapped = ground (arith, g.0);
          trading = g.1;
          rested = rest;
        }))

-- the answers of the market and of the calendar are fit for an entry
pub record IsFit (s : DeskState) (d : DeskDecision) (snap : DeskSnapshot) (c : DeskContract)
    (q : DeskQuote) (now : ℕ) : Type 0 where
  pub quote_fresh : fresh (some q) now ≡ true
  pub spot_fresh : is_fresh now snap.spot_at (seconds 180) ≡ true
  pub unlimited : is_limit_hit s s.realized_pnl ≡ false
  pub unexpired : s.day < c.expiry
  pub evident : is_nonempty (entry_evidence snap.chart c.is_call d.strategy now) ≡ true
  pub unblocked : is_some (entry_calendar_blocker snap.plan.current_events) ≡ false

pub checked_inputs-IsFit :
    (s : DeskState) (d : DeskDecision) (snap : DeskSnapshot) (c : DeskContract) (q : DeskQuote)
    (now : ℕ)
    → Returning (λ _. IsFit s d snap c q now) (checked_inputs s d snap c q now)
unfolding checked_inputs
checked_inputs-IsFit s d snap c q now =
    let P : Unit {0} → Type 0 = λ _. IsFit s d snap c q now in
    Returning-then P
      (raise_if (not (fresh (some q) now) || not (is_fresh now snap.spot_at (seconds 180)))
        stale_input)
      _
      (λ timed.
        Returning-then P (raise_if (is_limit_hit s s.realized_pnl) limit_blocks_entry) _
          (λ unlimited. Returning-then P (raise_if (leb c.expiry s.day) expiry_day) _ (λ unexpired.
            Returning-then P
              (raise_if (not (is_nonempty (entry_evidence snap.chart c.is_call d.strategy now)))
                no_evidence)
              _
              (λ evident.
                Returning-raise_if (IsFit s d snap c q now)
                  (is_some (entry_calendar_blocker snap.plan.current_events)) calendar_blocked
                  (λ unblocked.
                    let fresh_both =
                      or_false (not (fresh (some q) now)) _ (raise_if_ok _ _ timed) in
                    record {
                      quote_fresh = not-false _ fresh_both.0;
                      spot_fresh = not-false _ fresh_both.1;
                      unlimited = raise_if_ok _ _ unlimited;
                      unexpired = ground (arith, raise_if_ok _ _ unexpired);
                      evident = not-false _ (raise_if_ok _ _ evident);
                      unblocked = unblocked;
                    })))))

-- the plan holds on its own
pub record IsValidPlan (s : DeskState) (symbol strategy : String) (p : EntryPlan) (now : ℕ)
    : Type 0 where
  pub intact : p.is_intact ≡ true
  pub named : str_eq p.symbol symbol && str_eq p.strategy strategy ≡ true
  pub created : p.created_at ≤ now
  pub unexpired : now < p.expires_at

pub checked_plan-IsValidPlan :
    (x : PlanContext) (s : DeskState) (symbol strategy : String) (p : EntryPlan) (now : ℕ)
    → Returning (λ _. IsValidPlan s symbol strategy p now) (checked_plan x s symbol strategy p now)
unfolding checked_plan
checked_plan-IsValidPlan x s symbol strategy p now =
    let P : Unit {0} → Type 0 = λ _. IsValidPlan s symbol strategy p now in
    Returning-then P (raise_if (not x.is_present_selector) unknown_plan) _ (λ _.
      Returning-then P (raise_if (not p.is_intact) plan_altered) _ (λ intact.
        Returning-then P
          (raise_if (not (str_eq p.symbol symbol && str_eq p.strategy strategy)) plan_mismatch) _
          (λ named.
            Returning-then P
              (raise_if (not (leb p.created_at now && ltb now p.expires_at)) plan_expired) _
              (λ timed.
                Returning-then P
                  (raise_if
                    (not (
                      p.loss_pct == (trade_limits (options_state s)).0
                      && p.profit_pct == (trade_limits (options_state s)).1))
                    limits_changed)
                  _
                  (λ _.
                    Returning-bind P
                      (or_raise (find_playbook p.playbook_id x.playbooks) profile_changed) _
                      (λ playbook _.
                        Returning-raise_if (IsValidPlan s symbol strategy p now)
                          (not (same_profile p.live_exit playbook.live_exit)) profile_changed
                          (λ _.
                            let both =
                              and_true (leb p.created_at now) _
                                (not-false _ (raise_if_ok _ _ timed)) in
                            record {
                              intact = not-false _ (raise_if_ok _ _ intact);
                              named = not-false _ (raise_if_ok _ _ named);
                              created = ground (arith, both.0);
                              unexpired = ground (arith, both.1);
                            })))))))

-- the market lets the plan be carried out at the exits
pub record IsFeasible (x : PlanContext) (s : DeskState) (p : EntryPlan) (q : DeskQuote)
    (underlying : Sample) (now : ℕ) (l : ExitLevels) : Type 0 where
  pub clear : is_clear x.current_events ≡ true
  pub sampled : age_ok (some underlying.at) now 180 ≡ true
  pub triggered : is_triggered p underlying.spot ≡ true
  pub good : is_poor q now ≡ false
  pub unchased : entry_price x.contract q ≤ p.max_fill
  pub nonempty : 0 < p.quantity
  pub sized : p.quantity ≤ quantity_for x.rupee (options_state s) x.contract.terms q.book
  pub levels : plan_exits x s p q ≡ ok l
  pub rewarded : is_unrewarded p l ≡ false

exits_or_ok : (r : Outcome ExitFailure ExitLevels) {l : ExitLevels} → exits_or r ≡ ok l → r ≡ ok l
exits_or_ok (ok a) h = cc
exits_or_ok (err e) h = cc

pub checked_market-IsFeasible :
    (x : PlanContext) (s : DeskState) (p : EntryPlan) (q : DeskQuote) (underlying : Sample)
    (now : ℕ)
    → Returning (IsFeasible x s p q underlying now) (checked_market x s p q underlying now)
unfolding checked_market
checked_market-IsFeasible x s p q underlying now =
    let P = IsFeasible x s p q underlying now in
    Returning-then P
      (raise_if (not (is_clear x.decided_events && is_clear x.current_events)) calendar_unclear) _
      (λ clear.
        Returning-then P
          (raise_if (not (age_ok (some underlying.at) now 180) || ltb underlying.at x.spot_at)
            stale_underlying)
          _
          (λ sampled.
            Returning-then P (raise_if (not (is_triggered p underlying.spot)) trigger_invalid) _
              (λ triggered.
                Returning-then P
                  (raise_if (is_poor q now || ltb p.max_fill (entry_price x.contract q))
                    quote_rejected)
                  _
                  (λ good.
                    Returning-then P
                      (raise_if
                        (p.quantity == 0
                          || ltb (quantity_for x.rupee (options_state s) x.contract.terms q.book)
                              p.quantity)
                        quantity_unfit)
                      _
                      (λ sized. Returning-bind P (exits_or (plan_exits x s p q)) _ (λ l made.
                        Returning-then P (raise_if (is_unrewarded p l) reward_too_small) (ok l)
                          (λ rewarded.
                            let quoted = or_false (is_poor q now) _ (raise_if_ok _ _ good) in
                            let fits = or_false (p.quantity == 0) _ (raise_if_ok _ _ sized) in
                            record {
                              clear =
                                  (and_true (is_clear x.decided_events) _
                                    (not-false _ (raise_if_ok _ _ clear))).1;
                              sampled =
                                  not-false _
                                    (or_false (not (age_ok (some underlying.at) now 180)) _
                                      (raise_if_ok _ _ sampled)).0;
                              triggered = not-false _ (raise_if_ok _ _ triggered);
                              good = quoted.0;
                              unchased = ground (arith, quoted.1);
                              nonempty = ground (arith, fits.0);
                              sized = ground (arith, fits.1);
                              levels = exits_or_ok (plan_exits x s p q) made;
                              rewarded = raise_if_ok _ _ rewarded;
                            })))))))
