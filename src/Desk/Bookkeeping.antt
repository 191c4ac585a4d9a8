-- ===== src/Desk/Bookkeeping.antt =====
-- The books of the desk of src/kiwit/banknifty.py over starts, stops and settlements.
use kiwi_t.Prelude.{
  ℕ, ◌≡◌, refl, Bool, false, not, ◌&&◌, ◌||◌, ltb, leb, ◌==◌, Option, none, some, List, [], ◌∷◌,
  if◌then◌else◌, if-intro, str_eq, is_some, arith, subst, Returning, Returning-bind, Returning-then,
  Returning-if, ok, raise_if, or_raise, or_raise_ok,
}
use kiwi_t.Prelude.Int.{ℤ, pos, ◌+ℤ◌, ◌-ℤ◌, int_laws, ltb_ℤ}
use kiwi_t.Prelude.Scaling.{times}
use kiwi_t.Calendar.{ist_date}
use kiwi_t.Desk.State.{
  DeskState, running, run_approved, run_resumed, is_completed, DeskPosition, DeskEvent,
}
use kiwi_t.Desk.Clock.{is_regular, local_time}
use kiwi_t.Desk.Monitor.{DeskEnvironment}
use kiwi_t.Desk.Plan.{
  limits_immutable, position_changed, not_expired, not_reconciled, outside_hours, not_configured,
  halt_active, invalid_settlement, different_evidence,
}
use kiwi_t.Desk.Session.{
  Limits, new_session, resume, begin, start_on, start, stop, Settlement, settled_state,
  settle_position, settle_expired_position, settle_or_repeat, validate_limits, given_or,
  recorded_settlement, has_limits, is_resumable,
}
use kiwi_t.Desk.Books.{IsNear, IsKept, IsKept-loosened, remaining, allowance, same_books}
use kiwi_t.Desk.Keeping.{StaysKept, StaysKept-quiet}

settled_balance :
    (k : ℕ) (cash cost amount profit proceeds : ℤ)
    → IsNear k (cash +ℤ cost) (amount +ℤ profit)
    → IsNear k ((cash +ℤ proceeds) +ℤ pos 0) (amount +ℤ (profit +ℤ (proceeds -ℤ cost)))
settled_balance k cash cost amount profit proceeds h = record {
  above = omega (int_laws, h.above, h.below);
  below = omega (int_laws, h.above, h.below);
}

new_session-IsKept : (k : ℕ) (l : Limits) (now : ℕ) → IsKept (ist_date now) k (new_session l now)
unfolding new_session remaining
new_session-IsKept k l now = record {
  balanced = record { above = omega int_laws; below = omega int_laws };
  capped = omega arith;
  resumed = omega arith;
  dated = refl;
}

module _ (e day k : ℕ) where
  settled_state-StaysKept :
      (s : DeskState) (p : DeskPosition) (t : Settlement)
      → s.position ≡ some p
      → IsKept day k s
      → StaysKept e day k (settled_state s p t)
  unfolding settled_state remaining allowance
  settled_state-StaysKept s p t held h = IsKept-loosened day k _ _ (omega arith) (record {
    balanced =
        settled_balance k s.cash p.entry_cost_remaining (pos s.amount) s.realized_pnl
          (times p.quantity t.price -ℤ t.fees)
          (subst (λ o. IsNear k (s.cash +ℤ remaining o) (pos s.amount +ℤ s.realized_pnl)) held
            h.balanced);
    capped = h.capped;
    resumed = h.resumed;
    dated = h.dated;
  })

  settle_position-StaysKept :
      (s : DeskState) (t : Settlement) (now : ℕ)
      → IsKept day k s
      → Returning (StaysKept e day k) (settle_position s t now)
  unfolding settle_position
  settle_position-StaysKept s t now h =
      let P = StaysKept e day k in
      Returning-bind P (or_raise s.position position_changed) _ (λ p there.
        Returning-then P (raise_if (not (str_eq p.id t.position_id)) position_changed) _ (λ _.
          Returning-then P (raise_if (leb (ist_date now) p.contract.expiry) not_expired)
            (ok (settled_state s p t))
            (λ _. settled_state-StaysKept s p t (or_raise_ok s.position position_changed there) h)))

  pub stop-StaysKept : (s : DeskState) → IsKept day k s → StaysKept e day k (stop s)
  unfolding stop allowance
  stop-StaysKept s h =
      if-intro (StaysKept e day k) (is_completed s.status) _ _ (λ _. StaysKept-quiet e day k s h)
        (λ _.
          IsKept-loosened day k _ _ (omega arith)
            (same_books day k s _ refl refl refl refl refl refl refl h))

  resume-StaysKept :
      (s : DeskState) (l : Limits) (now : ℕ)
      → IsKept day k s
      → Returning (StaysKept e day k) (resume s l now)
  unfolding resume allowance
  resume-StaysKept s l now h =
      Returning-then (StaysKept e day k) (raise_if (not (has_limits s l)) limits_immutable)
        (ok (
          if is_resumable s now
          then (record s { status = running; resumes = 1; last_tick = none }, run_resumed ∷ [])
          else (s, [])))
        (λ _.
          if-intro (StaysKept e day k) (is_resumable s now) _ _
            (λ _. IsKept-loosened day k _ _ (omega arith) (record {
              balanced = h.balanced;
              capped = h.capped;
              resumed = omega arith;
              dated = h.dated;
            }))
            (λ _. StaysKept-quiet e day k s h))

  settle_or_repeat-StaysKept :
      (r : Option Bool) (s : DeskState) (t : Settlement) (now : ℕ)
      → IsKept day k s
      → Returning (StaysKept e day k) (settle_or_repeat r s t now)
  unfolding settle_or_repeat
  settle_or_repeat-StaysKept none s t now h = settle_position-StaysKept s t now h
  settle_or_repeat-StaysKept (some same) s t now h =
      Returning-then (StaysKept e day k) (raise_if (not same) different_evidence) (ok (s, []))
        (λ _. StaysKept-quiet e day k s h)

  pub settle_expired_position-StaysKept :
      (events : List DeskEvent) (s : DeskState) (t : Settlement) (now : ℕ)
      → IsKept day k s
      → Returning (StaysKept e day k) (settle_expired_position events s t now)
  unfolding settle_expired_position
  settle_expired_position-StaysKept events s t now h =
      let P = StaysKept e day k in
      Returning-then P (raise_if (ltb_ℤ t.price (pos 0) || ltb_ℤ t.fees (pos 0)) invalid_settlement)
        _
        (λ _.
          Returning-then P
            (raise_if (ltb t.reference_length 3 || ltb 500 t.reference_length) invalid_settlement) _
            (λ _. settle_or_repeat-StaysKept (recorded_settlement events t) s t now h))

module _ (e k : ℕ) where
  begin-StaysKept :
      (env : DeskEnvironment) (configured : Bool) (old : Option DeskState) (l : Limits) (now : ℕ)
      → Returning (StaysKept e (ist_date now) k) (begin env configured old l now)
  unfolding begin allowance
  begin-StaysKept env configured old l now =
      let P = StaysKept e (ist_date now) k in
      Returning-then P
        (raise_if
          (elim old [ none ↦ false | some s ↦ is_some s.position || not (is_completed s.status) ])
          not_reconciled)
        _
        (λ _.
          Returning-then P
            (raise_if (not (is_regular now) || leb 54_000_000_000 (local_time now)) outside_hours) _
            (λ _.
              Returning-then P (raise_if (not (env.enabled && configured)) not_configured) _ (λ _.
                Returning-then P (raise_if env.halted halt_active)
                  (ok (new_session l now, run_approved ∷ []))
                  (λ _.
                    IsKept-loosened (ist_date now) k _ _ (omega arith)
                      (new_session-IsKept k l now)))))

  start_on-StaysKept :
      (env : DeskEnvironment) (configured : Bool) (s : DeskState) (l : Limits) (now : ℕ)
      → (s.day ≡ ist_date now → IsKept (ist_date now) k s)
      → Returning (StaysKept e (ist_date now) k) (start_on env configured (some s) l now)
  unfolding start_on
  start_on-StaysKept env configured s l now h =
      Returning-if (StaysKept e (ist_date now) k) (s.day == ist_date now) _ _
        (λ today. resume-StaysKept e (ist_date now) k s l now (h (ground (arith, today))))
        (λ _. begin-StaysKept env configured (some s) l now)

  pub start-StaysKept :
      (rupee : ℕ) (env : DeskEnvironment) (configured : Bool) (old : Option DeskState) (l : Limits)
      (now : ℕ)
      → ((s : DeskState) → old ≡ some s → s.day ≡ ist_date now → IsKept (ist_date now) k s)
      → Returning (StaysKept e (ist_date now) k) (start rupee env configured old l now)
  unfolding start start_on
  start-StaysKept rupee env configured old l now h =
      let P = StaysKept e (ist_date now) k in
      Returning-then P (validate_limits rupee l.amount l.loss_pct l.profit_pct) _ (λ _.
        Returning-then P
          (validate_limits rupee l.amount (given_or l.trade_stop_pct l.loss_pct)
            (given_or l.trade_target_pct l.profit_pct))
          _ (λ _. on old h))
    where
      on :
          (old : Option DeskState)
          → ((s : DeskState) → old ≡ some s → s.day ≡ ist_date now → IsKept (ist_date now) k s)
          → Returning (StaysKept e (ist_date now) k) (start_on env configured old l now)
      on none h = begin-StaysKept env configured none l now
      on (some s) h = start_on-StaysKept env configured s l now (h s refl)
