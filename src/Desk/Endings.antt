-- ===== src/Desk/Endings.antt =====
-- How calls of `start`, `stop` and `settle_expired_position` of src/kiwit/banknifty.py move a session in its phases.
use kiwi_t.Prelude.{
  ℕ, ◌≡◌, refl, sym, ap, subst, Bool, true, false, not, ◌&&◌, ◌||◌, ◌==◌, leb, ltb, Option, none,
  some, List, [], ◌∷◌, if◌then◌else◌, if-intro, inl, inr, ◌⊎◌, is_some, str_eq, ok, Returning,
  Returning-bind, Returning-then, Returning-if, raise_if, or_raise, or_raise_ok, raise_if_ok,
  or_false, not-false, not-true, and_true,
}
use kiwi_t.Prelude.Int.{pos, ltb_ℤ}
use kiwi_t.Calendar.{ist_date}
use kiwi_t.Desk.Clock.{is_regular, local_time}
use kiwi_t.Desk.State.{
  DeskState, running, stopping, completed, is_completed, DeskEvent, run_approved, run_resumed,
}
use kiwi_t.Desk.Monitor.{DeskEnvironment}
use kiwi_t.Desk.Plan.{
  limits_immutable, position_changed, not_expired, not_reconciled, outside_hours, not_configured,
  halt_active, invalid_settlement, different_evidence,
}
use kiwi_t.Desk.Session.{
  Limits, given_or, validate_limits, has_limits, is_resumable, new_session, resume, begin, start_on,
  start, stop, Settlement, settled_state, settle_position, settle_or_repeat, recorded_settlement,
  settle_expired_position,
}
use kiwi_t.Desk.Phases.{
  Phase, ready, holding, closing, finished, Represents, by_start, by_stop, by_settlement,
  not_started, resumes, ends, halts, halts_again, ended_already, not_settled, settles_held,
  settles_closing, Reaches,
}
use kiwi_t.Desk.Transitions.{clash}

pub stop-Reaches : (a : Phase) (s : DeskState) → Represents a s → Reaches by_stop a (stop s).0
unfolding stop
stop-Reaches a s here =
    if-intro (λ (r : DeskState × List DeskEvent). Reaches by_stop a r.0) (is_completed s.status) _ _
      (λ over. already a here over) (λ live. by_phase a here live)
  where
    left : DeskState
    left = record s { status = if is_some s.position then stopping else completed }

    already : (a : Phase) → Represents a s → is_completed s.status ≡ true → Reaches by_stop a s
    already ready here over = clash over (ap is_completed here.0) _
    already holding here over = clash over (ap is_completed here.0) _
    already closing here over = clash over (ap is_completed here.0) _
    already finished here over = (finished, ended_already, here)

    by_phase : (a : Phase) → Represents a s → is_completed s.status ≡ false → Reaches by_stop a left
    by_phase ready (on, clear) live =
        (finished, ends, (ap (λ b. if b then stopping else completed) clear, clear))
    by_phase holding (on, held) live =
        (closing, halts, (ap (λ b. if b then stopping else completed) held, held))
    by_phase closing (on, held) live =
        (closing, halts_again, (ap (λ b. if b then stopping else completed) held, held))
    by_phase finished (done, clear) live = clash (ap is_completed done) live _

-- a method that keeps the state, or ends a session with a position
abbrev pub Settled : DeskState → DeskState × List DeskEvent → Type 0
Settled s r = (r.0 ≡ s) ⊎ ((is_some s.position ≡ true) × Represents finished r.0)

settle_position-Settled :
    (s : DeskState) (t : Settlement) (now : ℕ) → Returning (Settled s) (settle_position s t now)
unfolding settle_position settled_state
settle_position-Settled s t now =
    Returning-bind (Settled s) (or_raise s.position position_changed) _ (λ p there.
      Returning-then (Settled s) (raise_if (not (str_eq p.id t.position_id)) position_changed) _
        (λ _.
          Returning-then (Settled s) (raise_if (leb (ist_date now) p.contract.expiry) not_expired)
            (ok (settled_state s p t))
            (λ _. inr (ap is_some (or_raise_ok s.position position_changed there), (refl, refl)))))

settle_or_repeat-Settled :
    (r : Option Bool) (s : DeskState) (t : Settlement) (now : ℕ)
    → Returning (Settled s) (settle_or_repeat r s t now)
unfolding settle_or_repeat
settle_or_repeat-Settled none s t now = settle_position-Settled s t now
settle_or_repeat-Settled (some same) s t now =
    Returning-then (Settled s) (raise_if (not same) different_evidence) (ok (s, [])) (λ _. inl refl)

pub settle-Settled :
    (events : List DeskEvent) (s : DeskState) (t : Settlement) (now : ℕ)
    → Returning (Settled s) (settle_expired_position events s t now)
unfolding settle_expired_position
settle-Settled events s t now =
    Returning-then (Settled s)
      (raise_if (ltb_ℤ t.price (pos 0) || ltb_ℤ t.fees (pos 0)) invalid_settlement) _
      (λ _.
        Returning-then (Settled s)
          (raise_if (ltb t.reference_length 3 || ltb 500 t.reference_length) invalid_settlement) _
          (λ _. settle_or_repeat-Settled (recorded_settlement events t) s t now))

pub Settled-Reaches :
    (a : Phase) (s : DeskState) (r : DeskState × List DeskEvent)
    → Represents a s
    → Settled s r
    → Reaches by_settlement a r.0
Settled-Reaches a s r here (inl same) = (a, not_settled, subst (Represents a) (sym same) here)
Settled-Reaches ready s r here (inr (held, done)) = clash held here.1 _
Settled-Reaches holding s r here (inr (held, done)) = (finished, settles_held, done)
Settled-Reaches closing s r here (inr (held, done)) = (finished, settles_closing, done)
Settled-Reaches finished s r here (inr (held, done)) = clash held here.1 _

-- a method that keeps the state, or starts again from a complete one
abbrev pub Started : DeskState → DeskState × List DeskEvent → Type 0
Started s r = (r.0 ≡ s) ⊎ ((is_completed s.status ≡ true) × Represents ready r.0)

resume-Started : (s : DeskState) (l : Limits) (now : ℕ) → Returning (Started s) (resume s l now)
unfolding resume is_resumable
resume-Started s l now =
    Returning-then (Started s) (raise_if (not (has_limits s l)) limits_immutable)
      (ok (
        if is_resumable s now
        then (record s { status = running; resumes = 1; last_tick = none }, run_resumed ∷ [])
        else (s, [])))
      (λ _.
        if-intro (Started s) (is_resumable s now) _ _
          (λ again.
            let both = and_true (is_completed s.status) _ again in
            let clear =
              not-true (is_some s.position) (and_true (not (is_some s.position)) _ both.1).0 in
            inr (both.0, (refl, clear)))
          (λ _. inl refl))

begin-Started :
    (env : DeskEnvironment) (configured : Bool) (s : DeskState) (l : Limits) (now : ℕ)
    → Returning (Started s) (begin env configured (some s) l now)
unfolding begin new_session
begin-Started env configured s l now =
    Returning-then (Started s)
      (raise_if (is_some s.position || not (is_completed s.status)) not_reconciled) _
      (λ over.
        Returning-then (Started s)
          (raise_if (not (is_regular now) || leb 54_000_000_000 (local_time now)) outside_hours) _
          (λ _.
            Returning-then (Started s) (raise_if (not (env.enabled && configured)) not_configured) _
              (λ _.
                Returning-then (Started s) (raise_if env.halted halt_active)
                  (ok (new_session l now, run_approved ∷ []))
                  (λ _. inr (
                    not-false _ (or_false (is_some s.position) _ (raise_if_ok _ _ over)).1,
                    (refl, refl),
                  )))))

pub start-Started :
    (rupee : ℕ) (env : DeskEnvironment) (configured : Bool) (s : DeskState) (l : Limits) (now : ℕ)
    → Returning (Started s) (start rupee env configured (some s) l now)
unfolding start start_on
start-Started rupee env configured s l now =
    Returning-then (Started s) (validate_limits rupee l.amount l.loss_pct l.profit_pct) _ (λ _.
      Returning-then (Started s)
        (validate_limits rupee l.amount (given_or l.trade_stop_pct l.loss_pct)
          (given_or l.trade_target_pct l.profit_pct))
        _
        (λ _.
          Returning-if (Started s) (s.day == ist_date now) _ _ (λ _. resume-Started s l now)
            (λ _. begin-Started env configured s l now)))

pub Started-Reaches :
    (a : Phase) (s : DeskState) (r : DeskState × List DeskEvent)
    → Represents a s
    → Started s r
    → Reaches by_start a r.0
Started-Reaches a s r here (inl same) = (a, not_started, subst (Represents a) (sym same) here)
Started-Reaches ready s r here (inr (done, again)) = clash done (ap is_completed here.0) _
Started-Reaches holding s r here (inr (done, again)) = clash done (ap is_completed here.0) _
Started-Reaches closing s r here (inr (done, again)) = clash done (ap is_completed here.0) _
Started-Reaches finished s r here (inr (done, again)) = (ready, resumes, again)
