-- ===== src/Desk/Spending.antt =====
-- What the calls of the model may cost a day in src/kiwit/banknifty.py.
use kiwi_t.Prelude.{
  ℕ, ◌≤◌, ◌≡◌, refl, String, Bool, false, Option, none, some, List, [], ◌∷◌, if-intro, arith, All,
  All-mono, is_nonempty, Returning, Returning-bind, Outcome, ok, err,
}
use kiwi_t.Desk.State.{DeskState, is_completed, DeskArithmetic}
use kiwi_t.Desk.Monitor.{DeskEnvironment}
use kiwi_t.Desk.Plan.{DeskFailure}
use kiwi_t.Desk.Entry.{apply_decision}
use kiwi_t.Desk.Session.{Limits, start, settle_expired_position}
use kiwi_t.Desk.Calls.{
  reservation, DeskCall, call_interrupted, call_applied, call_rejected, is_reserved, Charge,
  charge_of, settle_call, reconcile_calls, mark_applied, mark_rejected, is_call_completed,
  CallStatus,
}
use kiwi_t.Desk.Run.{
  Desk, latest, Operation, starting, stopping_session, settling, monitoring, reserving, concluding,
  applying, rejecting, reconciling, or_unchanged, perform_on, perform_start, perform_first, perform,
  Moment, perform_all, commit, commit_final, all_events,
}
use kiwi_t.Desk.Budget.{
  IsWithinBudget, IsThrifty, update_calls-IsWithinBudget, settled-IsThrifty, reserve-IsWithinBudget,
}

-- a change of the status alone
marked-IsThrifty :
    (p : DeskCall → Bool) (status : CallStatus) (calls : List DeskCall)
    → is_reserved status ≡ false
    → All (IsThrifty p (λ c. record c { status = status })) calls
marked-IsThrifty p status [] closed = tt
marked-IsThrifty p status (c ∷ rest) closed = (
  record { same_day = refl; no_more = λ hit. omega arith; closed = λ hit. closed },
  marked-IsThrifty p status rest closed,
)

module _ (calls : List DeskCall) (b : IsWithinBudget calls) where
  settle_call-IsWithinBudget :
      (call_id : String) (decision : Option String) (amount : Charge)
      → charge_of amount ≤ reservation
      → IsWithinBudget (settle_call call_id decision amount calls)
  unfolding settle_call
  settle_call-IsWithinBudget call_id decision amount small =
      update_calls-IsWithinBudget _ _ calls
        (All-mono _ _ (λ c held. settled-IsThrifty decision amount call_id c small held) calls
          b.held)
        b

  mark_applied-IsWithinBudget : (call_id : String) → IsWithinBudget (mark_applied call_id calls)
  unfolding mark_applied
  mark_applied-IsWithinBudget call_id =
      update_calls-IsWithinBudget _ _ calls (marked-IsThrifty _ call_applied calls refl) b

  mark_rejected-IsWithinBudget : (call_id : String) → IsWithinBudget (mark_rejected call_id calls)
  unfolding mark_rejected
  mark_rejected-IsWithinBudget call_id =
      update_calls-IsWithinBudget _ _ calls (marked-IsThrifty _ call_rejected calls refl) b

  reconcile_calls-IsWithinBudget : (now : ℕ) → IsWithinBudget (reconcile_calls now calls)
  unfolding reconcile_calls
  reconcile_calls-IsWithinBudget now =
      update_calls-IsWithinBudget _ _ calls (marked-IsThrifty _ call_interrupted calls refl) b

-- the charge of a call that has ended is within its reservation
abbrev pub IsCharged : Operation → Type 0
IsCharged (concluding call_id decision amount) = charge_of amount ≤ reservation
IsCharged _ = Unit

module _ (m : DeskArithmetic) (upper : String → String) (env : DeskEnvironment) (now : ℕ) where
  -- the calls of a desk are within the budget
  abbrev pub IsAffordable : Desk → Type 0
  IsAffordable desk = IsWithinBudget desk.calls

  perform_start-IsAffordable :
      (configured : Bool) (l : Limits) (desk : Desk)
      → IsAffordable desk
      → Returning IsAffordable (perform_start m upper env now configured l desk)
  unfolding perform_start commit
  perform_start-IsAffordable configured l desk b =
      Returning-bind IsAffordable (start m.rupee env configured (latest desk.sessions) l now) _
        (λ r _. b)

  perform_on-IsAffordable :
      (op : Operation) (s : DeskState) (desk : Desk)
      → IsCharged op
      → IsAffordable desk
      → Returning IsAffordable (perform_on m upper env now op s desk)
  unfolding perform_on commit_final commit
  perform_on-IsAffordable (starting configured l) s desk small b =
      perform_start-IsAffordable configured l desk b
  perform_on-IsAffordable stopping_session s desk small b =
      if-intro IsAffordable (is_completed s.status) _ _ (λ _. b) (λ _. b)
  perform_on-IsAffordable (settling t) s desk small b =
      Returning-bind IsAffordable (settle_expired_position (all_events desk.events) s t now) _
        (λ r _. if-intro IsAffordable (is_nonempty r.1) _ _ (λ _. b) (λ _. b))
  perform_on-IsAffordable (monitoring quoted quote underlying) s desk small b =
      if-intro IsAffordable (is_completed s.status) _ _ (λ _. b) (λ _. b)
  perform_on-IsAffordable (reserving t key call_id snapshot_at) s desk small b =
      reserve-IsWithinBudget upper env.halted s t key call_id snapshot_at now desk.calls b
  perform_on-IsAffordable (concluding call_id decision amount) s desk small b =
      settle_call-IsWithinBudget desk.calls b call_id decision amount small
  perform_on-IsAffordable (applying d snap feed call_id) s desk small b =
      Returning-bind IsAffordable
        (apply_decision env s d snap feed call_id (is_call_completed call_id desk.calls) now) _
        (λ r _.
          if-intro IsWithinBudget r.2 _ _ (λ _. mark_applied-IsWithinBudget desk.calls b call_id)
            (λ _. b))
  perform_on-IsAffordable (rejecting call_id) s desk small b =
      mark_rejected-IsWithinBudget desk.calls b call_id
  perform_on-IsAffordable reconciling s desk small b =
      reconcile_calls-IsWithinBudget desk.calls b now

  or_unchanged-IsAffordable :
      (desk : Desk) (r : Outcome DeskFailure Desk)
      → IsAffordable desk
      → Returning IsAffordable r
      → IsAffordable (or_unchanged desk r)
  or_unchanged-IsAffordable desk (ok d) h k = k
  or_unchanged-IsAffordable desk (err x) h k = h

  perform_first-IsAffordable :
      (op : Operation) (desk : Desk)
      → IsAffordable desk
      → Returning IsAffordable (perform_first m upper env now op desk)
  unfolding perform_first
  perform_first-IsAffordable (starting configured l) desk b =
      perform_start-IsAffordable configured l desk b
  perform_first-IsAffordable _ desk b = b

  perform-IsAffordable :
      (op : Operation) (desk : Desk) (last : Option DeskState)
      → IsCharged op
      → IsAffordable desk
      → IsAffordable (perform m upper env now op desk last)
  unfolding perform
  perform-IsAffordable op desk none small b =
      or_unchanged-IsAffordable desk (perform_first m upper env now op desk) b
        (perform_first-IsAffordable op desk b)
  perform-IsAffordable op desk (some s) small b =
      or_unchanged-IsAffordable desk (perform_on m upper env now op s desk) b
        (perform_on-IsAffordable op s desk small b)

-- After every sequence of calls in which no call of the model is charged more than its reservation, on
-- tables where this holds, the calls of each day have reserved and cost at most the budget of a day, and
-- every call that is not yet settled still holds its reservation.
pub perform_all-IsWithinBudget :
    (m : DeskArithmetic) (upper : String → String) (moments : List Moment) (desk : Desk)
    → All (λ (x : Moment). IsCharged x.operation) moments
    → IsWithinBudget desk.calls
    → IsWithinBudget (perform_all m upper moments desk).calls
unfolding perform_all
perform_all-IsWithinBudget m upper [] desk small b = b
perform_all-IsWithinBudget m upper (x ∷ rest) desk small b =
    perform_all-IsWithinBudget m upper rest _ small.1
      (perform-IsAffordable m upper x.env x.now x.operation desk (latest desk.sessions) small.0 b)
