-- ===== src/Desk/Accounts.antt =====
-- The books of every session of the desk of src/kiwit/banknifty.py, over all sequences of calls.
use kiwi_t.Prelude.{
  ℕ, ◌+◌, ◌≡◌, refl, sym, subst, String, Bool, Option, none, some, List, [], ◌∷◌, if-intro,
  is_nonempty, Returning, Returning-bind, Returning-eq, Outcome, ok, err,
}
use kiwi_t.Calendar.{ist_date}
use kiwi_t.Desk.State.{DeskState, is_completed, DeskEvent, DeskArithmetic}
use kiwi_t.Desk.Entry.{apply_decision}
use kiwi_t.Desk.Monitor.{DeskEnvironment, monitor}
use kiwi_t.Desk.Plan.{DeskFailure}
use kiwi_t.Desk.Session.{Limits, start, stop, settle_expired_position}
use kiwi_t.Desk.Calls.{is_call_completed}
use kiwi_t.Desk.Run.{
  Desk, latest, events_of, all_events, commit, commit_final, finalized, Operation, starting,
  stopping_session, settling, monitoring, reserving, concluding, applying, rejecting, reconciling,
  or_unchanged, perform_on, perform_start, perform_first, perform, Moment, perform_all,
}
use kiwi_t.Desk.Books.{IsKept, allowance, RoundsWithin}
use kiwi_t.Desk.Keeping.{StaysKept, monitor-StaysKept}
use kiwi_t.Desk.Bookkeeping.{stop-StaysKept, settle_expired_position-StaysKept, start-StaysKept}
use kiwi_t.Desk.Buying.{apply_decision-StaysKept}
use kiwi_t.Desk.Tables.{InBooks, IsBooked, InBooks-grown, latest-All, commit-IsBooked}

module _ (e : ℕ) (m : DeskArithmetic) (rounds : RoundsWithin e m) (upper : String → String)
    (env : DeskEnvironment) (now : ℕ) where
  commit_kept :
      (desk : Desk) (day : ℕ) (r : DeskState × List DeskEvent)
      → IsBooked e desk
      → StaysKept e day (allowance e (events_of day desk.events)) r
      → IsBooked e (commit desk r)
  commit_kept desk day r h new =
      commit-IsBooked e desk r h
        (subst (λ d. StaysKept e d (allowance e (events_of d desk.events)) r) (sym new.dated) new)

  perform_start-IsBooked :
      (configured : Bool) (l : Limits) (desk : Desk)
      → IsBooked e desk
      → Returning (IsBooked e) (perform_start m upper env now configured l desk)
  unfolding perform_start
  perform_start-IsBooked configured l desk h =
      let begun = start m.rupee env configured (latest desk.sessions) l now in
      Returning-bind (IsBooked e) begun _ (λ r done.
        commit_kept (record desk { learned = finalized (latest desk.sessions) desk.learned })
          (ist_date now) r h
          (Returning-eq (StaysKept e (ist_date now) _) begun
            (start-StaysKept e _ m.rupee env configured (latest desk.sessions) l now
              (λ s there today.
                subst (λ d. IsKept d (allowance e (events_of d desk.events)) s) today
                  (latest-All e (InBooks e desk.events) desk.sessions s h there)))
            done))

  perform_on-IsBooked :
      (op : Operation) (s : DeskState) (desk : Desk)
      → IsBooked e desk
      → InBooks e desk.events s
      → Returning (IsBooked e) (perform_on m upper env now op s desk)
  unfolding perform_on commit_final
  perform_on-IsBooked (starting configured l) s desk h k =
      perform_start-IsBooked configured l desk h
  perform_on-IsBooked stopping_session s desk h k =
      if-intro (IsBooked e) (is_completed s.status) _ _ (λ _. h)
        (λ _. commit_kept desk s.day (stop s) h (stop-StaysKept e s.day _ s k))
  perform_on-IsBooked (settling t) s desk h k =
      Returning-bind (IsBooked e) (settle_expired_position (all_events desk.events) s t now) _
        (λ r done.
          if-intro (IsBooked e) (is_nonempty r.1) _ _
            (λ _. commit_kept desk s.day r h (
              Returning-eq (StaysKept e s.day _)
                (settle_expired_position (all_events desk.events) s t now)
                (settle_expired_position-StaysKept e s.day _ (all_events desk.events) s t now k)
                done))
            (λ _. h))
  perform_on-IsBooked (monitoring quoted quote underlying) s desk h k =
      if-intro (IsBooked e) (is_completed s.status) _ _ (λ _. h)
        (λ _.
          commit_kept desk s.day (monitor m env s quoted quote underlying now) h
            (monitor-StaysKept m e rounds s.day _ env s quoted quote underlying now k))
  perform_on-IsBooked (reserving t key call_id snapshot_at) s desk h k =
      InBooks-grown e desk.events _ desk.sessions h
  perform_on-IsBooked (concluding call_id decision amount) s desk h k = h
  perform_on-IsBooked (applying d snap feed call_id) s desk h k =
      Returning-bind (IsBooked e)
        (apply_decision env s d snap feed call_id (is_call_completed call_id desk.calls) now) _
        (λ r done.
          commit_kept desk s.day (r.0, r.1) h
            (Returning-eq
              (λ r. IsKept s.day (allowance e r.1 + allowance e (events_of s.day desk.events)) r.0)
              (apply_decision env s d snap feed call_id (is_call_completed call_id desk.calls) now)
              (apply_decision-StaysKept e s.day _ env s d snap feed call_id
                (is_call_completed call_id desk.calls) now k)
              done))
  perform_on-IsBooked (rejecting call_id) s desk h k = h
  perform_on-IsBooked reconciling s desk h k = h

  or_unchanged-IsBooked :
      (desk : Desk) (r : Outcome DeskFailure Desk)
      → IsBooked e desk
      → Returning (IsBooked e) r
      → IsBooked e (or_unchanged desk r)
  or_unchanged-IsBooked desk (ok d) h k = k
  or_unchanged-IsBooked desk (err x) h k = h

  perform_first-IsBooked :
      (op : Operation) (desk : Desk)
      → IsBooked e desk
      → Returning (IsBooked e) (perform_first m upper env now op desk)
  unfolding perform_first
  perform_first-IsBooked (starting configured l) desk h = perform_start-IsBooked configured l desk h
  perform_first-IsBooked _ desk h = h

  perform-IsBooked :
      (op : Operation) (desk : Desk) (last : Option DeskState)
      → ((s : DeskState) → last ≡ some s → InBooks e desk.events s)
      → IsBooked e desk
      → IsBooked e (perform m upper env now op desk last)
  unfolding perform
  perform-IsBooked op desk none k h =
      or_unchanged-IsBooked desk (perform_first m upper env now op desk) h
        (perform_first-IsBooked op desk h)
  perform-IsBooked op desk (some s) k h =
      or_unchanged-IsBooked desk (perform_on m upper env now op s desk) h
        (perform_on-IsBooked op s desk h (k s refl))

-- If rounding moves an amount by at most `e` grains, then after every sequence of calls on tables with kept
-- books the books of every session are kept: cash and the cost of the open position differ from the
-- amount and the realized profit by at most `e` grains for each exit of the day, there are at most as
-- many entries as the cap, and at most one resume.
pub perform_all-IsBooked :
    (e : ℕ) (m : DeskArithmetic) (rounds : RoundsWithin e m) (upper : String → String)
    (calls : List Moment) (desk : Desk)
    → IsBooked e desk
    → IsBooked e (perform_all m upper calls desk)
unfolding perform_all
perform_all-IsBooked e m rounds upper [] desk h = h
perform_all-IsBooked e m rounds upper (x ∷ rest) desk h =
    perform_all-IsBooked e m rounds upper rest _ (
      perform-IsBooked e m rounds upper x.env x.now x.operation desk (latest desk.sessions)
        (λ s there. latest-All e (InBooks e desk.events) desk.sessions s h there) h)
