-- ===== src/Desk/Run.antt =====
-- The tables of `BankNiftyStore` of src/kiwit/banknifty.py, and sequences of the calls that write them. A
-- call that raises is rolled back. Of a learning day the counts of the events are left out.
use kiwi_t.Prelude.{
  ℕ, String, Bool, not, ◌||◌, ltb, ◌==◌, Option, none, some, List, [], ◌∷◌, ◌++◌, any,
  if◌then◌else◌, is_some, is_nonempty, Outcome, ok, err, ◌>>=◌,
}
use kiwi_t.Prelude.Int.{ℤ}
use kiwi_t.Options.Reconsider.{Trigger}
use kiwi_t.Desk.State.{DeskState, is_completed, DeskQuote, DeskEvent, DeskArithmetic}
use kiwi_t.Desk.Exit.{Sample}
use kiwi_t.Desk.Monitor.{DeskEnvironment, monitor}
use kiwi_t.Desk.Plan.{DeskFailure}
use kiwi_t.Desk.Entry.{DeskDecision, DeskSnapshot, Feed, apply_decision}
use kiwi_t.Desk.Session.{Limits, start, stop, Settlement, settle_expired_position}
use kiwi_t.Desk.Calls.{
  DeskCall, Charge, reserve, settle_call, reconcile_calls, mark_applied, mark_rejected,
  is_call_completed,
}

-- a row of `banknifty_events`, with its day
pub record DayEvent : Type 0 where
  pub day : ℕ
  pub event : DeskEvent

-- a row of `banknifty_learning_days`
pub record LearningDay : Type 0 where
  pub day : ℕ
  pub realized_pnl : ℤ
  pub entries : ℕ

pub record Desk : Type 0 where
  pub sessions : List DeskState
  pub events : List DayEvent
  pub calls : List DeskCall
  pub learned : List LearningDay

abbrev pub empty_desk : Desk
empty_desk = record { sessions = []; events = []; calls = []; learned = [] }

unfoldable pub newer : DeskState → Option DeskState → DeskState
newer s none = s
newer s (some t) = if ltb s.day t.day then t else s

-- `latest`: the session of the last day
unfoldable pub latest : List DeskState → Option DeskState
latest [] = none
latest (s ∷ rest) = some (newer s (latest rest))

-- `save`: the row of the day is inserted or updated
unfoldable pub save_session : DeskState → List DeskState → List DeskState
save_session s [] = s ∷ []
save_session s (x ∷ rest) =
    let later = save_session s rest in if x.day == s.day then s ∷ rest else x ∷ later

-- `event`, of several events
unfoldable pub dated : ℕ → List DeskEvent → List DayEvent
dated day [] = []
dated day (e ∷ rest) = (record { day = day; event = e }) ∷ dated day rest

unfoldable pub events_of : ℕ → List DayEvent → List DeskEvent
events_of day [] = []
events_of day (x ∷ rest) =
    let later = events_of day rest in if x.day == day then x.event ∷ later else later

unfoldable pub all_events : List DayEvent → List DeskEvent
all_events [] = []
all_events (x ∷ rest) = x.event ∷ all_events rest

-- `finalize_learning`
unfoldable pub finalize_learning : DeskState → List LearningDay → List LearningDay
finalize_learning s rows =
    if not (is_completed s.status)
      || (is_some s.position || any (λ (x : LearningDay). x.day == s.day) rows)
    then rows
    else (record { day = s.day; realized_pnl = s.realized_pnl; entries = s.entries }) ∷ rows

-- the writes of a call: its session, and the events of the session's day
unfoldable pub commit : Desk → DeskState × List DeskEvent → Desk
commit desk r = record desk {
  sessions = save_session r.0 desk.sessions;
  events = desk.events ++ dated r.0.day r.1;
}

-- the writes of a call that ends with `finalize_learning`
unfoldable pub commit_final : Desk → DeskState × List DeskEvent → Desk
commit_final desk r = record (commit desk r) { learned = finalize_learning r.0 desk.learned }

abbrev pub finalized : Option DeskState → List LearningDay → List LearningDay
finalized none rows = rows
finalized (some s) rows = finalize_learning s rows

-- a call of one of the methods that write
pub data Operation : Type 0 where
  starting : (configured : Bool) → Limits → Operation
  stopping_session : Operation
  settling : Settlement → Operation
  monitoring : (quoted : Option String) → Option DeskQuote → Option Sample → Operation
  reserving : Trigger → (key call_id : String) → (snapshot_at : ℕ) → Operation
  concluding : (call_id : String) → (decision : Option String) → Charge → Operation
  applying : DeskDecision → DeskSnapshot → Feed → (call_id : String) → Operation
  rejecting : (call_id : String) → Operation
  reconciling : Operation

abbrev pub or_unchanged : Desk → Outcome DeskFailure Desk → Desk
or_unchanged desk (ok d) = d
or_unchanged desk (err e) = desk

module _ (m : DeskArithmetic) (upper : String → String) (env : DeskEnvironment) (now : ℕ) where
  -- `start` on the tables
  unfoldable pub perform_start : Bool → Limits → Desk → Outcome DeskFailure Desk
  perform_start configured l desk =
      start m.rupee env configured (latest desk.sessions) l now >>= λ r.
      ok (commit (record desk { learned = finalized (latest desk.sessions) desk.learned }) r)

  -- a call on the latest session
  unfoldable pub perform_on : Operation → DeskState → Desk → Outcome DeskFailure Desk
  perform_on (starting configured l) s desk = perform_start configured l desk
  perform_on stopping_session s desk =
      ok (if is_completed s.status then desk else commit_final desk (stop s))
  perform_on (settling t) s desk = settle_expired_position (all_events desk.events) s t now >>= λ r.
      ok (if is_nonempty r.1 then commit_final desk r else desk)
  perform_on (monitoring quoted quote underlying) s desk = ok (
      if is_completed s.status
      then desk
      else commit_final desk (monitor m env s quoted quote underlying now))
  perform_on (reserving t key call_id snapshot_at) s desk =
      let r = reserve upper env.halted s t key call_id snapshot_at now desk.calls in
      ok (record desk { calls = r.0.1; events = desk.events ++ dated s.day r.1 })
  perform_on (concluding call_id decision amount) s desk =
      ok (record desk { calls = settle_call call_id decision amount desk.calls })
  perform_on (applying d snap feed call_id) s desk =
      apply_decision env s d snap feed call_id (is_call_completed call_id desk.calls) now >>= λ r.
      ok (record (commit desk (r.0, r.1)) {
        calls = if r.2 then mark_applied call_id desk.calls else desk.calls;
      })
  perform_on (rejecting call_id) s desk =
      ok (record desk { calls = mark_rejected call_id desk.calls })
  perform_on reconciling s desk = ok (record desk { calls = reconcile_calls now desk.calls })

  -- a call without a session: there are no calls of the model then
  unfoldable pub perform_first : Operation → Desk → Outcome DeskFailure Desk
  perform_first (starting configured l) desk = perform_start configured l desk
  perform_first _ desk = ok desk

  unfoldable pub perform : Operation → Desk → Option DeskState → Desk
  perform op desk none = or_unchanged desk (perform_first op desk)
  perform op desk (some s) = or_unchanged desk (perform_on op s desk)

-- a call with its time and the switches at that time
pub record Moment : Type 0 where
  pub env : DeskEnvironment
  pub now : ℕ
  pub operation : Operation

unfoldable pub perform_all : DeskArithmetic → (String → String) → List Moment → Desk → Desk
perform_all m upper [] desk = desk
perform_all m upper (x ∷ rest) desk =
    perform_all m upper rest (perform m upper x.env x.now x.operation desk (latest desk.sessions))
