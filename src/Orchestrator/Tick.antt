-- ===== src/Orchestrator/Tick.antt =====
-- `control` and `tick` of src/kiwit/session_orchestrator.py over the table of sessions.
--
-- The table is a list of rows in the order of their days. What a call raises undoes its changes of
-- the table and not the calls of the backend, so a tick returns those beside its outcome.
use kiwi_t.Prelude.{
  ℕ, ◌+◌, String, Bool, true, false, not, ◌&&◌, ltb, leb, ◌==◌, Option, none, some, List, [], ◌∷◌,
  ◌++◌, Outcome, ok, err, ◌>>=◌, ◌>>◌, raise_if, or_raise, if◌then◌else◌, str_eq,
}
use kiwi_t.Calendar.{Session, session, session_at, ist_date, bounds}
use kiwi_t.Orchestrator.Types.{
  SessionBody, SessionRow, SessionOrchestrator, Answers, BackendCall, Action, Failure,
  session_config_changed, action_and_operator_required, no_session, outside_activation_window,
  session_complete, ticks_not_increasing, waiting, is_complete,
}
use kiwi_t.Orchestrator.Advance.{Progress, close_session, advance, settle}

abbrev pub Table : Type 0
Table = List SessionRow

unfoldable pub find_row : ℕ → Table → Option SessionRow
find_row day [] = none
find_row day (r ∷ rest) = if r.day == day then some r else find_row day rest

-- the body of a session that is not stored yet
unfoldable pub new_session : SessionOrchestrator → ℕ → SessionBody
new_session env day = record {
  day = day;
  session_id = env.session_id day;
  state = waiting;
  armed_boot = none;
  operator = none;
  warmed_boot = none;
  last_tick = none;
  events = [];
  report = none;
  entries_allowed = false;
  error_type = none;
}

-- `_load` on the row that was found
unfoldable pub load_row : SessionOrchestrator → ℕ → Option SessionRow → Outcome Failure SessionBody
load_row env day none = ok (new_session env day)
load_row env day (some r) =
    if str_eq r.binding env.binding then ok r.body else err session_config_changed

-- `_load`
unfoldable pub load : SessionOrchestrator → Table → ℕ → Outcome Failure SessionBody
load env table day = load_row env day (find_row day table)

-- `_save`: the row of the day keeps its binding; a new row is put in its place
unfoldable pub save : SessionOrchestrator → SessionBody → Table → Table
save env s [] = (record { day = s.day; binding = env.binding; body = s }) ∷ []
save env s (r ∷ rest) =
    if r.day == s.day
    then (record r { body = s }) ∷ rest
    else if ltb s.day r.day
    then (record { day = s.day; binding = env.binding; body = s }) ∷ r ∷ rest
    else r ∷ save env s rest

abbrev pub is_run : Action → Bool
is_run Action.run = true
is_run Action.stop = false

-- the activation window of `control`
unfoldable pub in_window : SessionOrchestrator → Session → ℕ → Bool
in_window env s now =
    leb (bounds s).0 (now + env.schedule.premarket)
    && ltb (now + env.schedule.entry_cutoff) (bounds s).1

-- the change of `control`
unfoldable pub controlled : SessionOrchestrator → ℕ → Action → String → SessionBody → SessionBody
controlled env now action operator s = record s {
  armed_boot = if is_run action then some env.boot_id else none;
  operator = some operator;
  events = s.events ++ (record { at = now; action = action; operator = operator }) ∷ [];
}

unfoldable pub control :
    SessionOrchestrator → ℕ → Action → String → Table → Outcome Failure (SessionBody × Table)
control env now action operator table = do
  raise_if (env.is_blank operator) action_and_operator_required
  s ← or_raise (session_at env.calendar now) no_session
  raise_if (is_run action && not (in_window env s now)) outside_activation_window
  body ← load env table s.day
  raise_if (is_complete body.state) session_complete
  ok (
    controlled env now action operator body,
    save env (controlled env now action operator body) table,
  )

-- what `tick` returns
pub data Ticked : Type 0 where
  unfinished : SessionBody → Ticked
  closed_calendar : ℕ → Ticked
  ticked : SessionBody → Ticked

-- the calls that were made of the backend, and the outcome
pub record Tick (A : Type 0) : Type 0 where
  pub calls : List BackendCall
  pub outcome : Outcome Failure A

abbrev pub pure : {A : Type 0} → List BackendCall → A → Tick A
pure calls a = record { calls = calls; outcome = ok a }

abbrev pub fail : {A : Type 0} → List BackendCall → Failure → Tick A
fail calls e = record { calls = calls; outcome = err e }

-- the state after the loop over earlier days: the table, and the session that stopped the tick
pub record Reconciled : Type 0 where
  pub table : Table
  pub stopped : Option SessionBody

module _ (env : SessionOrchestrator) (ans : Answers) (now : ℕ) where
  -- `_advance_close` on a loaded session
  unfoldable pub advance_close : SessionBody → Progress
  advance_close s = close_session env ans now (record s { entries_allowed = false })

  unfoldable pub reconcile_loaded :
      (Table → List BackendCall → Tick Reconciled)
      → Table
      → List BackendCall
      → Outcome Failure SessionBody
      → Tick Reconciled
  reconcile_loaded next table calls (err e) = fail calls e
  reconcile_loaded next table calls (ok s) =
      let p = advance_close s in
      let s' = settle p in
      let table' = save env s' table in
      if is_complete s'.state
      then next table' (calls ++ p.calls)
      else pure (calls ++ p.calls) (record { table = table'; stopped = some s' })

  -- the loop over the rows of earlier days, as they were read before it
  unfoldable pub reconcile : List SessionRow → Table → List BackendCall → Tick Reconciled
  reconcile [] table calls = pure calls (record { table = table; stopped = none })
  reconcile (r ∷ rest) table calls =
      let next = λ (t : Table) (cs : List BackendCall). reconcile rest t cs in
      if is_complete r.body.state
      then next table calls
      else reconcile_loaded next table calls (load env table r.day)

  -- `WHERE day<? ORDER BY day`
  unfoldable pub earlier : ℕ → Table → List SessionRow
  earlier day [] = []
  earlier day (r ∷ rest) = if ltb r.day day then r ∷ earlier day rest else earlier day rest

  unfoldable pub is_repeated : Option ℕ → Bool
  is_repeated none = false
  is_repeated (some last) = leb now last

  abbrev pub is_other_boot : Option String → Bool
  is_other_boot none = false
  is_other_boot (some b) = not (str_eq b env.boot_id)

  -- the writes of `tick` before its `try` block: another boot's arming is dropped
  unfoldable pub prepared : SessionBody → SessionBody
  prepared s = record s {
    armed_boot = if is_other_boot s.warmed_boot then none else s.armed_boot;
    last_tick = some now;
    entries_allowed = false;
  }

  -- the rest of `tick` on today's session
  unfoldable pub tick_session :
      Session → Table → List BackendCall → Outcome Failure SessionBody → Tick (Ticked × Table)
  tick_session session table calls (err e) = fail calls e
  tick_session session table calls (ok s) =
      if is_repeated s.last_tick
      then fail calls ticks_not_increasing
      else let p = advance env ans now session (prepared s) in
        pure (calls ++ p.calls) (ticked (settle p), save env (settle p) table)

  unfoldable pub tick_today : Table → List BackendCall → Option Session → Tick (Ticked × Table)
  tick_today table calls none = pure calls (closed_calendar (ist_date now), table)
  tick_today table calls (some session) =
      tick_session session table calls (load env table (ist_date now))

  unfoldable pub tick_reconciled :
      List BackendCall → Outcome Failure Reconciled → Tick (Ticked × Table)
  tick_reconciled calls (err e) = fail calls e
  tick_reconciled calls (ok r) = elim r.stopped [
    | some s ↦ pure calls (unfinished s, r.table)
    | none ↦ tick_today r.table calls (session_at env.calendar now)
  ]

  unfoldable pub tick : Table → Tick (Ticked × Table)
  tick table =
      let t = reconcile (earlier (ist_date now) table) table [] in tick_reconciled t.calls t.outcome
