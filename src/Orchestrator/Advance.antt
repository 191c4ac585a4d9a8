-- ===== src/Orchestrator/Advance.antt =====
-- One session at one time: `_close`, `_healthy`, and the body of `tick` of
-- src/kiwit/session_orchestrator.py, with the calls that they make of the backend.
use kiwi_t.Prelude.{
  ℕ, ◌+◌, String, append, Bool, true, false, ◌&&◌, ltb, leb, Option, none, some, List, [], ◌∷◌,
  ◌++◌, Outcome, ok, err, if◌then◌else◌, is_fresh, all, str_eq,
}
use kiwi_t.Calendar.{Session, bounds}
use kiwi_t.Orchestrator.Types.{
  SessionBody, SessionOrchestrator, Answers, BackendCall, warm_call, observe_call, close_call,
  report_call, Health, waiting, ready, observing, observing_no_entries, blocked_dependencies,
  closing, complete, error, is_complete, is_boot, required,
}

-- A session after some calls, and the exception that ended them.
pub record Progress : Type 0 where
  pub body : SessionBody
  pub calls : List BackendCall
  pub raised : Option String

abbrev pub done : SessionBody → List BackendCall → Progress
done s calls = record { body = s; calls = calls; raised = none }

abbrev pub raising : SessionBody → List BackendCall → String → Progress
raising s calls e = record { body = s; calls = calls; raised = some e }

unfoldable pub lookup_check : String → List (String × Bool) → Bool
lookup_check k [] = false
lookup_check k ((j, v) ∷ rest) = if str_eq j k then v else lookup_check k rest

-- the test of `_healthy` on what `health` returned
unfoldable pub is_healthy : SessionOrchestrator → ℕ → Health → Bool
is_healthy env now h =
    is_fresh now h.as_of env.schedule.health_max_age && all (λ k. lookup_check k h.checks) required

module _ (env : SessionOrchestrator) (ans : Answers) (now : ℕ) where
  -- the end of `_close`, on the answer of `backend.report`
  unfoldable pub reported : SessionBody → List BackendCall → Outcome String String → Progress
  reported s calls (err e) = raising s calls e
  reported s calls (ok r) = done (record s { report = some r; state = complete }) calls

  -- `_close` on the answer of `backend.close`
  unfoldable pub closed : SessionBody → List BackendCall → Outcome String Bool → Progress
  closed s calls (err e) = raising s calls e
  closed s calls (ok false) = done s calls
  closed s calls (ok true) =
      reported s (calls ++ report_call s.session_id ∷ []) (ans.report s.session_id)

  -- `_close`
  unfoldable pub close_session : SessionBody → Progress
  close_session s =
      closed (record s { armed_boot = none; state = closing })
        (close_call s.session_id now env.schedule.close_policy ∷ [])
        (ans.close s.session_id now env.schedule.close_policy)

  abbrev pub event_id : SessionBody → String
  event_id s = append s.session_id (append ":" (env.isoformat now))

  -- `observe` with entries blocked, in the branch of failed dependencies
  unfoldable pub observed_blocked : SessionBody → Outcome String (Unit {0}) → Progress
  observed_blocked s (err e) = raising s (observe_call (event_id s) now false ∷ []) e
  observed_blocked s (ok _) = done s (observe_call (event_id s) now false ∷ [])

  unfoldable pub block_session : Session → SessionBody → Progress
  block_session session s =
      let s' = record s { state = blocked_dependencies; armed_boot = none } in
      if leb (bounds session).0 now
      then observed_blocked s' (ans.observe (event_id s') now false)
      else done s' []

  -- the end of the healthy branch, on the answer of `observe`
  unfoldable pub observed :
      SessionBody → List BackendCall → Bool → Outcome String (Unit {0}) → Progress
  observed s calls allowed (err e) = raising s calls e
  observed s calls allowed (ok _) = done (record s { entries_allowed = allowed }) calls

  -- `allowed`
  unfoldable pub is_allowed : Session → SessionBody → Bool
  is_allowed session s =
      is_boot s.armed_boot env.boot_id && ltb (now + env.schedule.entry_cutoff) (bounds session).1

  -- the healthy branch after the warm-up
  unfoldable pub observe_session : Session → SessionBody → List BackendCall → Progress
  observe_session session s calls =
      let allowed = is_allowed session s in
      if ltb now ((bounds session).0 + env.schedule.observation_delay)
      then done (record s { state = ready }) calls
      else observed (record s { state = if allowed then observing else observing_no_entries })
          (calls ++ observe_call (event_id s) now allowed ∷ []) allowed
          (ans.observe (event_id s) now allowed)

  -- the healthy branch on the answer of `warm`
  unfoldable pub warmed : Session → SessionBody → Outcome String Bool → Progress
  warmed session s (err e) = raising s (warm_call s.session_id ∷ []) e
  warmed session s (ok false) = raising s (warm_call s.session_id ∷ []) "RuntimeError"
  warmed session s (ok true) =
      observe_session session (record s { warmed_boot = some env.boot_id })
        (warm_call s.session_id ∷ [])

  unfoldable pub run_session : Session → SessionBody → Progress
  run_session session s =
      if is_boot s.warmed_boot env.boot_id
      then observe_session session s []
      else warmed session s (ans.warm s.session_id)

  -- the branches behind the test of `_healthy`
  unfoldable pub checked : Session → SessionBody → Outcome String Health → Progress
  checked session s (err e) = raising s [] e
  checked session s (ok h) =
      if is_healthy env now h then run_session session s else block_session session s

  -- the `try` block of `tick`
  unfoldable pub advance : Session → SessionBody → Progress
  advance session s =
      if is_complete s.state
      then done s []
      else if leb (bounds session).1 now
      then close_session s
      else if ltb (now + env.schedule.premarket) (bounds session).0
      then done (record s { state = waiting }) []
      else checked session s (ans.health now)

-- the `except` clause: the session fails closed
unfoldable pub settle : Progress → SessionBody
settle p = elim p.raised [
  | none ↦ p.body
  | some e ↦ record p.body {
    state = error;
    armed_boot = none;
    entries_allowed = false;
    error_type = some e;
  }
]
