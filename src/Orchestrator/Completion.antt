-- ===== src/Orchestrator/Completion.antt =====
-- How a session of src/kiwit/session_orchestrator.py completes, and what `control` needs and does.
use kiwi_t.Prelude.{
  ℕ, ◌+◌, ◌≤◌, ◌<◌, ◌≡◌, ◌≢◌, ◌∙◌, refl, sym, subst, ◌∷◌, ◌++◌, inl, ◌⊎◌, String, Bool, true, false,
  not, ◌&&◌, none, some, List, [], arith, Outcome, ok, err, if-intro, leb, ltb, Returning,
  Returning-bind, Returning-then, raise_if, raise_if_ok, or_raise, or_raise_ok,
}
use kiwi_t.Calendar.{Session, session_at, ist_date, bounds}
use kiwi_t.Orchestrator.Types.{
  SessionBody, SessionOrchestrator, Answers, BackendCall, waiting, is_complete, is_boot, Action,
  action_and_operator_required, no_session, outside_activation_window, session_complete, Health,
}
use kiwi_t.Orchestrator.Advance.{
  Progress, done, advance, settle, close_session, closed, reported, block_session, observed_blocked,
  checked, run_session, warmed, observe_session, observed, is_healthy,
}
use kiwi_t.Orchestrator.Tick.{
  Table, find_row, load, save, control, controlled, in_window, is_run, tick,
}
use kiwi_t.Orchestrator.Table.{IsKeyed, save-IsKeyed, load-save, load-day, find_row-save_ne}
use kiwi_t.Orchestrator.Guarantees.{EntryGranted, IsGuarded, IsGuarded-mono, tick-IsGuarded}

-- The session was complete before, or its time is over, the backend has closed it, and the report
-- that it gave is stored.
abbrev pub Completes :
    Answers → ℕ → SessionOrchestrator → Session → SessionBody → SessionBody → Type 0
Completes ans now env session s s' =
    (is_complete s.state ≡ true)
    ⊎ (((bounds session).1 ≤ now)
        × (ans.close s.session_id now env.schedule.close_policy ≡ ok true)
        × ((r : String) × (ans.report s.session_id ≡ ok r) × (s'.report ≡ some r)))

-- a progress after which the session is not complete
abbrev IsIncomplete : Progress → Type 0
IsIncomplete p = is_complete (settle p).state ≡ false

unearned : {b : Bool} → b ≡ false → b ≡ true → ⊥
unearned h k = cc

module _ (env : SessionOrchestrator) (ans : Answers) (now : ℕ) (session : Session)
    (s : SessionBody) where
  observed-IsIncomplete :
      (t : SessionBody) (calls : List BackendCall) (b : Bool) (a : Outcome String (Unit {0}))
      → is_complete t.state ≡ false
      → IsIncomplete (observed env ans now t calls b a)
  unfolding observed settle
  observed-IsIncomplete t calls b (err e) h = refl
  observed-IsIncomplete t calls b (ok x) h = h

  observe_session-IsIncomplete :
      (t : SessionBody) (calls : List BackendCall)
      → IsIncomplete (observe_session env ans now session t calls)
  unfolding observe_session settle
  observe_session-IsIncomplete t calls =
      if-intro IsIncomplete (ltb now ((bounds session).0 + env.schedule.observation_delay)) _ _
        (λ _. refl) (λ _. observed-IsIncomplete _ _ _ _ (ground arith))

  warmed-IsIncomplete : (a : Outcome String Bool) → IsIncomplete (warmed env ans now session s a)
  unfolding warmed settle
  warmed-IsIncomplete (err e) = refl
  warmed-IsIncomplete (ok false) = refl
  warmed-IsIncomplete (ok true) = observe_session-IsIncomplete _ _

  block_session-IsIncomplete : IsIncomplete (block_session env ans now session s)
  unfolding block_session observed_blocked settle
  block_session-IsIncomplete = ground arith

  checked-IsIncomplete :
      (a : Outcome String Health) → IsIncomplete (checked env ans now session s a)
  unfolding checked run_session settle
  checked-IsIncomplete (err e) = refl
  checked-IsIncomplete (ok h) =
      if-intro IsIncomplete (is_healthy env now h) _ _
        (λ _.
          if-intro IsIncomplete (is_boot s.warmed_boot env.boot_id)
            (observe_session env ans now session s [])
            (warmed env ans now session s (ans.warm s.session_id))
            (λ _. observe_session-IsIncomplete s [])
            (λ _. warmed-IsIncomplete (ans.warm s.session_id)))
        (λ _. block_session-IsIncomplete)

  close_session-Completes :
      (bounds session).1 ≤ now
      → is_complete (settle (close_session env ans now s)).state ≡ true
      → Completes ans now env session s (settle (close_session env ans now s))
  unfolding close_session closed reported settle
  close_session-Completes late h = ground arith

  -- a progress that completes the session by rights
  abbrev IsEarned : Progress → Type 0
  IsEarned p = is_complete (settle p).state ≡ true → Completes ans now env session s (settle p)

  -- After the `try` block and its `except` clause a session is complete only if it was so before, or
  -- if its time is over, the backend answered that nothing is unresolved, and the report that it
  -- then gave is stored.
  pub advance-Completes :
      is_complete (settle (advance env ans now session s)).state ≡ true
      → Completes ans now env session s (settle (advance env ans now session s))
  unfolding advance
  advance-Completes =
      if-intro IsEarned (is_complete s.state) (done s []) _ (λ old _. inl old)
        (λ _.
          if-intro IsEarned (leb (bounds session).1 now) (close_session env ans now s) _
            (λ late. close_session-Completes (ground arith))
            (λ _.
              if-intro IsEarned (ltb (now + env.schedule.premarket) (bounds session).0)
                (done (record s { state = waiting }) [])
                (checked env ans now session s (ans.health now))
                (λ _ h. absurd (unfold settle in cc))
                (λ _ h. absurd (unearned (checked-IsIncomplete (ans.health now)) h))))

-- The fields of a body that `control` leaves as they were loaded.
pub record IsUntouched (s s' : SessionBody) : Type 0 where
  pub same_day : s'.day ≡ s.day
  pub same_id : s'.session_id ≡ s.session_id
  pub same_state : s'.state ≡ s.state
  pub same_warmed_boot : s'.warmed_boot ≡ s.warmed_boot
  pub same_last_tick : s'.last_tick ≡ s.last_tick
  pub same_report : s'.report ≡ s.report
  pub same_entries_allowed : s'.entries_allowed ≡ s.entries_allowed
  pub same_error_type : s'.error_type ≡ s.error_type

-- The state before and after a `control` that returns.
pub record Controlled (env : SessionOrchestrator) (now : ℕ) (action : Action) (operator : String)
    (table : Table) (r : SessionBody × Table) : Type 0 where
  pub session : Session
  pub before : SessionBody
  pub today : session_at env.calendar now ≡ some session
  pub loaded : load env table session.day ≡ ok before
  pub not_complete : is_complete before.state ≡ false
  pub named : env.is_blank operator ≡ false
  pub opened : is_run action ≡ true → (bounds session).0 ≤ now + env.schedule.premarket
  pub before_cutoff : is_run action ≡ true → now + env.schedule.entry_cutoff < (bounds session).1
  pub armed : is_run action ≡ true → r.0.armed_boot ≡ some env.boot_id
  pub disarmed : is_run action ≡ false → r.0.armed_boot ≡ none
  pub signed : r.0.operator ≡ some operator
  pub logged :
      r.0.events ≡ before.events ++ (record { at = now; action = action; operator = operator }) ∷ []
  pub untouched : IsUntouched before r.0
  pub reloaded : load env r.1 session.day ≡ ok r.0
  pub others : (day : ℕ) → session.day ≢ day → find_row day r.1 ≡ find_row day table
  pub blocked :
      is_run action ≡ false
      → (ans : Answers) (later : ℕ) → ist_date later ≡ session.day
      → IsGuarded ⊥ (tick env ans later r.1)

-- No tick on a table allows entries on a day whose body is not armed.
unarmed_tick :
    (env : SessionOrchestrator) (table : Table) (s : SessionBody) (ans : Answers) (now : ℕ)
    → IsKeyed table
    → load env table (ist_date now) ≡ ok s
    → s.armed_boot ≡ none
    → IsGuarded ⊥ (tick env ans now table)
unarmed_tick env table s ans now keyed loaded unarmed =
    IsGuarded-mono (EntryGranted env ans now table) ⊥
      (λ (session, s', there, loaded', may, mine). let armed = may.armed in cc)
      (tick env ans now table) (tick-IsGuarded env ans now table keyed)

module _ (env : SessionOrchestrator) (now : ℕ) (action : Action) (operator : String)
    (table : Table) where
  abbrev C : SessionBody × Table → Type 0
  C = Controlled env now action operator table

  -- what `control` writes for a body that it has loaded
  stored-Controlled :
      (session : Session) (s : SessionBody)
      → IsKeyed table
      → session_at env.calendar now ≡ some session
      → load env table session.day ≡ ok s
      → is_complete s.state ≡ false
      → env.is_blank operator ≡ false
      → is_run action && not (in_window env session now) ≡ false
      → C (
        controlled env now action operator s,
        save env (controlled env now action operator s) table,
      )
  unfolding controlled in_window
  stored-Controlled session s keyed today loaded live named timed =
      let s' = controlled env now action operator s in
      let day : session.day ≡ s'.day = sym (load-day env table session.day s keyed loaded) in
      let again : load env (save env s' table) session.day ≡ ok s' =
        subst (λ d. load env (save env s' table) d ≡ ok s') (sym day)
          (load-save env s' s table (subst (λ d. load env table d ≡ ok s) day loaded)) in
      record {
        session = session;
        before = s;
        today = today;
        loaded = loaded;
        not_complete = live;
        named = named;
        opened = λ h. ground arith;
        before_cutoff = λ h. ground arith;
        armed = λ h. ground arith;
        disarmed = λ h. ground arith;
        signed = refl;
        logged = refl;
        untouched = record {
          same_day = refl;
          same_id = refl;
          same_state = refl;
          same_warmed_boot = refl;
          same_last_tick = refl;
          same_report = refl;
          same_entries_allowed = refl;
          same_error_type = refl;
        };
        reloaded = again;
        others = λ other ne. find_row-save_ne env s' other table (λ e. ne (day ∙ e));
        blocked = λ h ans later same.
            unarmed_tick env (save env s' table) s' ans later (save-IsKeyed env s' table keyed)
              (subst (λ d. load env (save env s' table) d ≡ ok s') (sym same) again) (ground arith);
      }

  -- A `control` that returns has found a session of the calendar today, an operator that is not blank,
  -- and a stored body that loads and is not complete; RUN came within the activation window. The body
  -- that it returns is the loaded one but for three fields: it is armed for this boot by RUN and disarmed
  -- by STOP, signed by the operator, and the action is added to its events. That body loads from the new
  -- table, whose rows of other days are the old ones; and after STOP no tick on that table allows entries
  -- on that day. The bodies of the table stand under their own days.
  pub control-Controlled : IsKeyed table → Returning C (control env now action operator table)
  unfolding control
  control-Controlled keyed =
      Returning-then C (raise_if (env.is_blank operator) action_and_operator_required) _ (λ named.
        Returning-bind C (or_raise (session_at env.calendar now) no_session) _ (λ s there.
          Returning-then C
            (raise_if (is_run action && not (in_window env s now)) outside_activation_window) _
            (λ timed. Returning-bind C (load env table s.day) _ (λ body loaded.
              Returning-then C (raise_if (is_complete body.state) session_complete)
                (ok (
                  controlled env now action operator body,
                  save env (controlled env now action operator body) table,
                ))
                (λ live.
                  stored-Controlled s body keyed (or_raise_ok _ _ there) loaded
                    (raise_if_ok _ _ live) (raise_if_ok _ _ named) (raise_if_ok _ _ timed))))))
