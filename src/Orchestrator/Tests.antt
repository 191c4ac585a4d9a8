-- ===== src/Orchestrator/Tests.antt =====
-- One market day of the orchestrator, and its theorems at that day.
use kiwi_t.Prelude.{ℕ, ◌≡◌, refl, true, false, some, [], ◌∷◌, ok, Returning, eq_iff}
use kiwi_t.Calendar.{Session, session_at, session, bounds, ist_date}
use kiwi_t.Orchestrator.Types.{
  SessionBody, SessionOrchestrator, Answers, Action, flatten_on_fresh_quote, observe_call,
  warm_call,
}
use kiwi_t.Orchestrator.Advance.{
  advance, settle, close_session, closed, reported, checked, is_healthy, lookup_check, run_session,
  warmed, observe_session, is_allowed, observed,
}
use kiwi_t.Orchestrator.Tick.{
  Table, tick, control, prepared, find_row, load, load_row, save, new_session, controlled,
  in_window, reconcile, earlier, tick_reconciled, tick_today, tick_session, is_repeated,
}
use kiwi_t.Orchestrator.Guarantees.{tick-IsGuarded, IsGuarded, EntryGranted, no_entry_after_restart}
use kiwi_t.Orchestrator.Completion.{advance-Completes, Completes, control-Controlled, Controlled}

abbrev one_day : Session
one_day = record { day = 20000; opens = 33300000000; closes = 55800000000 }

-- an orchestrator of the boot `boot`, of a calendar of one day
abbrev env : SessionOrchestrator
env = record {
  calendar = record { version = "v1"; sessions = one_day ∷ [] };
  schedule = record {
    premarket = 900000000;
    observation_delay = 0;
    entry_cutoff = 900000000;
    close_policy = flatten_on_fresh_quote;
    health_max_age = 30000000;
  };
  boot_id = "boot";
  binding = "binding";
  session_id = λ _. "session";
  isoformat = λ _. "time";
  is_blank = λ _. false;
}

-- a backend that is healthy and settles what it is asked to
abbrev answers : Answers
answers = record {
  health = λ now. ok (record {
    as_of = now;
    checks =
        ("database", true)
        ∷ ("configuration", true)
        ∷ ("groww_auth", true)
        ∷ ("history", true)
        ∷ ("features", true)
        ∷ ("models", true)
        ∷ ("audit", true)
        ∷ [];
  });
  warm = λ _. ok true;
  observe = λ _ _ _. ok tt;
  close = λ _ _ _. ok true;
  report = λ _. ok "report";
}

-- 09:20 and 15:31 in India on day 20000
abbrev morning : ℕ
morning = 1728013800000000

abbrev evening : ℕ
evening = 1728036060000000

-- today's session after RUN
abbrev armed : SessionBody
armed = controlled env morning Action.run "operator" (new_session env 20000)

abbrev armed_table : Table
armed_table = (record { day = 20000; binding = "binding"; body = armed }) ∷ []

-- RUN stores the armed session.
test_run : control env morning Action.run "operator" [] ≡ ok (armed, armed_table)
unfolding control in_window controlled load load_row find_row new_session save session_at session
    ist_date bounds
test_run = refl

-- The next tick warms up and enters.
test_tick :
    (tick env answers morning armed_table).calls
    ≡ warm_call "session" ∷ observe_call "session:time" morning true ∷ []
unfolding tick reconcile earlier tick_reconciled tick_today tick_session is_repeated prepared
    advance checked is_healthy lookup_check run_session warmed observe_session is_allowed observed
    settle controlled load load_row find_row new_session save session_at session ist_date bounds
test_tick = refl

tick-IsGuarded_example :
    IsGuarded (EntryGranted env answers morning armed_table) (tick env answers morning armed_table)
tick-IsGuarded_example =
    tick-IsGuarded env answers morning armed_table (unfold new_session controlled in (refl, tt))

-- the armed session, warmed up by an earlier boot
abbrev stale : SessionBody
stale = record armed { warmed_boot = some "before" }

no_entry_after_restart_example :
    (settle
      (advance env answers morning one_day (prepared env answers morning stale))).entries_allowed
    ≡ false
no_entry_after_restart_example =
    no_entry_after_restart env answers morning one_day stale "before" refl
      (λ e. let d : false ≡ true = (eq_iff "before" "boot").1 e in cc)

advance-Completes_example :
    Completes answers evening env one_day armed (settle (advance env answers evening one_day armed))
advance-Completes_example =
    advance-Completes env answers evening one_day armed
      (unfold advance close_session closed reported settle new_session controlled bounds in refl)

control-Controlled_example :
    Returning
      (Controlled env morning Action.run "operator" [])
      (control env morning Action.run "operator" [])
control-Controlled_example = control-Controlled env morning Action.run "operator" [] tt
