-- ===== src/Orchestrator/Guarantees.antt =====
-- What `tick` and `control` of src/kiwit/session_orchestrator.py guarantee.
use kiwi_t.Prelude.{
  ℕ, ◌≡◌, ◌≢◌, refl, inl, inr, String, true, false, not, Option, none, some, List, [], arith,
  Outcome, ok, err, All, All-append, All-mono, Bool-cases, if-intro, eq_iff, Returning,
  Returning-map, str_eq, Option-cases,
}
use kiwi_t.Calendar.{Session, session_at, ist_date}
use kiwi_t.Orchestrator.Types.{
  SessionBody, SessionOrchestrator, Answers, BackendCall, observe_call, warm_call, close_call,
  report_call, Failure,
}
use kiwi_t.Orchestrator.Advance.{advance, settle}
use kiwi_t.Orchestrator.Tick.{
  Table, load, find_row, Tick, Ticked, ticked, closed_calendar, unfinished, Reconciled, earlier,
  is_repeated, is_other_boot, prepared, tick_session, tick_today, tick_reconciled, tick,
}
use kiwi_t.Orchestrator.Entries.{MayEnter, EntersOnlyIf, advance-IsSafe, settle-IsSafe}
use kiwi_t.Orchestrator.Table.{IsKeyed, SameRow, StopsBlocked, reconcile-IsClean, earlier_days}

-- Today's session and its stored body, under the conditions for entries; the session was not warmed
-- up by another boot.
abbrev pub EntryGranted : SessionOrchestrator → Answers → ℕ → Table → Type 0
EntryGranted env ans now table =
    (session : Session) × (s : SessionBody) × (session_at env.calendar now ≡ some session)
    × (load env table (ist_date now) ≡ ok s)
    × MayEnter env ans now session s
    × (is_other_boot env ans now s.warmed_boot ≡ false)

module _ (env : SessionOrchestrator) (ans : Answers) (now : ℕ) where
  -- What held of the prepared session held of the loaded one.
  prepared-MayEnter :
      (session : Session) (s : SessionBody)
      → MayEnter env ans now session (prepared env ans now s)
      → MayEnter env ans now session s × (is_other_boot env ans now s.warmed_boot ≡ false)
  unfolding prepared
  prepared-MayEnter session s h = elim (Bool-cases (is_other_boot env ans now s.warmed_boot)) [
    | inl other ↦ cc (h.armed)
    | inr mine ↦ (
      record {
        armed = rw mine at h.armed;
        opened = h.opened;
        before_cutoff = h.before_cutoff;
        not_complete = h.not_complete;
        healthy = h.healthy;
      },
      mine,
    )
  ]

EntersOnlyIf-mono :
    (P Q : Type 0) → (P → Q) → (c : BackendCall) → EntersOnlyIf P c → EntersOnlyIf Q c
EntersOnlyIf-mono P Q f (observe_call id now true) h = f h
EntersOnlyIf-mono P Q f (observe_call id now false) h = tt
EntersOnlyIf-mono P Q f (warm_call id) h = tt
EntersOnlyIf-mono P Q f (close_call id now policy) h = tt
EntersOnlyIf-mono P Q f (report_call id) h = tt

-- The answer of a tick allows entries for today's session under a condition, and never for an earlier
-- session that is not finished.
abbrev pub AllowsOnlyIf : Type 0 → Ticked × Table → Type 0
AllowsOnlyIf P (ticked s, table) = s.entries_allowed ≡ true → P
AllowsOnlyIf P (unfinished s, table) = s.entries_allowed ≡ false
AllowsOnlyIf P (closed_calendar day, table) = Unit

-- A tick whose calls and whose answer allow entries under a condition only.
pub record IsGuarded (P : Type 0) (t : Tick (Ticked × Table)) : Type 0 where
  pub calls_guarded : All (EntersOnlyIf P) t.calls
  pub answer_guarded : Returning (AllowsOnlyIf P) t.outcome

AllowsOnlyIf-mono :
    (P Q : Type 0) → (P → Q) → (r : Ticked × Table) → AllowsOnlyIf P r → AllowsOnlyIf Q r
AllowsOnlyIf-mono P Q f (ticked s, table) h = λ e. f (h e)
AllowsOnlyIf-mono P Q f (unfinished s, table) h = h
AllowsOnlyIf-mono P Q f (closed_calendar day, table) h = tt

-- A condition may be weakened.
pub IsGuarded-mono :
    (P Q : Type 0) → (P → Q) → (t : Tick (Ticked × Table)) → IsGuarded P t → IsGuarded Q t
IsGuarded-mono P Q f t g = record {
  calls_guarded = All-mono _ _ (EntersOnlyIf-mono P Q f) t.calls g.calls_guarded;
  answer_guarded =
      Returning-map (AllowsOnlyIf P) (AllowsOnlyIf Q) t.outcome (AllowsOnlyIf-mono P Q f)
        g.answer_guarded;
}

module _ (env : SessionOrchestrator) (ans : Answers) (now : ℕ) (table : Table) where
  abbrev Granted : Type 0
  Granted = EntryGranted env ans now table

  tick_session-IsGuarded :
      (session : Session) (t : Table) (calls : List BackendCall) (a : Outcome Failure SessionBody)
      → session_at env.calendar now ≡ some session
      → load env table (ist_date now) ≡ a
      → All (EntersOnlyIf Granted) calls
      → IsGuarded Granted (tick_session env ans now session t calls a)
  unfolding tick_session
  tick_session-IsGuarded session t calls (err e) there l h = record {
    calls_guarded = h;
    answer_guarded = tt;
  }
  tick_session-IsGuarded session t calls (ok s) there l h =
      if-intro (IsGuarded Granted) (is_repeated env ans now s.last_tick) _ _
        (λ _. record { calls_guarded = h; answer_guarded = tt })
        (λ _.
          let s' = prepared env ans now s in
          let safe = advance-IsSafe env ans now session s' (unfold prepared in refl) in
          let grant : MayEnter env ans now session s' → Granted = λ m.
            let (may, mine) = prepared-MayEnter env ans now session s m in
            (session, s, there, l, may, mine) in
          record {
            calls_guarded =
                All-append (EntersOnlyIf Granted) calls _ h
                  (All-mono _ _ (EntersOnlyIf-mono _ _ grant) _ safe.calls_safe);
            answer_guarded = λ e. grant ((settle-IsSafe _ s' _ safe).0 e);
          })

  tick_today-IsGuarded :
      (t : Table) (calls : List BackendCall) (o : Option Session)
      → session_at env.calendar now ≡ o
      → find_row (ist_date now) t ≡ find_row (ist_date now) table
      → All (EntersOnlyIf Granted) calls
      → IsGuarded Granted (tick_today env ans now t calls o)
  unfolding tick_today load
  tick_today-IsGuarded t calls none there same h = record { calls_guarded = h; answer_guarded = tt }
  tick_today-IsGuarded t calls (some session) there same h =
      tick_session-IsGuarded session t calls _ there (rw same) h

  tick_reconciled-IsGuarded :
      (calls : List BackendCall) (a : Outcome Failure Reconciled)
      → All (EntersOnlyIf Granted) calls
      → Returning (SameRow (ist_date now) table) a
      → Returning StopsBlocked a
      → IsGuarded Granted (tick_reconciled env ans now calls a)
  unfolding tick_reconciled
  tick_reconciled-IsGuarded calls (err e) h same blocked = record {
    calls_guarded = h;
    answer_guarded = tt;
  }
  tick_reconciled-IsGuarded calls (ok r) h same blocked = elim (Option-cases r.stopped) [
    | inl through ↦ rw through (tick_today-IsGuarded r.table calls _ refl same h)
    | inr (s, stopped) ↦
        rw stopped (record { calls_guarded = h; answer_guarded = blocked s stopped })
  ]

-- In one tick, whatever the backend answers, the answer for an earlier session that is not finished allows
-- no entries; and the backend is told that entries are allowed, and the answer of the tick for today's
-- session says so, only if: the calendar has a session today; its stored body loads under
-- the present configuration, is not complete, is armed by this boot and was not warmed up by another;
-- the observation delay has passed and the entry cutoff is not reached; and the health that the
-- backend reports is fresh, with every required check true.
pub tick-IsGuarded :
    (env : SessionOrchestrator) (ans : Answers) (now : ℕ) (table : Table)
    → IsKeyed table
    → IsGuarded (EntryGranted env ans now table) (tick env ans now table)
unfolding tick
tick-IsGuarded env ans now table keyed =
    let clean =
      reconcile-IsClean env ans now (EntryGranted env ans now table) (ist_date now)
        (earlier env ans now (ist_date now) table) table []
        (earlier_days env ans now (ist_date now) table) keyed tt in
    tick_reconciled-IsGuarded env ans now table _ _ clean.calls_clean clean.same_row
      clean.stops_blocked

clash : (a b : String) → a ≢ b → not (str_eq a b) ≡ false → ⊥
clash a b h e = h ((eq_iff a b).0 (ground arith))

-- A session that another boot has warmed up allows no entries in the first tick of this boot, not
-- even if an operator has armed it for this boot before that tick.
pub no_entry_after_restart :
    (env : SessionOrchestrator) (ans : Answers) (now : ℕ) (session : Session) (s : SessionBody)
    (boot : String)
    → s.warmed_boot ≡ some boot
    → boot ≢ env.boot_id
    → (settle (advance env ans now session (prepared env ans now s))).entries_allowed ≡ false
no_entry_after_restart env ans now session s boot warm other =
    elim (Bool-cases
      (settle (advance env ans now session (prepared env ans now s))).entries_allowed) [
        | inl allowed ↦
            let safe =
              advance-IsSafe env ans now session (prepared env ans now s)
                (unfold prepared in refl) in
            let may = (settle-IsSafe _ (prepared env ans now s) _ safe).0 allowed in
            let mine = (prepared-MayEnter env ans now session s may).1 in
            absurd (clash boot env.boot_id other (rw warm at mine))
        | inr blocked ↦ blocked
      ]
