-- ===== src/Orchestrator/Entries.antt =====
-- When a tick lets the backend take entries, and what a tick does to the operator's arming.
use kiwi_t.Prelude.{
  ℕ, ◌+◌, ◌≤◌, ◌<◌, ◌≡◌, refl, sym, ap, inl, inr, ◌⊎◌, String, Bool, true, false, Option, none,
  some, List, [], arith, Outcome, ok, err, All, All-append, Option-cases, if-intro, leb, ltb, ◌∙◌,
  eq_iff,
}
use kiwi_t.Calendar.{Session, bounds}
use kiwi_t.Orchestrator.Types.{
  SessionBody, SessionOrchestrator, Answers, BackendCall, warm_call, observe_call, close_call,
  report_call, Health, complete, is_complete, is_boot,
}
use kiwi_t.Orchestrator.Advance.{
  Progress, done, raising, is_healthy, reported, closed, close_session, observed_blocked,
  block_session, observed, is_allowed, observe_session, event_id, warmed, run_session, checked,
  advance, settle,
}

-- The conditions under which entries are allowed in a session that a tick is about to advance.
pub record MayEnter (env : SessionOrchestrator) (ans : Answers) (now : ℕ) (session : Session)
    (s : SessionBody) : Type 0 where
  pub armed : s.armed_boot ≡ some env.boot_id
  pub opened : (bounds session).0 + env.schedule.observation_delay ≤ now
  pub before_cutoff : now + env.schedule.entry_cutoff < (bounds session).1
  pub not_complete : is_complete s.state ≡ false
  pub healthy : (h : Health) × (ans.health now ≡ ok h) × (is_healthy env now h ≡ true)

-- a call that allows entries is made under a condition
abbrev pub EntersOnlyIf : Type 0 → BackendCall → Type 0
EntersOnlyIf P (observe_call id now true) = P
EntersOnlyIf P (observe_call id now false) = Unit
EntersOnlyIf P (warm_call id) = Unit
EntersOnlyIf P (close_call id now policy) = Unit
EntersOnlyIf P (report_call id) = Unit

-- What a `Progress` from `s` satisfies: entries are allowed, and told to the backend, only under
-- the condition; and the session is armed afterwards only as it was before.
pub record IsSafe (P : Type 0) (s : SessionBody) (p : Progress) : Type 0 where
  pub calls_safe : All (EntersOnlyIf P) p.calls
  pub allowed_safe : p.body.entries_allowed ≡ true → P
  pub armed_safe : (p.body.armed_boot ≡ none) ⊎ (p.body.armed_boot ≡ s.armed_boot)

is_boot_iff : (o : Option String) (b : String) → is_boot o b ≡ true → o ≡ some b
is_boot_iff none b h = cc
is_boot_iff (some x) b h = ap some ((eq_iff x b).0 h)

-- A body that neither allows entries nor keeps an arming is safe after calls that allow none.
blocked-IsSafe :
    (P : Type 0) (s : SessionBody) (p : Progress)
    → All (EntersOnlyIf P) p.calls
    → p.body.entries_allowed ≡ false
    → p.body.armed_boot ≡ none
    → IsSafe P s p
blocked-IsSafe P s p calls h k = record {
  calls_safe = calls;
  allowed_safe = λ e. cc;
  armed_safe = inl k;
}

-- So is one that keeps the arming.
kept-IsSafe :
    (P : Type 0) (s : SessionBody) (p : Progress)
    → All (EntersOnlyIf P) p.calls
    → p.body.entries_allowed ≡ false
    → p.body.armed_boot ≡ s.armed_boot
    → IsSafe P s p
kept-IsSafe P s p calls h k = record {
  calls_safe = calls;
  allowed_safe = λ e. cc;
  armed_safe = inr k;
}

module _ (env : SessionOrchestrator) (ans : Answers) (now : ℕ) (P : Type 0) where
  reported-IsSafe :
      (s t : SessionBody) (calls : List BackendCall) (a : Outcome String String)
      → All (EntersOnlyIf P) calls
      → t.entries_allowed ≡ false
      → t.armed_boot ≡ none
      → IsSafe P s (reported env ans now t calls a)
  unfolding reported
  reported-IsSafe s t calls (err e) h k l = blocked-IsSafe P s (raising t calls e) h k l
  reported-IsSafe s t calls (ok r) h k l =
      blocked-IsSafe P s (done (record t { report = some r; state = complete }) calls) h k l

  closed-IsSafe :
      (s t : SessionBody) (calls : List BackendCall) (a : Outcome String Bool)
      → All (EntersOnlyIf P) calls
      → t.entries_allowed ≡ false
      → t.armed_boot ≡ none
      → IsSafe P s (closed env ans now t calls a)
  unfolding closed
  closed-IsSafe s t calls (err e) h k l = blocked-IsSafe P s (raising t calls e) h k l
  closed-IsSafe s t calls (ok false) h k l = blocked-IsSafe P s (done t calls) h k l
  closed-IsSafe s t calls (ok true) h k l =
      reported-IsSafe s t _ (ans.report t.session_id)
        (All-append (EntersOnlyIf P) calls _ h (tt, tt)) k l

  pub close_session-IsSafe :
      (s : SessionBody) → s.entries_allowed ≡ false → IsSafe P s (close_session env ans now s)
  unfolding close_session
  close_session-IsSafe s h =
      closed-IsSafe s _ _ (ans.close s.session_id now env.schedule.close_policy) (tt, tt) h refl

  observed_blocked-IsSafe :
      (s t : SessionBody) (a : Outcome String (Unit {0}))
      → t.entries_allowed ≡ false
      → t.armed_boot ≡ none
      → IsSafe P s (observed_blocked env ans now t a)
  unfolding observed_blocked
  observed_blocked-IsSafe s t (err e) k l = blocked-IsSafe P s (raising t _ e) (tt, tt) k l
  observed_blocked-IsSafe s t (ok x) k l = blocked-IsSafe P s (done t _) (tt, tt) k l

  block_session-IsSafe :
      (session : Session) (s : SessionBody)
      → s.entries_allowed ≡ false
      → IsSafe P s (block_session env ans now session s)
  unfolding block_session
  block_session-IsSafe session s h =
      if-intro (IsSafe P s) (leb (bounds session).0 now) _ _
        (λ _. observed_blocked-IsSafe s _ _ h refl) (λ _. blocked-IsSafe P s (done _ []) tt h refl)

  observed-IsSafe :
      (s t : SessionBody) (calls : List BackendCall) (allowed : Bool)
      (a : Outcome String (Unit {0}))
      → All (EntersOnlyIf P) calls
      → t.entries_allowed ≡ false
      → t.armed_boot ≡ s.armed_boot
      → (allowed ≡ true → P)
      → IsSafe P s (observed env ans now t calls allowed a)
  unfolding observed
  observed-IsSafe s t calls allowed (err e) h k l f = kept-IsSafe P s (raising t calls e) h k l
  observed-IsSafe s t calls allowed (ok x) h k l f = record {
    calls_safe = h;
    allowed_safe = f;
    armed_safe = inr l;
  }

  observe_call-EntersOnlyIf :
      (id : String) (b : Bool) → (b ≡ true → P) → EntersOnlyIf P (observe_call id now b)
  observe_call-EntersOnlyIf id true f = f refl
  observe_call-EntersOnlyIf id false f = tt

  observe_session-IsSafe :
      (session : Session) (s t : SessionBody) (calls : List BackendCall)
      → All (EntersOnlyIf P) calls
      → t.entries_allowed ≡ false
      → t.armed_boot ≡ s.armed_boot
      → ((bounds session).0 + env.schedule.observation_delay ≤ now
          → is_allowed env ans now session t ≡ true
          → P)
      → IsSafe P s (observe_session env ans now session t calls)
  unfolding observe_session
  observe_session-IsSafe session s t calls h k l f =
      if-intro (IsSafe P s) (ltb now ((bounds session).0 + env.schedule.observation_delay)) _ _
        (λ _. kept-IsSafe P s (done _ calls) h k l)
        (λ late.
          let enter : is_allowed env ans now session t ≡ true → P = f (ground arith) in
          observed-IsSafe s _ _ (is_allowed env ans now session t) _
            (All-append (EntersOnlyIf P) calls _ h
              (observe_call-EntersOnlyIf (event_id env ans now t) _ enter, tt))
            k l enter)

-- The conditions that `allowed` tests.
is_allowed_facts :
    (env : SessionOrchestrator) (ans : Answers) (now : ℕ) (session : Session) (s : SessionBody)
    → is_allowed env ans now session s ≡ true
    → (s.armed_boot ≡ some env.boot_id) × (now + env.schedule.entry_cutoff < (bounds session).1)
unfolding is_allowed
is_allowed_facts env ans now session s h =
    (is_boot_iff s.armed_boot env.boot_id (ground arith), ground arith)

module _ (env : SessionOrchestrator) (ans : Answers) (now : ℕ) (session : Session)
    (s : SessionBody) where
  abbrev Enter : Type 0
  Enter = MayEnter env ans now session s

  may_enter :
      (t : SessionBody) (h : Health)
      → t.armed_boot ≡ s.armed_boot
      → is_complete s.state ≡ false
      → ans.health now ≡ ok h
      → is_healthy env now h ≡ true
      → (bounds session).0 + env.schedule.observation_delay ≤ now
      → is_allowed env ans now session t ≡ true
      → Enter
  may_enter t h same live e k late allowed =
      let (armed, early) = is_allowed_facts env ans now session t allowed in
      record {
        armed = sym same ∙ armed;
        opened = late;
        before_cutoff = early;
        not_complete = live;
        healthy = (h, e, k);
      }

  warmed-IsSafe :
      (h : Health) (a : Outcome String Bool)
      → s.entries_allowed ≡ false
      → is_complete s.state ≡ false
      → ans.health now ≡ ok h
      → is_healthy env now h ≡ true
      → IsSafe Enter s (warmed env ans now session s a)
  unfolding warmed
  warmed-IsSafe h (err x) no_entries live e k =
      kept-IsSafe Enter s (raising s _ x) (tt, tt) no_entries refl
  warmed-IsSafe h (ok false) no_entries live e k =
      kept-IsSafe Enter s (raising s _ _) (tt, tt) no_entries refl
  warmed-IsSafe h (ok true) no_entries live e k =
      observe_session-IsSafe env ans now Enter session s _ _ (tt, tt) no_entries refl
        (may_enter _ h refl live e k)

  run_session-IsSafe :
      (h : Health)
      → s.entries_allowed ≡ false
      → is_complete s.state ≡ false
      → ans.health now ≡ ok h
      → is_healthy env now h ≡ true
      → IsSafe Enter s (run_session env ans now session s)
  unfolding run_session
  run_session-IsSafe h no_entries live e k =
      if-intro (IsSafe Enter s) (is_boot s.warmed_boot env.boot_id) _ _
        (λ _.
          observe_session-IsSafe env ans now Enter session s s [] tt no_entries refl
            (may_enter s h refl live e k))
        (λ _. warmed-IsSafe h (ans.warm s.session_id) no_entries live e k)

  checked-IsSafe :
      (a : Outcome String Health)
      → s.entries_allowed ≡ false
      → is_complete s.state ≡ false
      → ans.health now ≡ a
      → IsSafe Enter s (checked env ans now session s a)
  unfolding checked
  checked-IsSafe (err x) no_entries live e = kept-IsSafe Enter s (raising s [] x) tt no_entries refl
  checked-IsSafe (ok h) no_entries live e =
      if-intro (IsSafe Enter s) (is_healthy env now h) _ _
        (λ k. run_session-IsSafe h no_entries live e k)
        (λ _. block_session-IsSafe env ans now Enter session s no_entries)

  -- Whatever the backend answers, the `try` block is safe from a session that allows no entries.
  pub advance-IsSafe : s.entries_allowed ≡ false → IsSafe Enter s (advance env ans now session s)
  unfolding advance
  advance-IsSafe no_entries =
      if-intro (IsSafe Enter s) (is_complete s.state) _ _
        (λ _. kept-IsSafe Enter s (done s []) tt no_entries refl)
        (λ live.
          if-intro (IsSafe Enter s) (leb (bounds session).1 now) _ _
            (λ _. close_session-IsSafe env ans now Enter s no_entries)
            (λ _.
              if-intro (IsSafe Enter s) (ltb (now + env.schedule.premarket) (bounds session).0) _ _
                (λ _. kept-IsSafe Enter s (done _ []) tt no_entries refl)
                (λ _. checked-IsSafe (ans.health now) no_entries live refl)))

-- The `except` clause keeps a session safe.
pub settle-IsSafe :
    (P : Type 0) (s : SessionBody) (p : Progress)
    → IsSafe P s p
    → ((settle p).entries_allowed ≡ true → P)
      × (((settle p).armed_boot ≡ none) ⊎ ((settle p).armed_boot ≡ s.armed_boot))
unfolding settle
settle-IsSafe P s p h = elim (Option-cases p.raised) [
  | inl fine ↦ rw fine (h.allowed_safe, h.armed_safe)
  | inr (e, thrown) ↦ rw thrown ((λ k. cc), inl refl)
]
