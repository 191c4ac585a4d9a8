-- ===== src/Orchestrator/Table.antt =====
-- The table of sessions under `_save`, and the loop over earlier days.
use kiwi_t.Prelude.{
  String, str_eq, eq_iff, true, ℕ, ◌<◌, ◌≡◌, ◌≢◌, refl, sym, subst, inl, inr, false, Option, none,
  some, List, [], ◌∷◌, ◌++◌, arith, Outcome, ok, err, All, All-append, Bool-cases, if-intro, ltb,
  ◌==◌, found-cases, ==_iff, ◌∙◌, Returning, Returning-map,
}
use kiwi_t.Orchestrator.Types.{
  SessionBody, SessionRow, SessionOrchestrator, Answers, BackendCall, Failure, is_complete,
}
use kiwi_t.Orchestrator.Advance.{Progress, close_session, closed, reported, settle}
use kiwi_t.Orchestrator.Tick.{
  Table, find_row, load, load_row, new_session, save, Tick, Reconciled, advance_close, earlier,
  reconcile, reconcile_loaded,
}
use kiwi_t.Orchestrator.Entries.{EntersOnlyIf, close_session-IsSafe}

-- A write of one day is not seen at another.
pub find_row-save_ne :
    (env : SessionOrchestrator) (s : SessionBody) (day : ℕ) (table : Table)
    → s.day ≢ day
    → find_row day (save env s table) ≡ find_row day table
unfolding find_row save
find_row-save_ne env s day [] h = ground arith
find_row-save_ne env s day (r ∷ rest) h = ground (arith, find_row-save_ne env s day rest h)

-- Every body stands under its own day.
abbrev pub IsKeyed : Table → Type 0
IsKeyed table = All (λ (r : SessionRow). r.body.day ≡ r.day) table

-- A write keeps every body under its day.
pub save-IsKeyed :
    (env : SessionOrchestrator) (s : SessionBody) (table : Table)
    → IsKeyed table
    → IsKeyed (save env s table)
unfolding save
save-IsKeyed env s [] h = (refl, tt)
save-IsKeyed env s (r ∷ rest) h = elim (Bool-cases (r.day == s.day)) [
  | inl same ↦ rw same (ground arith, h.1)
  | inr other ↦ rw other (
      if-intro IsKeyed (ltb s.day r.day) _ _ (λ _. (refl, h))
        (λ _. (h.0, save-IsKeyed env s rest h.1)))
]

same_text : (a : String) → str_eq a a ≡ true
same_text a = (eq_iff a a).1 refl

-- What is written over a row that loads, or under a new day, loads under its day.
pub load-save :
    (env : SessionOrchestrator) (s before : SessionBody) (table : Table)
    → load env table s.day ≡ ok before
    → load env (save env s table) s.day ≡ ok s
unfolding load load_row find_row save
load-save env s before [] e = ground (arith, same_text env.binding)
load-save env s before (r ∷ rest) e =
    ground (arith, same_text env.binding, load-save env s before rest)

find_row-day :
    (day : ℕ) (table : Table) (r : SessionRow)
    → IsKeyed table
    → find_row day table ≡ some r
    → r.body.day ≡ day
unfolding find_row
find_row-day day [] r h e = cc
find_row-day day (x ∷ rest) r h e = elim (found-cases (x.day == day) x (find_row day rest) e) [
  | inl (same, p) ↦ subst (λ (y : SessionRow). y.body.day ≡ day) p (h.0 ∙ (==_iff x.day day).0 same)
  | inr (other, later) ↦ find_row-day day rest r h.1 later
]

load_row-day :
    (env : SessionOrchestrator) (day : ℕ) (found : Option SessionRow) (s : SessionBody)
    → ((r : SessionRow) → found ≡ some r → r.body.day ≡ day)
    → load_row env day found ≡ ok s
    → s.day ≡ day
unfolding load_row new_session
load_row-day env day none s h e = ground arith
load_row-day env day (some r) s h e = ground (arith, h r refl)

-- A session is loaded under the day that was asked for.
pub load-day :
    (env : SessionOrchestrator) (table : Table) (day : ℕ) (s : SessionBody)
    → IsKeyed table
    → load env table day ≡ ok s
    → s.day ≡ day
unfolding load
load-day env table day s h e =
    load_row-day env day (find_row day table) s (λ r f. find_row-day day table r h f) e

-- What the calls on a session leave of its identity.
abbrev SameDay : SessionBody → Progress → Type 0
SameDay s p = p.body.day ≡ s.day

settle-day : (p : Progress) → (settle p).day ≡ p.body.day
unfolding settle
settle-day p = ground arith

close_session-day :
    (env : SessionOrchestrator) (ans : Answers) (now : ℕ) (s : SessionBody)
    → (close_session env ans now s).body.day ≡ s.day
unfolding close_session closed reported
close_session-day env ans now s = ground arith

close_session-blocked :
    (env : SessionOrchestrator) (ans : Answers) (now : ℕ) (s : SessionBody)
    → s.entries_allowed ≡ false
    → (settle (close_session env ans now s)).entries_allowed ≡ false
unfolding close_session closed reported settle
close_session-blocked env ans now s h = ground arith

unblockable :
    (a b : SessionBody) → some a ≡ some b → a.entries_allowed ≡ false → b.entries_allowed ≡ false
unblockable a b e h =
    let same : a ≡ b = cc in subst (λ (x : SessionBody). x.entries_allowed ≡ false) same h

-- a session that stops the loop allows no entries
abbrev pub StopsBlocked : Reconciled → Type 0
StopsBlocked r = (s : SessionBody) → r.stopped ≡ some s → s.entries_allowed ≡ false

abbrev pub SameRow : ℕ → Table → Reconciled → Type 0
SameRow today table r = find_row today r.table ≡ find_row today table

-- The loop over earlier days allows no entries, and leaves today's row and the keys alone.
pub record IsClean (P : Type 0) (today : ℕ) (table : Table) (t : Tick Reconciled) : Type 0 where
  pub calls_clean : All (EntersOnlyIf P) t.calls
  pub same_row : Returning (SameRow today table) t.outcome
  pub keyed : Returning (λ r. IsKeyed r.table) t.outcome
  pub stops_blocked : Returning StopsBlocked t.outcome

module _ (env : SessionOrchestrator) (ans : Answers) (now : ℕ) (P : Type 0) (today : ℕ) where
  reconcile_loaded-IsClean :
      (next : Table → List BackendCall → Tick Reconciled) (table : Table) (calls : List BackendCall)
      (a : Outcome Failure SessionBody)
      → ((t : Table) (cs : List BackendCall)
          → IsKeyed t
          → All (EntersOnlyIf P) cs
          → IsClean P today t (next t cs))
      → ((s : SessionBody) → a ≡ ok s → s.day ≢ today)
      → IsKeyed table
      → All (EntersOnlyIf P) calls
      → IsClean P today table (reconcile_loaded env ans now next table calls a)
  unfolding reconcile_loaded advance_close
  reconcile_loaded-IsClean next table calls (err e) step other h k = record {
    calls_clean = k;
    same_row = tt;
    keyed = tt;
    stops_blocked = tt;
  }
  reconcile_loaded-IsClean next table calls (ok s) step other h k =
      let p = close_session env ans now (record s { entries_allowed = false }) in
      let safe = close_session-IsSafe env ans now P (record s { entries_allowed = false }) refl in
      let day : (settle p).day ≡ s.day = settle-day p ∙ close_session-day env ans now _ in
      let row : find_row today (save env (settle p) table) ≡ find_row today table =
        find_row-save_ne env (settle p) today table (λ e. other s refl (sym day ∙ e)) in
      let keys = save-IsKeyed env (settle p) table h in
      let clean = All-append (EntersOnlyIf P) calls p.calls k safe.calls_safe in
      if-intro (IsClean P today table) (is_complete (settle p).state) _ _
        (λ _.
          let later = step (save env (settle p) table) (calls ++ p.calls) keys clean in
          record {
            calls_clean = later.calls_clean;
            same_row =
                Returning-map (SameRow today (save env (settle p) table)) (SameRow today table)
                  (next (save env (settle p) table) (calls ++ p.calls)).outcome (λ r e. e ∙ row)
                  later.same_row;
            keyed = later.keyed;
            stops_blocked = later.stops_blocked;
          })
        (λ _. record {
          calls_clean = clean;
          same_row = row;
          keyed = keys;
          stops_blocked = λ s' e.
              unblockable (settle p) s' e
                (close_session-blocked env ans now (record s { entries_allowed = false }) refl);
        })

  -- Every row of the loop is of an earlier day.
  pub reconcile-IsClean :
      (rows : List SessionRow) (table : Table) (calls : List BackendCall)
      → All (λ (r : SessionRow). r.day < today) rows
      → IsKeyed table
      → All (EntersOnlyIf P) calls
      → IsClean P today table (reconcile env ans now rows table calls)
  unfolding reconcile
  reconcile-IsClean [] table calls old h k = record {
    calls_clean = k;
    same_row = refl;
    keyed = h;
    stops_blocked = λ s e. cc;
  }
  reconcile-IsClean (r ∷ rest) table calls old h k =
      if-intro (IsClean P today table) (is_complete r.body.state) _ _
        (λ _. reconcile-IsClean rest table calls old.1 h k)
        (λ _.
          reconcile_loaded-IsClean _ table calls (load env table r.day)
            (λ t cs h' k'. reconcile-IsClean rest t cs old.1 h' k')
            (λ s e same. absurd (omega (arith, old.0, load-day env table r.day s h e))) h k)

pub earlier_days :
    (env : SessionOrchestrator) (ans : Answers) (now day : ℕ) (table : Table)
    → All (λ (r : SessionRow). r.day < day) (earlier env ans now day table)
unfolding earlier
earlier_days env ans now day [] = tt
earlier_days env ans now day (r ∷ rest) = elim (Bool-cases (ltb r.day day)) [
  | inl before ↦ rw before (ground arith, earlier_days env ans now day rest)
  | inr late ↦ rw late (earlier_days env ans now day rest)
]
