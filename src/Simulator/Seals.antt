-- ===== src/Simulator/Seals.antt =====
-- Every stored row verifies, and the clock only moves forward.
use kiwi_t.Prelude.{
  ℕ, ◌≤◌, String, ◌≡◌, refl, false, not, Option, none, some, List, [], ◌∷◌, arith, Outcome, ok, err,
  ◌>>=◌, ◌>>◌, raise_if, raise_if_ok, Returning, Returning-bind, Returning-then, str_eq, ◌==◌,
  ==_iff, All, All-append,
}
use kiwi_t.Calendar.{TradingCalendar}
use kiwi_t.Simulator.Types.{
  FillRules, State, Failure, conflicting_event_retry, event_identity_required,
  events_not_chronological,
}
use kiwi_t.Simulator.Store.{
  Codec, Database, EventRow, Reply, Request, verified_state, verified_reply, state_row,
  record_event, event, lookup, is_late, stored_state,
}
use kiwi_t.Simulator.Methods.{
  Call, submit_call, cancel_call, end_session_call, on_quote_call, checked_order, check_quote,
  add_order, cancel_order, end_orders, apply_quote, call, committed, run,
}

-- the clock after a change is not before the clock that it found
abbrev pub NotBefore : Option ℕ → Option ℕ → Type 0
NotBefore none new = Unit
NotBefore (some old) none = ⊥
NotBefore (some old) (some new) = old ≤ new

NotBefore-refl : (o : Option ℕ) → NotBefore o o
NotBefore-refl none = tt
NotBefore-refl (some n) = omega arith

NotBefore-trans : (a b c : Option ℕ) → NotBefore a b → NotBefore b c → NotBefore a c
NotBefore-trans none b c h k = tt
NotBefore-trans (some a) none c h k = absurd h
NotBefore-trans (some a) (some b) none h k = k
NotBefore-trans (some a) (some b) (some c) h k = omega arith

NotBefore-of_late : (o : Option ℕ) (now : ℕ) → is_late o now ≡ false → NotBefore o (some now)
unfolding is_late
NotBefore-of_late none now h = tt
NotBefore-of_late (some n) now h = ground arith

module _ (c : Codec) where
  abbrev pub RowVerifies : String × EventRow → Type 0
  RowVerifies e = c.hash_reply e.1.result ≡ e.1.digest

  pub record IsSealed (db : Database) : Type 0 where
    pub state_verifies : c.hash_state db.state.payload ≡ db.state.digest
    pub rows_verify : All RowVerifies db.events

  -- what a call may do to a sealed database
  pub record Extends (db db' : Database) : Type 0 where
    pub is_sealed : IsSealed db'
    pub clock : NotBefore db.state.payload.clock db'.state.payload.clock

  same-Extends : (db : Database) → IsSealed db → Extends db db
  same-Extends db h = record { is_sealed = h; clock = NotBefore-refl db.state.payload.clock }

  pub verified_state-sealed :
      (db : Database) → IsSealed db → verified_state c db.state ≡ ok db.state.payload
  unfolding verified_state
  verified_state-sealed db h = rw ((==_iff _ _).1 h.state_verifies)

  record_event-Extends :
      (id : String) (now : ℕ) (q : Request) (f : State → Outcome Failure (Reply × State))
      (db : Database)
      → IsSealed db
      → Returning (λ p. Extends db p.1) (record_event c id now q f db)
  unfolding record_event state_row stored_state
  record_event-Extends id now q f db h = rw (verified_state-sealed db h) (
      Returning-then (λ p. Extends db p.1)
        (raise_if (is_late db.state.payload.clock now) events_not_chronological) _
        (λ late.
          Returning-bind (λ p. Extends db p.1) (f db.state.payload) _
            (λ p e. record {
              is_sealed = record {
                state_verifies = refl;
                rows_verify = All-append RowVerifies db.events _ h.rows_verify (refl, tt);
              };
              clock = NotBefore-of_late _ now (raise_if_ok _ _ late);
            })))

  pub event-Extends :
      (id : String) (now : ℕ) (q : Request) (f : State → Outcome Failure (Reply × State))
      (db : Database)
      → IsSealed db
      → Returning (λ p. Extends db p.1) (event c id now q f db)
  unfolding event
  event-Extends id now q f db h =
      Returning-then (λ p. Extends db p.1) (raise_if (str_eq id "") event_identity_required) _
        (λ _. at_lookup (lookup id db.events))
    where
      at_lookup :
          (found : Option EventRow)
          → Returning
              (λ p. Extends db p.1)
              (elim found [
                | some old ↦
                    raise_if (not (old.request == c.json q)) conflicting_event_retry
                    >> (verified_reply c old >>= λ reply. ok (reply, db))
                | none ↦ record_event c id now q f db
              ])
      at_lookup none = record_event-Extends id now q f db h
      at_lookup (some old) =
          Returning-then (λ p. Extends db p.1)
            (raise_if (not (old.request == c.json q)) conflicting_event_retry) _
            (λ _.
              Returning-bind (λ p. Extends db p.1) (verified_reply c old) _
                (λ reply _. same-Extends db h))

module _ (c : Codec) (calendar : TradingCalendar) (r : FillRules) where
  pub call-Extends :
      (x : Call) (db : Database)
      → IsSealed c db
      → Returning (λ p. Extends c db p.1) (call c calendar r x db)
  unfolding call
  call-Extends (submit_call p risk at) db h =
      Returning-bind (λ p. Extends c db p.1) (checked_order calendar p risk at) _
        (λ o e. event-Extends c _ at _ (add_order o) db h)
  call-Extends (cancel_call id at) db h = event-Extends c _ at _ (cancel_order id) db h
  call-Extends (end_session_call at) db h = event-Extends c _ at _ (end_orders at) db h
  call-Extends (on_quote_call id q now) db h =
      Returning-then (λ p. Extends c db p.1) (check_quote r q now) _
        (λ e. event-Extends c id now _ (apply_quote r q now) db h)

  committed-Extends :
      (db : Database) (x : Outcome Failure (Reply × Database))
      → IsSealed c db
      → Returning (λ p. Extends c db p.1) x
      → Extends c db (committed db x)
  committed-Extends db (ok p) h k = k
  committed-Extends db (err e) h k = same-Extends c db h

  -- Over any calls the rows keep verifying and the clock does not move back.
  pub run-Extends :
      (xs : List Call) (db : Database) → IsSealed c db → Extends c db (run c calendar r xs db)
  unfolding run
  run-Extends [] db h = same-Extends c db h
  run-Extends (x ∷ rest) db h =
      let first = committed-Extends db (call c calendar r x db) h (call-Extends x db h) in
      let later = run-Extends rest (committed db (call c calendar r x db)) first.is_sealed in
      record {
        is_sealed = later.is_sealed;
        clock = NotBefore-trans db.state.payload.clock _ _ first.clock later.clock;
      }
