-- ===== src/Simulator/Invariant.antt =====
-- From a predicate on states that every change keeps to every database that calls can reach.
use kiwi_t.Prelude.{
  ℕ, String, ◌≡◌, not, Option, none, some, List, [], ◌∷◌, arith, Outcome, ok, err, ◌>>=◌, ◌>>◌,
  raise_if, Returning, Returning-bind, Returning-then, Returning-eq, str_eq, ◌==◌, subst, sym,
}
use kiwi_t.Calendar.{TradingCalendar}
use kiwi_t.Simulator.Types.{
  FillRules, Quote, Order, State, Failure, event_identity_required, events_not_chronological,
  conflicting_event_retry,
}
use kiwi_t.Simulator.Store.{
  Codec, Database, StateRow, EventRow, Reply, Request, verified_state, verified_reply, state_row,
  stored_state, record_event, event, lookup, is_late,
}
use kiwi_t.Simulator.Methods.{
  TradeProposal, RiskDecision, Call, submit_call, cancel_call, end_session_call, on_quote_call,
  checked_order, check_quote, add_order, cancel_order, end_orders, apply_quote, call, committed,
  run,
}

-- What a call does to the payload of the database.
abbrev pub Holds : (State → Type 0) → Reply × Database → Type 0
Holds P p = P p.1.state.payload

abbrev pub HoldsState : (State → Type 0) → Reply × State → Type 0
HoldsState P p = P p.1

-- A predicate that every change of `PaperSimulator` keeps.
pub record IsKept (calendar : TradingCalendar) (r : FillRules) (P : State → Type 0) : Type 0 where
  pub at_stored : (s : State) (now : ℕ) → P s → P (stored_state now s)
  pub at_submit :
      (p : TradeProposal) (risk : RiskDecision) (at : ℕ) (o : Order) (s : State)
      → checked_order calendar p risk at ≡ ok o
      → P s
      → Returning (HoldsState P) (add_order o s)
  pub at_cancel : (id : String) (s : State) → P s → Returning (HoldsState P) (cancel_order id s)
  pub at_end : (at : ℕ) (s : State) → P s → Returning (HoldsState P) (end_orders at s)
  pub at_quote :
      (q : Quote) (now : ℕ) (s : State)
      → check_quote r q now ≡ ok tt
      → P s
      → Returning (HoldsState P) (apply_quote r q now s)

pub verified_state_ok :
    (c : Codec) (row : StateRow) {s : State} → verified_state c row ≡ ok s → s ≡ row.payload
unfolding verified_state
verified_state_ok c row h = ground arith

module _ (c : Codec) (P : State → Type 0)
    (stored : (s : State) (now : ℕ) → P s → P (stored_state now s)) where
  record_event-Holds :
      (id : String) (now : ℕ) (q : Request) (f : State → Outcome Failure (Reply × State))
      (db : Database)
      → ((s : State) → P s → Returning (HoldsState P) (f s))
      → P db.state.payload
      → Returning (Holds P) (record_event c id now q f db)
  unfolding record_event state_row
  record_event-Holds id now q f db keep h =
      Returning-bind (Holds P) (verified_state c db.state) _ (λ s e.
        Returning-then (Holds P) (raise_if (is_late s.clock now) events_not_chronological) _ (λ _.
          Returning-bind (Holds P) (f s) _ (λ p e'. stored p.1 now (
            Returning-eq (HoldsState P) (f s)
              (keep s (subst P (sym (verified_state_ok c db.state e)) h)) e'))))

  pub event-Holds :
      (id : String) (now : ℕ) (q : Request) (f : State → Outcome Failure (Reply × State))
      (db : Database)
      → ((s : State) → P s → Returning (HoldsState P) (f s))
      → P db.state.payload
      → Returning (Holds P) (event c id now q f db)
  unfolding event
  event-Holds id now q f db keep h =
      Returning-then (Holds P) (raise_if (str_eq id "") event_identity_required) _
        (λ _. at_lookup (lookup id db.events))
    where
      at_lookup :
          (found : Option EventRow)
          → Returning (Holds P) (elim found [
            | some old ↦
                raise_if (not (old.request == c.json q)) conflicting_event_retry
                >> (verified_reply c old >>= λ reply. ok (reply, db))
            | none ↦ record_event c id now q f db
          ])
      at_lookup none = record_event-Holds id now q f db keep h
      at_lookup (some old) =
          Returning-then (Holds P)
            (raise_if (not (old.request == c.json q)) conflicting_event_retry) _
            (λ _. Returning-bind (Holds P) (verified_reply c old) _ (λ reply _. h))

committed-Holds :
    (P : State → Type 0) (db : Database) (x : Outcome Failure (Reply × Database))
    → P db.state.payload
    → Returning (Holds P) x
    → P (committed db x).state.payload
committed-Holds P db (ok p) h k = k
committed-Holds P db (err e) h k = h

module _ (c : Codec) (calendar : TradingCalendar) (r : FillRules) (P : State → Type 0)
    (kept : IsKept calendar r P) where
  -- Every call keeps the predicate.
  pub call-Holds :
      (x : Call) (db : Database) → P db.state.payload → Returning (Holds P) (call c calendar r x db)
  unfolding call
  call-Holds (submit_call p risk at) db h =
      Returning-bind (Holds P) (checked_order calendar p risk at) _ (λ o e.
        event-Holds c P kept.at_stored _ at _ (add_order o) db
          (λ s k. kept.at_submit p risk at o s e k) h)
  call-Holds (cancel_call id at) db h =
      event-Holds c P kept.at_stored _ at _ (cancel_order id) db (kept.at_cancel id) h
  call-Holds (end_session_call at) db h =
      event-Holds c P kept.at_stored _ at _ (end_orders at) db (kept.at_end at) h
  call-Holds (on_quote_call id q now) db h = Returning-then (Holds P) (check_quote r q now) _ (λ e.
      event-Holds c P kept.at_stored id now _ (apply_quote r q now) db
        (λ s k. kept.at_quote q now s e k) h)

  -- After any calls, failing ones included, the predicate holds of what is stored.
  pub run-Holds :
      (xs : List Call) (db : Database)
      → P db.state.payload
      → P (run c calendar r xs db).state.payload
  unfolding run
  run-Holds [] db h = h
  run-Holds (x ∷ rest) db h =
      run-Holds rest (committed db (call c calendar r x db))
        (committed-Holds P db (call c calendar r x db) h (call-Holds x db h))
