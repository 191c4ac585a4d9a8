-- ===== src/Simulator/Retry.antt =====
-- Events are applied once: what a retry returns, and that stored rows carry their digests.
use kiwi_t.Prelude.{
  ℕ, String, ◌≡◌, ◌≢◌, refl, inl, inr, false, not, Option, none, some, List, [], ◌∷◌, ◌++◌, arith,
  Outcome, ok, err, ◌>>=◌, ◌>>◌, raise_if, raise_if_ok, Returning, Returning-bind, Returning-then,
  Returning-eq, Bool-cases, str_eq, eq_iff, ◌==◌, ==_iff, ==_ne, Outcome-cases,
}
use kiwi_t.Calendar.{TradingCalendar}
use kiwi_t.Simulator.Types.{
  FillRules, State, Failure, conflicting_event_retry, event_identity_required,
  events_not_chronological,
}
use kiwi_t.Simulator.Methods.{
  Call, submit_call, cancel_call, end_session_call, on_quote_call, checked_order, check_quote,
  add_order, cancel_order, end_orders, apply_quote, call,
}
use kiwi_t.Simulator.Store.{
  Codec, Database, EventRow, Reply, Request, verified_state, verified_reply, record_event, event,
  lookup, is_late,
}

pub lookup-append_new :
    (k : String) (row : EventRow) (rows : List (String × EventRow))
    → lookup k rows ≡ none
    → lookup k (rows ++ (k, row) ∷ []) ≡ some row
unfolding lookup
lookup-append_new k row [] h = rw ((eq_iff k k).1 refl)
lookup-append_new k row ((j, x) ∷ rest) h = elim (Bool-cases (str_eq j k)) [
  | inl same ↦ cc
  | inr other ↦ rw other (lookup-append_new k row rest (rw other at h))
]

module _ (c : Codec) where
  -- The log holds the event with its request and a result that verifies.
  pub record IsLogged (id : String) (q : Request) (reply : Reply) (db : Database) : Type 0 where
    pub row : EventRow
    pub found : lookup id db.events ≡ some row
    pub same_request : row.request ≡ c.json q
    pub returned : verified_reply c row ≡ ok reply

  event_logged :
      (id : String) (now : ℕ) (q : Request) (f : State → Outcome Failure (Reply × State))
      (db : Database) (reply : Reply)
      → str_eq id "" ≡ false
      → IsLogged id q reply db
      → event c id now q f db ≡ ok (reply, db)
  unfolding event
  event_logged id now q f db reply named logged =
      rw (named, logged.found) (rw ((==_iff _ _).1 logged.same_request, logged.returned))

  verified_reply-new :
      (q : Request) (reply : Reply)
      → verified_reply c
          (record { request = c.json q; result = reply; digest = c.hash_reply reply })
        ≡ ok reply
  unfolding verified_reply
  verified_reply-new q reply = rw ((==_iff (c.hash_reply reply) (c.hash_reply reply)).1 refl)

  abbrev Logs : String → Request → Reply × Database → Type 0
  Logs id q p = (str_eq id "" ≡ false) × IsLogged id q p.0 p.1

  record_event-Logs :
      (id : String) (now : ℕ) (q : Request) (f : State → Outcome Failure (Reply × State))
      (db : Database)
      → str_eq id "" ≡ false
      → lookup id db.events ≡ none
      → Returning (Logs id q) (record_event c id now q f db)
  unfolding record_event
  record_event-Logs id now q f db named new =
      Returning-bind (Logs id q) (verified_state c db.state) _ (λ s e.
        Returning-then (Logs id q) (raise_if (is_late s.clock now) events_not_chronological) _ (λ _.
          Returning-bind (Logs id q) (f s) _ (λ p e'. (
            named,
            record {
              row = record { request = c.json q; result = p.0; digest = c.hash_reply p.0 };
              found = lookup-append_new id _ db.events new;
              same_request = refl;
              returned = verified_reply-new q p.0;
            },
          ))))

  pub event-Logs :
      (id : String) (now : ℕ) (q : Request) (f : State → Outcome Failure (Reply × State))
      (db : Database)
      → Returning (Logs id q) (event c id now q f db)
  unfolding event
  event-Logs id now q f db =
      Returning-then (Logs id q) (raise_if (str_eq id "") event_identity_required) _
        (λ named. at_lookup (raise_if_ok _ _ named) (lookup id db.events) refl)
    where
      at_lookup :
          str_eq id "" ≡ false
          → (found : Option EventRow) → lookup id db.events ≡ found
          → Returning (Logs id q) (elim found [
            | some old ↦
                raise_if (not (old.request == c.json q)) conflicting_event_retry
                >> (verified_reply c old >>= λ reply. ok (reply, db))
            | none ↦ record_event c id now q f db
          ])
      at_lookup named none e = record_event-Logs id now q f db named e
      at_lookup named (some old) e =
          Returning-then (Logs id q)
            (raise_if (not (old.request == c.json q)) conflicting_event_retry) _
            (λ same. Returning-bind (Logs id q) (verified_reply c old) _ (λ reply v. (
              named,
              record {
                row = old;
                found = e;
                same_request = ground (arith, raise_if_ok _ _ same);
                returned = v;
              },
            )))

  -- The same event again has the same result, and leaves the database as it is.
  pub event-retry :
      (id : String) (now : ℕ) (q : Request) (f : State → Outcome Failure (Reply × State))
      (db db' : Database) (reply : Reply)
      → event c id now q f db ≡ ok (reply, db')
      → event c id now q f db' ≡ ok (reply, db')
  event-retry id now q f db db' reply e =
      let (named, logged) = Returning-eq (Logs id q) _ (event-Logs id now q f db) e in
      event_logged id now q f db' reply named logged

  -- An identity that is taken refuses another request.
  pub event-conflict :
      (id : String) (now : ℕ) (q : Request) (f : State → Outcome Failure (Reply × State))
      (db : Database) (row : EventRow)
      → str_eq id "" ≡ false
      → lookup id db.events ≡ some row
      → row.request ≢ c.json q
      → event c id now q f db ≡ err conflicting_event_retry
  unfolding event
  event-conflict id now q f db row named found other = rw (named, found) (rw (==_ne _ _ other))

module _ (c : Codec) (calendar : TradingCalendar) (r : FillRules) where
  -- A call that returned returns the same again, and changes nothing.
  pub call_twice :
      (x : Call) (db db' : Database) (reply : Reply)
      → call c calendar r x db ≡ ok (reply, db')
      → call c calendar r x db' ≡ ok (reply, db')
  unfolding call
  call_twice (submit_call p risk at) db db' reply e =
      elim (Outcome-cases (checked_order calendar p risk at)) [
        | inl (o, k) ↦ rw k (event-retry c _ at _ (add_order o) db db' reply (rw k at e))
        | inr (x, k) ↦ cc
      ]
  call_twice (cancel_call id at) db db' reply e =
      event-retry c _ at _ (cancel_order id) db db' reply e
  call_twice (end_session_call at) db db' reply e =
      event-retry c _ at _ (end_orders at) db db' reply e
  call_twice (on_quote_call id q now) db db' reply e = elim (Outcome-cases (check_quote r q now)) [
    | inl (tt, k) ↦ rw k (event-retry c id now _ (apply_quote r q now) db db' reply (rw k at e))
    | inr (x, k) ↦ cc
  ]
