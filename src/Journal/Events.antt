-- ===== src/Journal/Events.antt =====
-- `append_event` of src/kiwit/decision_journal.py, and sequences of calls that write.
use kiwi_t.Prelude.{
  ℕ, String, Bool, true, false, not, ◌&&◌, ◌||◌, ltb, ◌==◌, Option, none, some, List, [], ◌∷◌,
  Outcome, ok, err, ◌>>=◌, ◌>>◌, raise_if, if◌then◌else◌, str_eq,
}
use kiwi_t.Prelude.Queries.{select}
use kiwi_t.Journal.Store.{
  DecisionEvidence, JournalFailure, invalid_event, not_paper, execution_incomplete,
  invalid_fill_time, invalid_fill_amount, no_decision, different_evidence, Codec, DecisionRow,
  EventRow, JournalState, verified, record_decision,
}

-- A fill of the evidence. Amounts that are not finite or negative are refused there and not represented
-- here.
pub record FillEvidence : Type 0 where
  pub is_complete : Bool
  pub at : ℕ
  pub side : String
  pub price : ℕ
  pub quantity : ℕ
  pub fees : ℕ

-- `details`, and whether the three keys of an execution are there
pub record Details : Type 0 where
  pub mode : Option String
  pub is_complete : Bool
  pub fills : List FillEvidence
  pub content : String

-- the arguments of `append_event`
pub record Event : Type 0 where
  pub decision_id : String
  pub event_id : String
  pub at : ℕ
  pub kind : String
  pub details : Details

-- the loop over the fills
unfoldable pub checked_fills : ℕ → List FillEvidence → Outcome JournalFailure (Unit {0})
checked_fills at [] = ok tt
checked_fills at (f ∷ rest) = do
  raise_if (not f.is_complete) execution_incomplete
  raise_if (ltb at f.at || not (str_eq f.side "BUY" || str_eq f.side "SELL")) invalid_fill_time
  raise_if (f.price == 0 || f.quantity == 0) invalid_fill_amount
  checked_fills at rest

abbrev is_paper_mode : Option String → Bool
is_paper_mode none = false
is_paper_mode (some m) = str_eq m "PAPER"

-- the tests on the evidence of an execution
unfoldable pub checked_execution : ℕ → Details → Outcome JournalFailure (Unit {0})
checked_execution at d = do
  raise_if (not (is_paper_mode d.mode)) not_paper
  raise_if (not d.is_complete) execution_incomplete
  checked_fills at d.fills

-- the tests of `append_event` before its transaction
unfoldable pub checked_event : Event → Outcome JournalFailure (Unit {0})
checked_event e =
    raise_if (not (str_eq e.kind "risk" || str_eq e.kind "execution") || str_eq e.event_id "")
      invalid_event
    >> (if str_eq e.kind "execution" then checked_execution e.at e.details else ok tt)

-- `decision is None or _micros(at) < decision[0]`
unfoldable pub is_orphan : ℕ → Option DecisionRow → Bool
is_orphan at none = true
is_orphan at (some r) = ltb at r.at

-- a call that writes
pub data Write : Type 0 where
  deciding : DecisionEvidence → Write
  appending : Event → Write

-- the time that a call writes under
abbrev pub stamp : Write → ℕ
stamp (deciding d) = d.features.as_of
stamp (appending e) = e.at

-- the journal after a call, of which one that raises changes nothing
abbrev pub written : JournalState → Outcome JournalFailure JournalState → JournalState
written s (ok s') = s'
written s (err e) = s

-- The codec, and the redacted JSON of an event.
module _ (k : Codec) (encode_event : Event → String) where
  -- the transaction of `append_event`, on the row that is there
  unfoldable pub put_event :
      Event → String → JournalState → Option EventRow → Outcome JournalFailure JournalState
  put_event e encoded s (some old) = do
    _ ← verified k old.payload old.digest
    raise_if (not (str_eq old.payload encoded)) different_evidence
    ok s
  put_event e encoded s none = ok (record s {
    events =
        (record {
          decision_id = e.decision_id;
          event_id = e.event_id;
          at = e.at;
          payload = encoded;
          digest = k.digest encoded;
        })
        ∷ s.events;
  })

  -- `append_event`
  unfoldable pub append_event : Event → JournalState → Outcome JournalFailure JournalState
  append_event e s = do
    checked_event e
    raise_if
        (is_orphan e.at
          (select (λ (r : DecisionRow). str_eq r.decision_id e.decision_id) s.decisions))
        no_decision
    put_event e (encode_event e) s (
        select
          (λ (r : EventRow). str_eq r.decision_id e.decision_id && str_eq r.event_id e.event_id)
          s.events)

  unfoldable pub write : Write → JournalState → Outcome JournalFailure JournalState
  write (deciding d) s = record_decision k d s
  write (appending e) s = append_event e s

  unfoldable pub write_all : List Write → JournalState → JournalState
  write_all [] s = s
  write_all (w ∷ rest) s = write_all rest (written s (write w s))
