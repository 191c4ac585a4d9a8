-- ===== src/Journal/RoundTrip.antt =====
-- What is read of a decision after it was recorded in the journal of src/kiwit/decision_journal.py.
use kiwi_t.Prelude.{
  ℕ, ◌≤◌, ◌≡◌, refl, String, true, ◌&&◌, leb, none, [], ok, ◌>>=◌, str_eq, eq_iff, arith,
}
use kiwi_t.Prelude.Queries.{select, select_all, sort_rows}
use kiwi_t.Journal.Store.{
  DecisionEvidence, Codec, DecisionRow, EventRow, LabelRow, JournalState, verified,
  decision_payload, put_decision, record_decision, verified_events, verified_labels, read,
}

-- a text is itself
same_text : (x : String) → str_eq x x ≡ true
same_text x = (eq_iff x x).1 refl

-- A decision with valid evidence that is not yet in the journal can be read from its own time on: recording
-- it and reading it gives the text that was encoded, and no events and no labels, if none are stored for it.
pub record_decision-read :
    (k : Codec) (d : DecisionEvidence) (s : JournalState) (encoded : String) (cutoff : ℕ)
    → decision_payload k d ≡ ok encoded
    → select (λ (r : DecisionRow). str_eq r.decision_id d.decision_id) s.decisions ≡ none
    → d.features.as_of ≤ cutoff
    → select_all (λ (r : EventRow). str_eq r.decision_id d.decision_id && leb r.at cutoff) s.events
      ≡ []
    → select_all
        (λ (r : LabelRow). str_eq r.decision_id d.decision_id && leb r.available cutoff)
        s.labels
      ≡ []
    → (record_decision k d s >>= read k d.decision_id cutoff)
      ≡ ok (record { decision = encoded; events = []; outcomes = [] })
unfolding record_decision put_decision read select verified verified_events verified_labels
    sort_rows
record_decision-read k d s encoded cutoff payload new timely quiet unlabelled =
    let seen : leb d.features.as_of cutoff ≡ true = ground (arith, timely) in
    rw payload (
      rw new (
        rw (same_text d.decision_id)
          (rw seen (rw (same_text (k.digest encoded)) (rw quiet (rw unlabelled refl))))))
