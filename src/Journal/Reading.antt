-- ===== src/Journal/Reading.antt =====
-- What is read of the journal of src/kiwit/decision_journal.py at a point of time.
use kiwi_t.Prelude.{
  ℕ, ◌<◌, ◌≡◌, refl, ◌∙◌, String, Bool, true, false, not, ◌&&◌, leb, Option, none, some, List, [],
  ◌∷◌, All, Outcome, ok, err, raise_if, str_eq, arith, Returning, Returning-bind, Returning-then,
}
use kiwi_t.Prelude.Queries.{select, select_all}
use kiwi_t.Journal.Store.{
  DecisionEvidence, JournalFailure, different_evidence, no_decision, Codec, DecisionRow, EventRow,
  JournalState, verified, decision_payload, put_decision, record_decision, read,
}
use kiwi_t.Journal.Events.{
  Event, checked_event, is_orphan, put_event, append_event, Write, deciding, appending, stamp,
  write, written, write_all,
}

-- Two journals of which the same is read at a point of time.
record Agrees (cutoff : ℕ) (s s' : JournalState) : Type 0 where
  decisions :
      (id : String)
      → select (λ (r : DecisionRow). str_eq r.decision_id id && leb r.at cutoff) s'.decisions
        ≡ select (λ (r : DecisionRow). str_eq r.decision_id id && leb r.at cutoff) s.decisions
  events :
      (id : String)
      → select_all (λ (r : EventRow). str_eq r.decision_id id && leb r.at cutoff) s'.events
        ≡ select_all (λ (r : EventRow). str_eq r.decision_id id && leb r.at cutoff) s.events
  labels : s'.labels ≡ s.labels

Agrees-refl : (cutoff : ℕ) (s : JournalState) → Agrees cutoff s s
Agrees-refl cutoff s = record { decisions = λ id. refl; events = λ id. refl; labels = refl }

Agrees-trans :
    (cutoff : ℕ) (s t u : JournalState) → Agrees cutoff s t → Agrees cutoff t u → Agrees cutoff s u
Agrees-trans cutoff s t u h k = record {
  decisions = λ id. k.decisions id ∙ h.decisions id;
  events = λ id. k.events id ∙ h.events id;
  labels = k.labels ∙ h.labels;
}

read-Agrees :
    (k : Codec) (id : String) (cutoff : ℕ) (s s' : JournalState)
    → Agrees cutoff s s'
    → read k id cutoff s' ≡ read k id cutoff s
unfolding read
read-Agrees k id cutoff s s' h = rw h.labels (rw (h.decisions id) (rw (h.events id) refl))

-- a row of a later time is not selected
late : (b : Bool) (at cutoff : ℕ) → cutoff < at → b && leb at cutoff ≡ false
late true at cutoff h = ground arith
late false at cutoff h = refl

put_decision-Agrees :
    (k : Codec) (cutoff : ℕ) (d : DecisionEvidence) (encoded : String) (s : JournalState)
    (old : Option DecisionRow)
    → cutoff < d.features.as_of
    → Returning (Agrees cutoff s) (put_decision k d encoded s old)
unfolding put_decision select
put_decision-Agrees k cutoff d encoded s none h = record {
  decisions = λ id. rw (late (str_eq d.decision_id id) d.features.as_of cutoff h) refl;
  events = λ id. refl;
  labels = refl;
}
put_decision-Agrees k cutoff d encoded s (some old) h =
    Returning-bind (Agrees cutoff s) (verified k old.payload old.digest) _ (λ _ _.
      Returning-then (Agrees cutoff s)
        (raise_if (not (str_eq old.payload encoded)) different_evidence) (ok s)
        (λ _. Agrees-refl cutoff s))

put_event-Agrees :
    (k : Codec) (encode : Event → String) (cutoff : ℕ) (e : Event) (encoded : String)
    (s : JournalState) (old : Option EventRow)
    → cutoff < e.at
    → Returning (Agrees cutoff s) (put_event k encode e encoded s old)
unfolding put_event select_all
put_event-Agrees k encode cutoff e encoded s none h = record {
  decisions = λ id. refl;
  events = λ id. rw (late (str_eq e.decision_id id) e.at cutoff h) refl;
  labels = refl;
}
put_event-Agrees k encode cutoff e encoded s (some old) h =
    Returning-bind (Agrees cutoff s) (verified k old.payload old.digest) _ (λ _ _.
      Returning-then (Agrees cutoff s)
        (raise_if (not (str_eq old.payload encoded)) different_evidence) (ok s)
        (λ _. Agrees-refl cutoff s))

write-Agrees :
    (k : Codec) (encode : Event → String) (cutoff : ℕ) (w : Write) (s : JournalState)
    → cutoff < stamp w
    → Returning (Agrees cutoff s) (write k encode w s)
unfolding write record_decision append_event
write-Agrees k encode cutoff (deciding d) s h =
    Returning-bind (Agrees cutoff s) (decision_payload k d) _
      (λ encoded _. put_decision-Agrees k cutoff d encoded s _ h)
write-Agrees k encode cutoff (appending e) s h =
    Returning-then (Agrees cutoff s) (checked_event e) _ (λ _.
      Returning-then (Agrees cutoff s)
        (raise_if
          (is_orphan e.at
            (select (λ (r : DecisionRow). str_eq r.decision_id e.decision_id) s.decisions))
          no_decision)
        _ (λ _. put_event-Agrees k encode cutoff e (encode e) s _ h))

written-Agrees :
    (cutoff : ℕ) (s : JournalState) (r : Outcome JournalFailure JournalState)
    → Returning (Agrees cutoff s) r
    → Agrees cutoff s (written s r)
written-Agrees cutoff s (ok s') h = h
written-Agrees cutoff s (err e) h = Agrees-refl cutoff s

write_all-Agrees :
    (k : Codec) (encode : Event → String) (cutoff : ℕ) (ws : List Write) (s : JournalState)
    → All (λ w. cutoff < stamp w) ws
    → Agrees cutoff s (write_all k encode ws s)
unfolding write_all
write_all-Agrees k encode cutoff [] s h = Agrees-refl cutoff s
write_all-Agrees k encode cutoff (w ∷ rest) s h =
    let next = written s (write k encode w s) in
    Agrees-trans cutoff s next (write_all k encode rest next)
      (written-Agrees cutoff s (write k encode w s) (write-Agrees k encode cutoff w s h.0))
      (write_all-Agrees k encode cutoff rest next h.1)

-- What is read of a decision at a point of time, the failure included, stays the same under any later
-- decisions and events: those whose time is after that point.
pub read-write_all :
    (k : Codec) (encode : Event → String) (id : String) (cutoff : ℕ) (ws : List Write)
    (s : JournalState)
    → All (λ w. cutoff < stamp w) ws
    → read k id cutoff (write_all k encode ws s) ≡ read k id cutoff s
read-write_all k encode id cutoff ws s h =
    read-Agrees k id cutoff s (write_all k encode ws s) (write_all-Agrees k encode cutoff ws s h)
