-- ===== src/Journal/Store.antt =====
-- `record` and `read` of `DecisionJournal` of src/kiwit/decision_journal.py. Redaction, JSON, the digests,
-- the provenance of candles and the order of texts are a parameter, the record `Codec`. A payload is its
-- text, before it is parsed. A new row stands in front of its table.
use kiwi_t.Prelude.{
  ℕ, String, Bool, true, false, not, ◌&&◌, ◌||◌, leb, ltb, ◌==◌, Option, none, some, List, [], ◌∷◌,
  any, is_nonempty, Outcome, ok, err, ◌>>=◌, ◌>>◌, raise_if, or_raise, str_eq,
}
use kiwi_t.Prelude.Queries.{select, select_all, sort_rows}
use kiwi_t.Market.Candles.{
  MarketInstrument, market_instrument_eq, Candle, MarketFailure, ordered_candles,
}

-- the fields of `FeatureSnapshot` that are read
pub record Features : Type 0 where
  pub instrument : MarketInstrument
  pub as_of : ℕ
  pub ready : Bool
  pub input_digest : String
  pub content : String

pub record ModelEvidence : Type 0 where
  pub version : String
  pub has_scores : Bool
  pub content : String

-- Evidence of a language model, and whether it has the four keys.
pub record LlmEvidence : Type 0 where
  pub is_complete : Bool
  pub content : String

-- the arguments of `record`
pub record DecisionEvidence : Type 0 where
  pub decision_id : String
  pub features : Features
  pub market : List Candle
  pub action : String
  pub reason_codes : List String
  pub models : List ModelEvidence
  pub candidate : Option String
  pub llm : Option LlmEvidence
  pub risk_checks : Option String

pub data JournalFailure : Type 0 where
  identity_required reasons_required candidate_required models_required llm_incomplete
        invalid_market future_input snapshot_mismatch no_provenance checksum_mismatch
        different_evidence invalid_event not_paper execution_incomplete invalid_fill_time
        invalid_fill_amount no_decision unavailable :
      JournalFailure

pub record Codec : Type 0 where
  pub digest : String → String
  pub input_digest : List Candle → String
  pub provenance : List Candle → ℕ → Option String
  pub encode : DecisionEvidence → List Candle → String → String
  pub is_text_before : String → String → Bool

pub record DecisionRow : Type 0 where
  pub decision_id : String
  pub at : ℕ
  pub payload : String
  pub digest : String

pub record EventRow : Type 0 where
  pub decision_id : String
  pub event_id : String
  pub at : ℕ
  pub payload : String
  pub digest : String

pub record LabelRow : Type 0 where
  pub decision_id : String
  pub horizon : ℕ
  pub available : ℕ
  pub payload : String
  pub digest : String

pub record JournalState : Type 0 where
  pub decisions : List DecisionRow
  pub events : List EventRow
  pub labels : List LabelRow

unfoldable pub is_action : String → Bool
is_action a = str_eq a "TRADE" || (str_eq a "NO_TRADE" || (str_eq a "REJECT" || str_eq a "REVIEW"))

abbrev is_absent : {A : Type 0} → Option A → Bool
is_absent none = true
is_absent (some a) = false

abbrev is_incomplete : Option LlmEvidence → Bool
is_incomplete none = false
is_incomplete (some e) = not e.is_complete

-- the tests of `record` before the candles
unfoldable pub checked_evidence : DecisionEvidence → Outcome JournalFailure (Unit {0})
checked_evidence d = do
  raise_if (str_eq d.decision_id "" || not (is_action d.action)) identity_required
  raise_if (not (is_nonempty d.reason_codes) || any (λ (r : String). str_eq r "") d.reason_codes)
      reasons_required
  raise_if
      ((str_eq d.action "TRADE" || str_eq d.action "REVIEW")
        && (not d.features.ready || is_absent d.candidate))
      candidate_required
  raise_if (any (λ (m : ModelEvidence). str_eq m.version "" || not m.has_scores) d.models)
      models_required
  raise_if (is_incomplete d.llm) llm_incomplete

-- `ordered_candles(market)`, whose error is a ValueError as well
abbrev ordered_market : Outcome MarketFailure (List Candle) → Outcome JournalFailure (List Candle)
ordered_market (ok bars) = ok bars
ordered_market (err e) = err invalid_market

-- what `read` returns
pub record Reading : Type 0 where
  pub decision : String
  pub events : List String
  pub outcomes : List String

module _ (k : Codec) where
  -- `_verified`
  unfoldable pub verified : String → String → Outcome JournalFailure String
  verified payload digest =
      raise_if (not (str_eq (k.digest payload) digest)) checksum_mismatch >> ok payload

  -- the payload of `record`
  unfoldable pub decision_payload : DecisionEvidence → Outcome JournalFailure String
  decision_payload d = do
    checked_evidence d
    bars ← ordered_market (ordered_candles d.market)
    raise_if
        (any
          (λ (c : Candle).
            not (market_instrument_eq c.instrument d.features.instrument)
            || ltb d.features.as_of c.closed_at)
          bars)
        future_input
    raise_if (not (str_eq (k.input_digest bars) d.features.input_digest)) snapshot_mismatch
    references ← or_raise (k.provenance bars d.features.as_of) no_provenance
    ok (k.encode d bars references)

  -- the transaction of `record`, on the row that is there
  unfoldable pub put_decision :
      DecisionEvidence
      → String
      → JournalState
      → Option DecisionRow
      → Outcome JournalFailure JournalState
  put_decision d encoded s (some old) = do
    _ ← verified old.payload old.digest
    raise_if (not (str_eq old.payload encoded)) different_evidence
    ok s
  put_decision d encoded s none = ok (record s {
    decisions =
        (record {
          decision_id = d.decision_id;
          at = d.features.as_of;
          payload = encoded;
          digest = k.digest encoded;
        })
        ∷ s.decisions;
  })

  -- `record`
  unfoldable pub record_decision :
      DecisionEvidence → JournalState → Outcome JournalFailure JournalState
  record_decision d s = do
    encoded ← decision_payload d
    put_decision d encoded s
        (select (λ (r : DecisionRow). str_eq r.decision_id d.decision_id) s.decisions)

  -- the order of the events that are read
  abbrev pub is_event_before : EventRow → EventRow → Bool
  is_event_before a b = ltb a.at b.at || (a.at == b.at && k.is_text_before a.event_id b.event_id)

  unfoldable pub verified_events : List EventRow → Outcome JournalFailure (List String)
  verified_events [] = ok []
  verified_events (r ∷ rest) = do
    here ← verified r.payload r.digest
    later ← verified_events rest
    ok (here ∷ later)

  unfoldable pub verified_labels : List LabelRow → Outcome JournalFailure (List String)
  verified_labels [] = ok []
  verified_labels (r ∷ rest) = do
    here ← verified r.payload r.digest
    later ← verified_labels rest
    ok (here ∷ later)

  -- `read` at a point of time
  unfoldable pub read : String → ℕ → JournalState → Outcome JournalFailure Reading
  read id cutoff s = do
    row ←
        or_raise
          (select (λ (r : DecisionRow). str_eq r.decision_id id && leb r.at cutoff) s.decisions)
          unavailable
    decision ← verified row.payload row.digest
    events ← verified_events (
        sort_rows is_event_before
          (select_all (λ (r : EventRow). str_eq r.decision_id id && leb r.at cutoff) s.events))
    outcomes ← verified_labels (
        sort_rows (λ (a b : LabelRow). ltb a.horizon b.horizon)
          (select_all (λ (r : LabelRow). str_eq r.decision_id id && leb r.available cutoff)
            s.labels))
    ok (record { decision = decision; events = events; outcomes = outcomes })
