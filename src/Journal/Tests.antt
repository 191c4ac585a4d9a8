-- ===== src/Journal/Tests.antt =====
-- A decision, an event, and a later event.
use kiwi_t.Prelude.{
  ℕ, ◌≡◌, refl, String, true, false, none, some, List, [], ◌∷◌, ok, err, ◌>>=◌, arith,
}
use kiwi_t.Market.Candles.{MarketInstrument, ordered_candles, place_all}
use kiwi_t.Prelude.Queries.{select, select_all, insert_row, sort_rows}
use kiwi_t.Journal.Store.{
  DecisionEvidence, Codec, JournalState, candidate_required, no_decision, is_action,
  checked_evidence, verified, decision_payload, put_decision, record_decision, verified_events,
  verified_labels, read,
}
use kiwi_t.Journal.Events.{
  Event, checked_fills, checked_execution, checked_event, is_orphan, put_event, append_event, Write,
  deciding, appending, write, write_all,
}
use kiwi_t.Journal.Reading.{read-write_all}
use kiwi_t.Journal.RoundTrip.{record_decision-read}

abbrev codec : Codec
codec = record {
  digest = λ text. text;
  input_digest = λ bars. "none";
  provenance = λ bars at. some "";
  encode = λ d bars references. d.action;
  is_text_before = λ a b. false;
}

abbrev encode_event : Event → String
encode_event e = e.details.content

abbrev instrument : MarketInstrument
instrument = record {
  symbol = "TCS";
  exchange = "NSE";
  segment = "CASH";
  series = "EQ";
  isin = none;
}

abbrev evidence : DecisionEvidence
evidence = record {
  decision_id = "d1";
  features = record {
    instrument = instrument;
    as_of = 10;
    ready = true;
    input_digest = "none";
    content = "";
  };
  market = [];
  action = "NO_TRADE";
  reason_codes = "LOW_SCORE" ∷ [];
  models = [];
  candidate = none;
  llm = none;
  risk_checks = none;
}

abbrev event_at : String → ℕ → Event
event_at id t = record {
  decision_id = "d1";
  event_id = id;
  at = t;
  kind = "execution";
  details = record {
    mode = some "PAPER";
    is_complete = true;
    fills =
        (record { is_complete = true; at = t; side = "BUY"; price = 100; quantity = 1; fees = 0 })
        ∷ [];
    content = id;
  };
}

abbrev empty_journal : JournalState
empty_journal = record { decisions = []; events = []; labels = [] }

abbrev journal : JournalState
journal =
    write_all codec encode_event (deciding evidence ∷ appending (event_at "e1" 20) ∷ [])
      empty_journal

test_read :
    read codec "d1" 30 journal
    ≡ ok (record { decision = "NO_TRADE"; events = "e1" ∷ []; outcomes = [] })
unfolding write_all write record_decision decision_payload checked_evidence is_action
    ordered_candles place_all put_decision append_event checked_event checked_execution
    checked_fills is_orphan put_event select select_all insert_row sort_rows verified
    verified_events verified_labels read
test_read = refl

-- A trade needs a candidate.
test_candidate :
    record_decision codec (record evidence { action = "TRADE" }) empty_journal
    ≡ err candidate_required
unfolding record_decision decision_payload checked_evidence is_action
test_candidate = refl

-- An event needs a decision that is not later.
test_orphan : append_event codec encode_event (event_at "e1" 5) journal ≡ err no_decision
unfolding write_all write record_decision decision_payload checked_evidence is_action
    ordered_candles place_all put_decision append_event checked_event checked_execution
    checked_fills is_orphan put_event select verified
test_orphan = refl

abbrev later : List Write
later =
    appending (event_at "e2" 40)
    ∷ deciding (record evidence { features = record evidence.features { as_of = 50 } })
    ∷ []

read-write_all_example :
    read codec "d1" 30 (write_all codec encode_event later journal) ≡ read codec "d1" 30 journal
read-write_all_example =
    read-write_all codec encode_event "d1" 30 later journal (omega arith, (omega arith, tt))

test_payload : decision_payload codec evidence ≡ ok "NO_TRADE"
unfolding decision_payload checked_evidence is_action ordered_candles place_all
test_payload = refl

record_decision-read_example :
    (record_decision codec evidence empty_journal >>= read codec "d1" 30)
    ≡ ok (record { decision = "NO_TRADE"; events = []; outcomes = [] })
unfolding select select_all
record_decision-read_example =
    record_decision-read codec evidence empty_journal "NO_TRADE" 30 test_payload refl (omega arith)
      refl refl
