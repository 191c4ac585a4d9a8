-- ===== src/Execution/Tests.antt =====
-- An order of ten that is filled in two parts, and a proposal that is executed twice.
use kiwi_t.Prelude.{ℕ, ◌≡◌, refl, true, String, some, Returning, List, [], ◌∷◌, ok, err}
use kiwi_t.Execution.Fills.{
  FillAccumulator, new_accumulator, get, sum_fills, status_of, accumulate, record_fill, after,
  record_all,
}
use kiwi_t.Simulator.Types.{Quote, Instrument, instrument_eq}
use kiwi_t.Simulator.Methods.{TradeProposal, RiskDecision, buy, approve}
use kiwi_t.Execution.Broker.{
  PaperBroker, PaperFill, BrokerFailure, contains, put_fill, fill_for, slipped_price, new_fill,
  add_fill, is_unapproved, execute, BrokerCall, execute_all,
}
use kiwi_t.Execution.Permanence.{Executed, execute-Executed, fill-stays}
use kiwi_t.Execution.FillLaws.{IsWithin, record_all-IsWithin}

abbrev none_filled : FillAccumulator
none_filled = record { ordered_quantity = 10; fills = [] }

abbrev part_filled : FillAccumulator
part_filled = record { ordered_quantity = 10; fills = ("f1", 4) ∷ [] }

-- a fill, its repetition, one that is too large, and the rest
abbrev calls : List (String × ℕ)
calls = ("f1", 4) ∷ ("f1", 4) ∷ ("f2", 7) ∷ ("f3", 6) ∷ []

test_filled :
    status_of (record_all none_filled calls)
    ≡ record { filled_quantity = 10; remaining_quantity = 0; is_filled = true }
unfolding record_all after record_fill accumulate get sum_fills status_of
test_filled = refl

starts : new_accumulator 10 ≡ ok none_filled
unfolding new_accumulator
starts = refl

record_all-IsWithin_example : IsWithin 10 (record_all none_filled calls)
record_all-IsWithin_example = record_all-IsWithin 10 none_filled calls starts

first : record_fill none_filled "f1" 4 ≡ ok (status_of part_filled, part_filled)
unfolding record_fill accumulate get sum_fills status_of
first = refl

abbrev infy : Instrument
infy = record { symbol = "INFY"; exchange = "NSE"; series = "EQ"; lot_size = 1; tick_size = 5 }

abbrev proposal : TradeProposal
proposal = record {
  proposal_id = "p1";
  instrument = infy;
  side = buy;
  signal_timestamp = 0;
  entry_price = 10000;
  stop_price = 9900;
  target_price = some 10200;
}

abbrev approval : RiskDecision
approval = record { decision = approve; proposal_id = "p1"; quantity = 10; risk_budget = 5000 }

abbrev quote : Quote
quote = record { instrument = infy; timestamp = 0; bid = 9995; ask = 10000 }

abbrev broker : PaperBroker
broker = record { slippage_bps = 5; filled_proposals = []; fills_by_proposal = [] }

abbrev fill : PaperFill
fill = record {
  fill_id = "f1";
  proposal_id = "p1";
  timestamp = 7;
  side = buy;
  quantity = 10;
  price = record { numerator = 100050000; denominator = 10000 };
}

abbrev filled_broker : PaperBroker
filled_broker = record {
  slippage_bps = 5;
  filled_proposals = "p1" ∷ [];
  fills_by_proposal = ("p1", fill) ∷ [];
}

abbrev second_call : BrokerCall
second_call = record {
  proposal = proposal;
  risk = approval;
  quote = quote;
  fill_id = "f2";
  now = 8;
}

executes : execute broker proposal approval quote "f1" 7 ≡ ok (fill, filled_broker)
unfolding execute is_unapproved contains instrument_eq new_fill add_fill put_fill slipped_price
executes = refl

execute-Executed_example :
    Returning
      (Executed broker proposal approval quote)
      (execute broker proposal approval quote "f1" 7)
execute-Executed_example = execute-Executed broker proposal approval quote "f1" 7

fill-stays_example :
    (fill_for (execute_all (second_call ∷ []) filled_broker) "p1" ≡ some fill)
    × ((e : BrokerFailure) × (execute
            (execute_all (second_call ∷ []) filled_broker)
            proposal
            approval
            quote
            "f2"
            8
          ≡ err e))
fill-stays_example =
    fill-stays broker filled_broker proposal approval quote "f1" 7 fill (second_call ∷ [])
      second_call executes refl
