-- ===== src/Execution/Broker.antt =====
-- `PaperBroker` of src/kiwit/execution.py. The identity and the time of a fill are arguments. A
-- quotient of the source is a fraction here; the source rounds it to 28 digits.
use kiwi_t.Prelude.{
  ℕ, ◌+◌, ◌*◌, String, Bool, true, false, not, ◌||◌, ◌==◌, Option, none, some, List, [], ◌∷◌,
  Outcome, ok, err, ◌>>◌, raise_if, if◌then◌else◌, str_eq,
}
use kiwi_t.Simulator.Types.{Quote, instrument_eq}
use kiwi_t.Simulator.Methods.{Side, TradeProposal, RiskDecision, is_approved}

pub data BrokerFailure : Type 0 where
  lacks_approval duplicate_execution instrument_mismatch : BrokerFailure

pub record Fraction : Type 0 where
  pub numerator : ℕ
  pub denominator : ℕ

pub record PaperFill : Type 0 where
  pub fill_id : String
  pub proposal_id : String
  pub timestamp : ℕ
  pub side : Side
  pub quantity : ℕ
  pub price : Fraction

-- a slippage of basis points that is not negative
pub record PaperBroker : Type 0 where
  pub slippage_bps : ℕ
  pub filled_proposals : List String
  pub fills_by_proposal : List (String × PaperFill)

-- `in`
unfoldable pub contains : String → List String → Bool
contains id [] = false
contains id (x ∷ xs) = str_eq x id || contains id xs

-- `dict.get`
unfoldable pub get_fill : String → List (String × PaperFill) → Option PaperFill
get_fill id [] = none
get_fill id ((k, f) ∷ rest) = if str_eq k id then some f else get_fill id rest

-- the assignment of a key
unfoldable pub put_fill : String → PaperFill → List (String × PaperFill) → List (String × PaperFill)
put_fill id f [] = (id, f) ∷ []
put_fill id f ((k, g) ∷ rest) = if str_eq k id then (k, f) ∷ rest else (k, g) ∷ put_fill id f rest

-- `fill_for`
unfoldable pub fill_for : PaperBroker → String → Option PaperFill
fill_for b id = get_fill id b.fills_by_proposal

abbrev pub is_buy : Side → Bool
is_buy Side.buy = true
is_buy Side.sell = false

-- `price`
unfoldable pub slipped_price : ℕ → Side → Quote → Fraction
slipped_price bps Side.buy quote = record {
  numerator = quote.ask * (10000 + bps);
  denominator = 10000;
}
slipped_price bps Side.sell quote = record {
  numerator = quote.bid * 10000;
  denominator = 10000 + bps;
}

-- the fill that `execute` makes
unfoldable pub new_fill :
    PaperBroker → TradeProposal → RiskDecision → Quote → String → ℕ → PaperFill
new_fill b o r quote fill_id now = record {
  fill_id = fill_id;
  proposal_id = o.proposal_id;
  timestamp = now;
  side = o.side;
  quantity = r.quantity;
  price = slipped_price b.slippage_bps o.side quote;
}

-- the writes of `execute`
unfoldable pub add_fill : PaperBroker → PaperFill → PaperBroker
add_fill b f = record b {
  filled_proposals = f.proposal_id ∷ b.filled_proposals;
  fills_by_proposal = put_fill f.proposal_id f b.fills_by_proposal;
}

unfoldable pub is_unapproved : TradeProposal → RiskDecision → Bool
is_unapproved o r =
    not (is_approved r.decision) || (not (str_eq r.proposal_id o.proposal_id) || r.quantity == 0)

unfoldable pub execute :
    PaperBroker
    → TradeProposal
    → RiskDecision
    → Quote
    → String
    → ℕ
    → Outcome BrokerFailure (PaperFill × PaperBroker)
execute b o r quote fill_id now = do
  raise_if (is_unapproved o r) lacks_approval
  raise_if (contains o.proposal_id b.filled_proposals) duplicate_execution
  raise_if (not (instrument_eq quote.instrument o.instrument)) instrument_mismatch
  ok (new_fill b o r quote fill_id now, add_fill b (new_fill b o r quote fill_id now))

pub record BrokerCall : Type 0 where
  pub proposal : TradeProposal
  pub risk : RiskDecision
  pub quote : Quote
  pub fill_id : String
  pub now : ℕ

unfoldable pub after_call :
    PaperBroker → Outcome BrokerFailure (PaperFill × PaperBroker) → PaperBroker
after_call b (ok r) = r.1
after_call b (err e) = b

-- the broker after a sequence of calls, of which one that raises changes nothing
unfoldable pub execute_all : List BrokerCall → PaperBroker → PaperBroker
execute_all [] b = b
execute_all (c ∷ rest) b =
    execute_all rest (after_call b (execute b c.proposal c.risk c.quote c.fill_id c.now))
