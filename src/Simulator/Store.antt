-- ===== src/Simulator/Store.antt =====
-- The durable event log of `PaperSimulator` in src/kiwit/paper_simulator.py: rows with digests, and
-- `_event`, which applies each event once.
--
-- The database is a value: a method that raises leaves it as it was, since its transaction is
-- rolled back. JSON and SHA-256 are not in the repository: a section takes them as `Codec`.
use kiwi_t.Prelude.{
  ℕ, String, compare_text, is_lt, Bool, false, not, ◌&&◌, ltb, ◌==◌, str_eq, if◌then◌else◌, Option,
  none, some, List, [], ◌∷◌, ◌++◌, Outcome, ok, err, ◌>>=◌, ◌>>◌, raise_if,
}
use kiwi_t.Prelude.Int.{pos}
use kiwi_t.Simulator.Types.{
  Quote, Order, Metadata, State, Failure, checksum_mismatch, configuration_mismatch,
  positive_capital_required, event_identity_required, invalid_fill_costs, conflicting_event_retry,
  events_not_chronological,
}

-- the requests that `_event` is called with
pub data Request : Type 0 where
  submit_request : ℕ → Order → Request
  cancel_request_of : ℕ → String → Request
  session_request : ℕ → Request
  quote_request : ℕ → Quote → Request

-- what an event returns: one order, or a collection of them
pub data Reply : Type 0 where
  one : Order → Reply
  many : List Order → Reply

-- `_json` of a request, `_hash` of a state and of a result, and `isoformat`; encodings are taken
-- as numbers.
pub record Codec : Type 0 where
  pub json : Request → ℕ
  pub hash_state : State → ℕ
  pub hash_reply : Reply → ℕ
  pub isoformat : ℕ → String

-- a row of `state`
pub record StateRow : Type 0 where
  pub payload : State
  pub digest : ℕ

-- a row of `events`
pub record EventRow : Type 0 where
  pub request : ℕ
  pub result : Reply
  pub digest : ℕ

pub record Database : Type 0 where
  pub state : StateRow
  pub events : List (String × EventRow)

-- `SELECT … FROM events WHERE event_id=?`
unfoldable pub lookup : String → List (String × EventRow) → Option EventRow
lookup k [] = none
lookup k ((j, row) ∷ rest) = if str_eq j k then some row else lookup k rest

unfoldable pub metadata_eq : Metadata → Metadata → Bool
metadata_eq a b =
    str_eq a.calendar_version b.calendar_version
    && (a.initial_capital == b.initial_capital
        && (a.rules.scale == b.rules.scale
            && (a.rules.slippage == b.rules.slippage
                && (a.rules.fee == b.rules.fee
                    && a.rules.maximum_quote_age_seconds == b.rules.maximum_quote_age_seconds))))

unfoldable pub initial_state : Metadata → State
initial_state m = record {
  metadata = m;
  account = record { cash = pos m.initial_capital; realized_pnl = pos 0 };
  orders = [];
  clock = none;
}

-- the stored clock lies after the event
unfoldable pub is_late : Option ℕ → ℕ → Bool
is_late none now = false
is_late (some clock) now = ltb now clock

-- the order of two keys in a text of `_json`
unfoldable pub text_before : String → String → Bool
text_before a b = is_lt (compare_text a b)

unfoldable pub insert_order : Order → List Order → List Order
insert_order o [] = o ∷ []
insert_order o (x ∷ rest) = if text_before x.id o.id then x ∷ insert_order o rest else o ∷ x ∷ rest

-- the orders as a text of `_json`, with its `sort_keys`, is read back
unfoldable pub sort_orders : List Order → List Order
sort_orders [] = []
sort_orders (o ∷ rest) = insert_order o (sort_orders rest)

-- the state that is stored after an event
unfoldable pub stored_state : ℕ → State → State
stored_state now s = record s { orders = sort_orders s.orders; clock = some now }

module _ (c : Codec) where
  -- `_verified`, on a row of `state`
  unfoldable pub verified_state : StateRow → Outcome Failure State
  verified_state row =
      if c.hash_state row.payload == row.digest then ok row.payload else err checksum_mismatch

  -- `_verified`, on a row of `events`
  unfoldable pub verified_reply : EventRow → Outcome Failure Reply
  verified_reply row =
      if c.hash_reply row.result == row.digest then ok row.result else err checksum_mismatch

  unfoldable pub state_row : State → StateRow
  state_row s = record { payload = s; digest = c.hash_state s }

  -- `FillRules.__post_init__` and `PaperSimulator.__init__`, on a file that may hold a state
  unfoldable pub initialize : Metadata → Option Database → Outcome Failure Database
  initialize m stored = do
    raise_if (not (ltb m.rules.slippage m.rules.scale && ltb m.rules.fee m.rules.scale))
        invalid_fill_costs
    raise_if (m.initial_capital == 0) positive_capital_required
    elim stored [
      | none ↦ ok (record { state = state_row (initial_state m); events = [] })
      | some db ↦ verified_state db.state >>= λ s.
          if metadata_eq s.metadata m then ok db else err configuration_mismatch
    ]

  -- `_event` on an identity that is new: the change is applied and the log extended
  unfoldable pub record_event :
      String
      → ℕ
      → Request
      → (State → Outcome Failure (Reply × State))
      → Database
      → Outcome Failure (Reply × Database)
  record_event event_id now request apply db = do
    state ← verified_state db.state
    raise_if (is_late state.clock now) events_not_chronological
    result ← apply state
    ok (
      result.0,
      record {
        state = state_row (stored_state now result.1);
        events =
            db.events
            ++ (
              event_id,
              record {
                request = c.json request;
                result = result.0;
                digest = c.hash_reply result.0;
              },
            )
              ∷ [];
      },
    )

  -- `_event`
  unfoldable pub event :
      String
      → ℕ
      → Request
      → (State → Outcome Failure (Reply × State))
      → Database
      → Outcome Failure (Reply × Database)
  event event_id now request apply db = do
    raise_if (str_eq event_id "") event_identity_required
    elim (lookup event_id db.events) [
      | some old ↦
          raise_if (not (old.request == c.json request)) conflicting_event_retry
          >> (verified_reply old >>= λ reply. ok (reply, db))
      | none ↦ record_event event_id now request apply db
    ]
