-- ===== src/Desk/Calls.antt =====
-- The calls of the model in `BankNiftyStore` of src/kiwit/banknifty.py: `reserve`, `settle`,
-- `reconcile_interrupted_calls` and the mark of `_apply`. A budget is a number of millionths of a dollar.
use kiwi_t.Prelude.{
  ℕ, ◌+◌, ◌-◌, ◌/◌, String, Bool, true, false, not, ◌&&◌, ◌||◌, ltb, leb, ◌==◌, Option, none, some,
  List, [], ◌∷◌, any, all, length, if◌then◌else◌, str_eq,
}
use kiwi_t.Prelude.Queries.{select_all, sort_rows}
use kiwi_t.Calendar.{ist_date, seconds}
use kiwi_t.Options.Reconsider.{Trigger, Attempt, reconsider_event}
use kiwi_t.Desk.State.{DeskState, is_running, DeskEvent, decision_suppressed}

-- `RESERVATION`, `DAILY_BUDGET`, `ROLLING_BUDGET` and `BUDGET_DAYS` of src/kiwit/options_ai.py
abbrev pub reservation : ℕ
reservation = 200_000

abbrev pub daily_budget : ℕ
daily_budget = 5_000_000

abbrev pub rolling_budget : ℕ
rolling_budget = 50_000_000

abbrev pub budget_days : ℕ
budget_days = 30

pub data CallStatus : Type 0 where
  call_reserved call_completed call_failed call_applied call_rejected call_interrupted : CallStatus

-- the text of a status, as `reconsider_event` reads it
abbrev pub status_text : CallStatus → String
status_text call_reserved = "reserved"
status_text call_completed = "completed"
status_text call_failed = "failed"
status_text call_applied = "applied"
status_text call_rejected = "rejected"
status_text call_interrupted = "interrupted"

abbrev pub is_reserved : CallStatus → Bool
is_reserved call_reserved = true
is_reserved _ = false

abbrev pub is_settled : CallStatus → Bool
is_settled call_completed = true
is_settled _ = false

abbrev pub is_failed : CallStatus → Bool
is_failed call_failed = true
is_failed _ = false

-- a row of `banknifty_ai_calls`
pub record DeskCall : Type 0 where
  pub call_id : String
  pub day : ℕ
  pub slot : ℕ
  pub status : CallStatus
  pub reserved_usd : ℕ
  pub snapshot_at : ℕ
  pub event_key : String
  pub created_at : ℕ
  pub action : String

-- the sum of the reserved amounts of the calls that satisfy a condition
unfoldable pub total : (DeskCall → Bool) → List DeskCall → ℕ
total p [] = 0
total p (c ∷ rest) = let later = total p rest in if p c then c.reserved_usd + later else later

abbrev pub on_day : ℕ → DeskCall → Bool
on_day day c = c.day == day

-- `trading_date >= today - 29 days`
abbrev pub in_window : ℕ → DeskCall → Bool
in_window today c = leb today (c.day + (budget_days - 1))

-- `LIMIT`
unfoldable pub first_rows : ℕ → List DeskCall → List DeskCall
first_rows n [] = []
first_rows n (c ∷ rest) = let later = first_rows (n - 1) rest in if n == 0 then [] else c ∷ later

unfoldable pub attempts_of : List DeskCall → List Attempt
attempts_of [] = []
attempts_of (c ∷ rest) =
    (record { status = status_text c.status; created_at = c.created_at; action = c.action })
    ∷ attempts_of rest

-- `decision_attempts`
unfoldable pub decision_attempts : ℕ → String → List DeskCall → List Attempt
decision_attempts day key calls = attempts_of (
    first_rows 3 (
      sort_rows (λ (a b : DeskCall). ltb b.created_at a.created_at)
        (select_all (λ (c : DeskCall). on_day day c && str_eq c.event_key key) calls)))

-- three failures in a row, the newest less than a quarter of an hour old
unfoldable pub is_circuit_open : ℕ → List DeskCall → Bool
is_circuit_open now [] = false
is_circuit_open now (c ∷ rest) =
    (length (c ∷ rest) == 3 && all (λ (x : DeskCall). is_failed x.status) (c ∷ rest))
    && ltb now (c.snapshot_at + seconds 900)

-- the newest calls of a day
unfoldable pub newest_calls : ℕ → List DeskCall → List DeskCall
newest_calls day calls =
    first_rows 3 (sort_rows (λ (a b : DeskCall). ltb b.slot a.slot) (select_all (on_day day) calls))

-- `used + RESERVATION > ROLLING_BUDGET or today + RESERVATION > DAILY_BUDGET`
unfoldable pub is_budget_spent : DeskState → ℕ → List DeskCall → Bool
is_budget_spent s now calls =
    ltb rolling_budget (total (in_window (ist_date now)) calls + reservation)
    || ltb daily_budget
        (total (λ c. on_day s.day c && in_window (ist_date now) c) calls + reservation)

-- the row that `reserve` inserts
unfoldable pub new_call : DeskState → String → String → ℕ → ℕ → DeskCall
new_call s call_id key snapshot_at now = record {
  call_id = call_id;
  day = s.day;
  slot = now / seconds 120;
  status = call_reserved;
  reserved_usd = reservation;
  snapshot_at = snapshot_at;
  event_key = key;
  created_at = now;
  action = "";
}

-- the last statement of `reserve`, which inserts nothing into a slot that is taken
unfoldable pub insert_call : DeskCall → List DeskCall → Bool × List DeskCall
insert_call c calls =
    if any (λ (x : DeskCall). x.slot == c.slot) calls then (false, calls) else (true, c ∷ calls)

-- `reserve` for a trigger with its key, which is empty where there is none: whether a call was reserved, the calls, and the events
unfoldable pub reserve :
    (String → String)
    → Bool
    → DeskState
    → Trigger
    → String
    → String
    → ℕ
    → ℕ
    → List DeskCall
    → (Bool × List DeskCall) × List DeskEvent
reserve upper halted s t key call_id snapshot_at now calls =
    if not (is_running s.status) || (not (s.day == ist_date now) || halted)
    then ((false, calls), [])
    else if not (str_eq key "")
        && not (reconsider_event upper t (decision_attempts s.day key calls) now).due
    then ((false, calls), decision_suppressed ∷ [])
    else if is_circuit_open now (newest_calls s.day calls) || is_budget_spent s now calls
    then ((false, calls), [])
    else (insert_call (new_call s call_id key snapshot_at now) calls, [])

-- how a call of the model ended: with a charge, without one, or undispatched
pub data Charge : Type 0 where
  charged : ℕ → Charge
  unknown_charge undispatched : Charge

abbrev pub charge_of : Charge → ℕ
charge_of (charged n) = n
charge_of unknown_charge = reservation
charge_of undispatched = 0

-- an update of the rows that satisfy a condition
unfoldable pub update_calls :
    (DeskCall → Bool) → (DeskCall → DeskCall) → List DeskCall → List DeskCall
update_calls p f [] = []
update_calls p f (c ∷ rest) = (if p c then f c else c) ∷ update_calls p f rest

-- `"completed" if decision else "failed"`
abbrev pub concluded : Option String → CallStatus
concluded none = call_failed
concluded (some action) = call_completed

-- `settle`: with a decision, of which the action is given, the call is completed
unfoldable pub settle_call : String → Option String → Charge → List DeskCall → List DeskCall
settle_call call_id decision amount =
    update_calls (λ c. str_eq c.call_id call_id && is_reserved c.status)
      (λ c. record c {
        status = concluded decision;
        reserved_usd = charge_of amount;
        action = elim decision [ none ↦ c.action | some a ↦ a ];
      })

-- `reconcile_interrupted_calls`
unfoldable pub reconcile_calls : ℕ → List DeskCall → List DeskCall
reconcile_calls now =
    update_calls
      (λ c. (is_reserved c.status || is_settled c.status) && ltb (c.created_at + seconds 600) now)
      (λ c. record c { status = call_interrupted })

-- the mark of `_apply`
unfoldable pub mark_applied : String → List DeskCall → List DeskCall
mark_applied call_id =
    update_calls (λ c. str_eq c.call_id call_id && is_settled c.status)
      (λ c. record c { status = call_applied })

-- the mark of `run_once` after an entry that was refused
unfoldable pub mark_rejected : String → List DeskCall → List DeskCall
mark_rejected call_id =
    update_calls (λ c. str_eq c.call_id call_id && is_settled c.status)
      (λ c. record c { status = call_rejected })

-- a stored call is completed
unfoldable pub is_call_completed : String → List DeskCall → Bool
is_call_completed call_id = any (λ (c : DeskCall). str_eq c.call_id call_id && is_settled c.status)
