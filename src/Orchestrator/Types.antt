-- ===== src/Orchestrator/Types.antt =====
-- The data of src/kiwit/session_orchestrator.py: the schedule, the stored session, the adapter.
use kiwi_t.Prelude.{
  ℕ, String, Bool, Option, none, some, List, [], ◌∷◌, Outcome, str_eq, true, false,
}
use kiwi_t.Calendar.{TradingCalendar}

pub data ClosePolicy : Type 0 where
  flatten_on_fresh_quote hold_for_reconciliation : ClosePolicy

-- `SessionSchedule`, of which the offsets are numbers of microseconds
pub record SessionSchedule : Type 0 where
  pub premarket : ℕ
  pub observation_delay : ℕ
  pub entry_cutoff : ℕ
  pub close_policy : ClosePolicy
  pub health_max_age : ℕ

pub data SessionState : Type 0 where
  waiting ready observing observing_no_entries blocked_dependencies closing complete error :
      SessionState

pub data Action : Type 0 where
  run stop : Action

pub record ControlEvent : Type 0 where
  pub at : ℕ
  pub action : Action
  pub operator : String

-- The stored body of a session. The key `entries_allowed` is absent until the first tick; here it
-- is false. ISO texts of one time zone are ordered as the times are, so `last_tick` is a time.
pub record SessionBody : Type 0 where
  pub day : ℕ
  pub session_id : String
  pub state : SessionState
  pub armed_boot : Option String
  pub operator : Option String
  pub warmed_boot : Option String
  pub last_tick : Option ℕ
  pub events : List ControlEvent
  pub report : Option String
  pub entries_allowed : Bool
  pub error_type : Option String

-- a row of `market_sessions`
pub record SessionRow : Type 0 where
  pub day : ℕ
  pub binding : String
  pub body : SessionBody

pub data Failure : Type 0 where
  session_config_changed action_and_operator_required no_session outside_activation_window
        session_complete ticks_not_increasing :
      Failure

-- what `backend.health` returns
pub record Health : Type 0 where
  pub as_of : ℕ
  pub checks : List (String × Bool)

-- the calls of `SessionBackend` that have effects
pub data BackendCall : Type 0 where
  warm_call : String → BackendCall
  observe_call : String → ℕ → Bool → BackendCall
  close_call : String → ℕ → ClosePolicy → BackendCall
  report_call : String → BackendCall

-- The answers of the backend during one tick. An exception is the name of its type. In one tick no
-- call is made twice with the same arguments, so the answers are functions of those.
pub record Answers : Type 0 where
  pub health : ℕ → Outcome String Health
  pub warm : String → Outcome String Bool
  pub observe : String → ℕ → Bool → Outcome String (Unit {0})
  pub close : String → ℕ → ClosePolicy → Outcome String Bool
  pub report : String → Outcome String String

-- An orchestrator: its configuration, the identity of its boot, and what it takes from libraries:
-- the digests `binding` and `session_id`, `isoformat`, and whether `strip` leaves a text empty.
pub record SessionOrchestrator : Type 0 where
  pub calendar : TradingCalendar
  pub schedule : SessionSchedule
  pub boot_id : String
  pub binding : String
  pub session_id : ℕ → String
  pub isoformat : ℕ → String
  pub is_blank : String → Bool

abbrev pub required : List String
required =
    "database" ∷ "configuration" ∷ "groww_auth" ∷ "history" ∷ "features" ∷ "models" ∷ "audit" ∷ []

-- `state == "COMPLETE"`
abbrev pub is_complete : SessionState → Bool
is_complete complete = true
is_complete _ = false

-- equality with the identity of this boot
abbrev pub is_boot : Option String → String → Bool
is_boot none boot = false
is_boot (some b) boot = str_eq b boot
