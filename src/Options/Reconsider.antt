-- ===== src/Options/Reconsider.antt =====
-- `reconsider_event` of src/kiwit/options_policy.py: when an event is put to the model again.
use kiwi_t.Prelude.{
  ℕ, ◌+◌, String, append, Bool, true, false, not, ◌&&◌, ◌||◌, ltb, leb, List, [], ◌∷◌, length,
  if◌then◌else◌, str_eq,
}
use kiwi_t.Calendar.{seconds}

abbrev pub max_event_attempts : ℕ
max_event_attempts = 3

abbrev pub reconsider_seconds : ℕ
reconsider_seconds = 120

-- the fields of a trigger that are read
pub record Trigger : Type 0 where
  pub call : Bool
  pub kind : String

-- an attempt: its state, its time and the action that was decided
pub record Attempt : Type 0 where
  pub status : String
  pub created_at : ℕ
  pub action : String

-- the keys that `reconsider_event` adds
pub record Reconsidered : Type 0 where
  pub due : Bool
  pub reason : String
  pub attempts : ℕ

-- `retryable`
unfoldable pub is_retryable : Trigger → Attempt → Bool
is_retryable t a =
    str_eq a.status "failed"
    || (str_eq a.status "interrupted"
        || (str_eq a.status "rejected"
            || (str_eq a.status "applied"
                && (str_eq a.action "HOLD" && str_eq t.kind "ELIGIBLE_PLAN_SET_CHANGED"))))

abbrev answer : List Attempt → Bool → String → Reconsidered
answer attempts due reason = record { due = due; reason = reason; attempts = length attempts }

-- The newest attempt comes first. `upper` is `str.upper`.
unfoldable pub reconsider_called : (String → String) → Trigger → List Attempt → ℕ → Reconsidered
reconsider_called upper t [] now = answer [] true "NEW_SETUP_OR_MATERIAL_CHANGE"
reconsider_called upper t (a ∷ rest) now =
    if leb max_event_attempts (length (a ∷ rest))
    then answer (a ∷ rest) false "EVENT_ATTEMPT_LIMIT"
    else if not (is_retryable t a)
    then answer (a ∷ rest) false "UNCHANGED_EVENT"
    else if ltb now (a.created_at + seconds reconsider_seconds)
    then answer (a ∷ rest) false "RECONSIDERATION_COOLDOWN"
    else answer (a ∷ rest) true (
        if str_eq a.status "applied"
        then "HOLD_RECONSIDERATION"
        else append "RETRY_" (upper a.status))

unfoldable pub reconsider_event : (String → String) → Trigger → List Attempt → ℕ → Reconsidered
reconsider_event upper t attempts now =
    let called = reconsider_called upper t attempts now in
    if t.call then called else answer attempts false t.kind

-- a poll of an event, and how the attempt ends that follows when the event is due
pub record Poll : Type 0 where
  pub trigger : Trigger
  pub now : ℕ
  pub status : String
  pub action : String

-- the attempts after a sequence of polls of one event
unfoldable pub poll_all : (String → String) → List Poll → List Attempt → List Attempt
poll_all upper [] attempts = attempts
poll_all upper (p ∷ rest) attempts = poll_all upper rest (
    if (reconsider_event upper p.trigger attempts p.now).due
    then (record { status = p.status; created_at = p.now; action = p.action }) ∷ attempts
    else attempts)
