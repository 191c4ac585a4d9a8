-- ===== src/Options/Gate.antt =====
-- `entry_gate` of src/kiwit/options_policy.py and `entry_calendar_blocker` of
-- src/kiwit/options_events.py: whether the desk may enter a position.
use kiwi_t.Prelude.{
  ℕ, ◌+◌, ◌-◌, ◌/◌, String, Bool, not, ◌&&◌, ltb, leb, ◌==◌, Option, none, some, List, [], ◌∷◌,
  is_nonempty, if◌then◌else◌, str_eq,
}
use kiwi_t.Calendar.{second}
use kiwi_t.Options.Sizing.{OptionsState, session_limit_reached}

abbrev pub entry_cap : ℕ
entry_cap = 10

abbrev pub cooldown_seconds : ℕ
cooldown_seconds = 300

-- The reasons that can occur, in the order of `ENTRY_BLOCKER_MESSAGES`.
pub data EntryReason : Type 0 where
  session_pnl_limit daily_entry_cap event_calendar_invalid event_calendar_unavailable
        high_impact_event_window one_position_active post_exit_cooldown no_eligible_plan :
      EntryReason

-- the place of a reason in `ENTRY_BLOCKER_MESSAGES`
abbrev pub priority : EntryReason → ℕ
priority session_pnl_limit = 0
priority daily_entry_cap = 1
priority event_calendar_invalid = 2
priority event_calendar_unavailable = 3
priority high_impact_event_window = 4
priority one_position_active = 5
priority post_exit_cooldown = 6
priority no_eligible_plan = 7

-- the place of a reason in a list in order and without repetitions
unfoldable pub insert : EntryReason → List EntryReason → List EntryReason
insert r [] = r ∷ []
insert r (x ∷ xs) =
    let rest = insert r xs in
    if ltb (priority r) (priority x)
    then r ∷ x ∷ xs
    else if priority r == priority x
    then x ∷ xs
    else x ∷ rest

-- `ordered_entry_reasons`
unfoldable pub ordered_entry_reasons : List EntryReason → List EntryReason
ordered_entry_reasons [] = []
ordered_entry_reasons (r ∷ rs) = insert r (ordered_entry_reasons rs)

-- the fields of an event context that are read
pub record EventContext : Type 0 where
  pub coverage : String
  pub risk : String
  pub reason_code : Option String

pub record CalendarBlocker : Type 0 where
  pub reason : EntryReason
  pub detail_code : String

-- `context.get("reason_code") or default`
abbrev pub detail_or : Option String → String → String
detail_or none d = d
detail_or (some t) d = if str_eq t "" then d else t

-- `entry_calendar_blocker`
unfoldable pub entry_calendar_blocker : EventContext → Option CalendarBlocker
entry_calendar_blocker c =
    if str_eq c.coverage "invalid"
    then some (record {
      reason = event_calendar_invalid;
      detail_code = detail_or c.reason_code "CALENDAR_INVALID";
    })
    else if not (str_eq c.coverage "configured")
    then some (record {
      reason = event_calendar_unavailable;
      detail_code = detail_or c.reason_code "CALENDAR_UNAVAILABLE";
    })
    else if not (str_eq c.risk "clear")
    then some
        (record { reason = high_impact_event_window; detail_code = "HIGH_IMPACT_EVENT_WINDOW" })
    else none

-- The whole seconds of the cooldown that are left, and more of them when the clock is before the exit;
-- `int` rounds the elapsed seconds towards 0.
unfoldable pub cooldown_remaining : ℕ → Option ℕ → ℕ
cooldown_remaining now none = 0
cooldown_remaining now (some exit) =
    if ltb now exit
    then cooldown_seconds + (exit - now) / second
    else cooldown_seconds - (now - exit) / second

-- `if b: reasons.append(r)`, before the reasons that follow
abbrev pub append_if : Bool → EntryReason → List EntryReason → List EntryReason
append_if b r rs = if b then r ∷ rs else rs

-- the blocker of the calendar, which is not asked while a position is open
unfoldable pub calendar_blocker : OptionsState → Option EventContext → Option CalendarBlocker
calendar_blocker s none = none
calendar_blocker s (some c) = if s.has_position then none else entry_calendar_blocker c

abbrev pub blocker_reasons : Option CalendarBlocker → List EntryReason
blocker_reasons none = []
blocker_reasons (some b) = b.reason ∷ []

-- the reasons in the order in which they are found; `plans` tells whether there is a plan
unfoldable pub entry_reasons : OptionsState → ℕ → Bool → Option EventContext → List EntryReason
entry_reasons s now plans context = append_if s.has_position one_position_active (
    append_if (leb entry_cap s.entries) daily_entry_cap (
      append_if (session_limit_reached s s.realized_pnl) session_pnl_limit (
        append_if (ltb 0 (cooldown_remaining now s.last_exit)) post_exit_cooldown (
          append_if (not plans && not s.has_position) no_eligible_plan
            (blocker_reasons (calendar_blocker s context))))))

pub record EntryGate : Type 0 where
  pub allowed : Bool
  pub reason_codes : List EntryReason
  pub blocker : Option CalendarBlocker
  pub cooldown_remaining_seconds : ℕ
  pub entries_remaining : ℕ

unfoldable pub entry_gate : OptionsState → ℕ → Bool → Option EventContext → EntryGate
entry_gate s now plans context =
    let reasons = entry_reasons s now plans context in
    record {
      allowed = not (is_nonempty reasons);
      reason_codes = ordered_entry_reasons reasons;
      blocker = calendar_blocker s context;
      cooldown_remaining_seconds = cooldown_remaining now s.last_exit;
      entries_remaining = entry_cap - s.entries;
    }
