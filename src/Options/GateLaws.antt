-- ===== src/Options/GateLaws.antt =====
-- What the answer of `entry_gate` of src/kiwit/options_policy.py means.
use kiwi_t.Prelude.{
  ℕ, ◌+◌, ◌*◌, ◌≤◌, ◌<◌, ◌≡◌, ◌↔◌, refl, Bool, true, false, not, ◌&&◌, ltb, leb, Option, none, some,
  List, [], arith, is_nonempty, if◌then◌else◌, Bool-cases, inl, inr, str_eq, eq_iff,
}
use kiwi_t.Calendar.{second}
use kiwi_t.Options.Sizing.{OptionsState, session_limit_reached}
use kiwi_t.Options.Gate.{
  entry_cap, cooldown_seconds, EntryReason, one_position_active, daily_entry_cap, session_pnl_limit,
  post_exit_cooldown, no_eligible_plan, EventContext, CalendarBlocker, entry_calendar_blocker,
  cooldown_remaining, append_if, calendar_blocker, blocker_reasons, entry_reasons, entry_gate,
}

-- an event context that blocks nothing
abbrev pub IsCalm : Option EventContext → Type 0
IsCalm none = Unit
IsCalm (some c) = (c.coverage ≡ "configured") × (c.risk ≡ "clear")

-- the cooldown after an exit is over
abbrev pub IsCooled : ℕ → Option ℕ → Type 0
IsCooled now none = Unit
IsCooled now (some exit) = exit + cooldown_seconds * second ≤ now

-- The state of a desk that may enter.
pub record MayEnter (s : OptionsState) (now : ℕ) (plans : Bool) (context : Option EventContext)
    : Type 0 where
  pub free : s.has_position ≡ false
  pub below_cap : s.entries < entry_cap
  pub within_limits : session_limit_reached s s.realized_pnl ≡ false
  pub cooled : IsCooled now s.last_exit
  pub planned : plans ≡ true
  pub calm : IsCalm context

unappended :
    (b : Bool) (r : EntryReason) (rs : List EntryReason)
    → is_nonempty (append_if b r rs) ≡ false
    → (b ≡ false) × (is_nonempty rs ≡ false)
unappended true r rs h = cc
unappended false r rs h = (refl, h)

cooldown_remaining-IsCooled :
    (now : ℕ) (exit : Option ℕ) → ltb 0 (cooldown_remaining now exit) ≡ false → IsCooled now exit
unfolding cooldown_remaining
cooldown_remaining-IsCooled now none h = tt
cooldown_remaining-IsCooled now (some exit) h = ground arith

IsCooled-cooldown_remaining :
    (now : ℕ) (exit : Option ℕ) → IsCooled now exit → ltb 0 (cooldown_remaining now exit) ≡ false
unfolding cooldown_remaining
IsCooled-cooldown_remaining now none h = refl
IsCooled-cooldown_remaining now (some exit) h = ground arith

-- No blocker was chosen, so both tests have passed.
unblocked :
    (invalid configured clear : Bool) (a b c : CalendarBlocker)
    → is_nonempty (
        blocker_reasons (
          if invalid
          then some a
          else if not configured
          then some b
          else if not clear
          then some c
          else none))
      ≡ false
    → (configured ≡ true) × (clear ≡ true)
unblocked true configured clear a b c h = cc
unblocked false false clear a b c h = cc
unblocked false true false a b c h = cc
unblocked false true true a b c h = (refl, refl)

calendar-IsCalm :
    (s : OptionsState) (c : Option EventContext)
    → s.has_position ≡ false
    → is_nonempty (blocker_reasons (calendar_blocker s c)) ≡ false
    → IsCalm c
unfolding calendar_blocker entry_calendar_blocker
calendar-IsCalm s none f h = tt
calendar-IsCalm s (some c) f h =
    let (configured, clear) =
      unblocked (str_eq c.coverage "invalid") (str_eq c.coverage "configured")
        (str_eq c.risk "clear") _ _ _ (rw f at h) in
    ((eq_iff _ _).0 configured, (eq_iff _ _).0 clear)

IsCalm-calendar :
    (s : OptionsState) (c : Option EventContext) → IsCalm c → calendar_blocker s c ≡ none
unfolding calendar_blocker entry_calendar_blocker
IsCalm-calendar s none h = refl
IsCalm-calendar s (some c) h = elim (Bool-cases s.has_position) [
  | inl held ↦ rw held refl
  | inr free ↦ rw free (rw (h.0) (rw (h.1) refl))
]

none_found :
    (s : OptionsState) (now : ℕ) (plans : Bool) (context : Option EventContext)
    → is_nonempty (entry_reasons s now plans context) ≡ false
    → MayEnter s now plans context
unfolding entry_reasons
none_found s now plans context h =
    let (free, h1) = unappended s.has_position one_position_active _ h in
    let (below, h2) = unappended (leb entry_cap s.entries) daily_entry_cap _ h1 in
    let (within, h3) = unappended (session_limit_reached s s.realized_pnl) session_pnl_limit _ h2 in
    let (cool, h4) =
      unappended (ltb 0 (cooldown_remaining now s.last_exit)) post_exit_cooldown _ h3 in
    let (plan, h5) =
      unappended (not plans && not s.has_position) no_eligible_plan
        (blocker_reasons (calendar_blocker s context)) h4 in
    record {
      free = free;
      below_cap = ground (arith, below);
      within_limits = within;
      cooled = cooldown_remaining-IsCooled now s.last_exit cool;
      planned = planned_if plans s.has_position free plan;
      calm = calendar-IsCalm s context free h5;
    }
  where
    planned_if : (p f : Bool) → f ≡ false → not p && not f ≡ false → p ≡ true
    planned_if true f e h = refl
    planned_if false true e h = cc
    planned_if false false e h = cc

no_reason :
    (s : OptionsState) (now : ℕ) (plans : Bool) (context : Option EventContext)
    → MayEnter s now plans context
    → entry_reasons s now plans context ≡ []
unfolding entry_reasons
no_reason s now plans context m =
    let below : leb entry_cap s.entries ≡ false = ground (arith, m.below_cap) in
    rw below (
      rw (m.within_limits) (
        rw (IsCooled-cooldown_remaining now s.last_exit (m.cooled))
          (rw (IsCalm-calendar s context (m.calm)) (rw (m.planned) (rw (m.free) refl)))))

-- The gate allows an entry exactly when no position is open, fewer than ten entries were made, the
-- profit and loss of the session are within its limits, the cooldown after the last exit is over, there
-- is a plan, and the event calendar, if it is asked, is configured and clear.
pub entry_gate-allowed :
    (s : OptionsState) (now : ℕ) (plans : Bool) (context : Option EventContext)
    → ((entry_gate s now plans context).allowed ≡ true) ↔ MayEnter s now plans context
unfolding entry_gate
entry_gate-allowed s now plans context = (
  λ h. none_found s now plans context (ground arith),
  λ m. rw (no_reason s now plans context m) refl,
)
