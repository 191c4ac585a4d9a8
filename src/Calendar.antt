-- ===== src/Calendar.antt =====
-- The exchange calendar of src/kiwit/marketdata/canonical.py: dated sessions and their bounds.
--
-- A point of time is a number of microseconds since 1970 in UTC, a date a number of days since
-- 1970, an offset a number of microseconds. India has no daylight saving time, so `IST` is the
-- fixed offset of five and a half hours.
use kiwi_t.Prelude.{
  ℕ, ◌+◌, ◌-◌, ◌*◌, ◌/◌, String, Bool, Option, none, some, List, [], ◌∷◌, ◌==◌, if◌then◌else◌, ltb,
  leb, ◌<◌, ◌≤◌, ◌&&◌, ◌||◌, not, true, false, ◌≡◌, refl, inl, inr, any, All, arith, str_eq,
  Bool-cases, Outcome, ok, ◌>>◌, raise_if, raise_if_ok, Returning, Returning-then,
}

abbrev pub second : ℕ
second = 1000000

-- `timedelta(seconds=n)`
abbrev pub seconds : ℕ → ℕ
seconds n = n * 1000000

abbrev pub day_length : ℕ
day_length = 86400000000

abbrev pub ist_offset : ℕ
ist_offset = 19800000000

-- `now.astimezone(IST).date()`
unfoldable pub ist_date : ℕ → ℕ
ist_date now = (now + ist_offset) / day_length

-- `opens` and `closes` are local times of the day, in microseconds from midnight.
pub record Session : Type 0 where
  pub day : ℕ
  pub opens : ℕ
  pub closes : ℕ

-- `Session.bounds`, at a session whose times are ordered (`IsOrdered`): a calendar is not
-- constructed with any other.
unfoldable pub bounds : Session → ℕ × ℕ
bounds s = (s.day * day_length + s.opens - ist_offset, s.day * day_length + s.closes - ist_offset)

pub record TradingCalendar : Type 0 where
  pub version : String
  pub sessions : List Session

find_session : ℕ → List Session → Option Session
find_session day [] = none
find_session day (s ∷ rest) = if s.day == day then some s else find_session day rest

-- `TradingCalendar.session`
unfoldable pub session : TradingCalendar → ℕ → Option Session
unfolding find_session
session c day = find_session day c.sessions

-- `session(now.astimezone(IST).date())`
unfoldable pub session_at : TradingCalendar → ℕ → Option Session
session_at c now = session c (ist_date now)

-- `bounds()[0] <= at < bounds()[1]`
unfoldable pub is_open : Session → ℕ → Bool
is_open s at = let (opens, closes) = bounds s in leb opens at && ltb at closes

-- What `bounds` checks of a session's times: ordered, within one day, of a day in this epoch.
pub record IsOrdered (s : Session) : Type 0 where
  pub ordered : s.opens < s.closes
  pub within_day : s.closes ≤ day_length
  pub in_epoch : 0 < s.day

pub data CalendarFailure : Type 0 where
  version_or_dates unordered_times : CalendarFailure

-- the days are different
unfoldable pub has_unique_days : List Session → Bool
has_unique_days [] = true
has_unique_days (s ∷ rest) =
    not (any (λ (t : Session). t.day == s.day) rest) && has_unique_days rest

-- `TradingCalendar.__post_init__`; a local time of the source lies within a day and has no time zone
unfoldable pub checked_calendar : TradingCalendar → Outcome CalendarFailure TradingCalendar
checked_calendar c = do
  raise_if (str_eq c.version "" || not (has_unique_days c.sessions)) version_or_dates
  raise_if (any (λ (s : Session). leb s.closes s.opens) c.sessions) unordered_times
  ok c

ordered_times :
    (sessions : List Session)
    → any (λ (s : Session). leb s.closes s.opens) sessions ≡ false
    → All (λ (s : Session). s.opens < s.closes) sessions
ordered_times [] h = tt
ordered_times (s ∷ rest) h = elim (Bool-cases (leb s.closes s.opens)) [
  | inl bad ↦ cc (rw bad at h)
  | inr good ↦ (ground arith, ordered_times rest (rw good at h))
]

-- A calendar that was checked is the one that was given, and its sessions open before they close.
pub checked_calendar-ordered :
    (c : TradingCalendar)
    → Returning
        (λ d. (d ≡ c) × All (λ (s : Session). s.opens < s.closes) d.sessions)
        (checked_calendar c)
unfolding checked_calendar
checked_calendar-ordered c =
    let P : TradingCalendar → Type 0 =
      λ d. (d ≡ c) × All (λ (s : Session). s.opens < s.closes) d.sessions in
    Returning-then P
      (raise_if (str_eq c.version "" || not (has_unique_days c.sessions)) version_or_dates) _
      (λ _.
        Returning-then P
          (raise_if (any (λ (s : Session). leb s.closes s.opens) c.sessions) unordered_times) (ok c)
          (λ ordered. (refl, ordered_times c.sessions (raise_if_ok _ unordered_times ordered))))
