-- ===== src/Desk/Clock.antt =====
-- The regular sessions of src/kiwit/options_calendar.py and the windows of src/kiwit/banknifty.py.
use kiwi_t.Prelude.{
  ℕ, ◌+◌, ◌%◌, Bool, false, not, ◌&&◌, ltb, leb, ◌==◌, Option, none, some, List, [], ◌∷◌, any,
  if◌then◌else◌, is_fresh,
}
use kiwi_t.Calendar.{ist_date, ist_offset, day_length, seconds}

-- `HOLIDAYS`, as days since 1970
abbrev holidays : List ℕ
holidays =
    20468 ∷ 20479 ∷ 20515 ∷ 20538 ∷ 20543 ∷ 20546 ∷ 20557 ∷ 20574 ∷ 20601 ∷ 20630 ∷ 20710 ∷ 20728
    ∷ 20746 ∷ 20767 ∷ 20781 ∷ 20812 ∷ []

-- `day.weekday()`: the day 0 was a Thursday
abbrev weekday : ℕ → ℕ
weekday day = (day + 3) % 7

-- `regular_session`; 2026 has the days from 20454 on, before 20819
unfoldable pub regular_session : ℕ → Option Bool
regular_session day =
    if leb 20454 day && ltb day 20819
    then some (ltb (weekday day) 5 && not (any (λ h. h == day) holidays))
    else none

-- `now.astimezone(IST).time()`, in microseconds from midnight
abbrev pub local_time : ℕ → ℕ
local_time now = (now + ist_offset) % day_length

-- `regular_session(local.date()) is True`
unfoldable pub is_regular : ℕ → Bool
is_regular now = elim (regular_session (ist_date now)) [ none ↦ false | some b ↦ b ]

-- `entry_window`, from 09:30 to 15:00
unfoldable pub entry_window : ℕ → Bool
entry_window now =
    is_regular now && (leb 34_200_000_000 (local_time now) && ltb (local_time now) 54_000_000_000)

-- `market_window`, from 09:30 to 15:30
unfoldable pub market_window : ℕ → Bool
market_window now =
    is_regular now && (leb 34_200_000_000 (local_time now) && ltb (local_time now) 55_800_000_000)

-- `local.time() >= time(15, 15)`
unfoldable pub is_flattening : ℕ → Bool
is_flattening now = leb 54_900_000_000 (local_time now)

-- `age_ok` of src/kiwit/playbooks.py
unfoldable pub age_ok : Option ℕ → ℕ → ℕ → Bool
age_ok none now limit = false
age_ok (some stamp) now limit = is_fresh now stamp (seconds limit)
