-- ===== src/Desk/Tables.antt =====
-- The tables of `BankNiftyStore` of src/kiwit/banknifty.py, with the books of their sessions.
use kiwi_t.Prelude.{
  ℕ, ◌+◌, ◌≡◌, refl, ap, subst, true, ltb, ◌==◌, Option, none, some, List, [], ◌∷◌, ◌++◌, if-intro,
  inl, inr, Bool-cases, arith, All,
}
use kiwi_t.Desk.State.{DeskState, DeskEvent, paper_exit}
use kiwi_t.Desk.Run.{DayEvent, Desk, newer, latest, save_session, dated, events_of, commit}
use kiwi_t.Desk.Books.{IsKept, IsKept-loosened, allowance}
use kiwi_t.Desk.Keeping.{StaysKept}

allowance-append :
    (e : ℕ) (xs ys : List DeskEvent) → allowance e (xs ++ ys) ≡ allowance e xs + allowance e ys
unfolding allowance
allowance-append e [] ys = omega arith
allowance-append e (paper_exit id quantity price pnl reason closed ∷ xs) ys =
    omega (arith, allowance-append e xs ys)
allowance-append e (x ∷ xs) ys = allowance-append e xs ys

events_of-append :
    (day : ℕ) (xs ys : List DayEvent)
    → events_of day (xs ++ ys) ≡ events_of day xs ++ events_of day ys
unfolding events_of
events_of-append day [] ys = refl
events_of-append day (x ∷ xs) ys = elim (Bool-cases (x.day == day)) [
  | inl same ↦ rw same (rw (events_of-append day xs ys) refl)
  | inr other ↦ rw other (events_of-append day xs ys)
]

events_of-dated : (day : ℕ) (es : List DeskEvent) → events_of day (dated day es) ≡ es
unfolding events_of dated
events_of-dated day [] = refl
events_of-dated day (x ∷ es) =
    let same : (day == day) ≡ true = ground arith in rw same (ap (x ∷◌) (events_of-dated day es))

-- the allowance of a day, after more events
allowance-grown :
    (e day : ℕ) (xs ys : List DayEvent)
    → allowance e (events_of day (xs ++ ys))
      ≡ allowance e (events_of day xs) + allowance e (events_of day ys)
allowance-grown e day xs ys =
    rw (events_of-append day xs ys) (allowance-append e (events_of day xs) (events_of day ys))

module _ (e : ℕ) where
  -- the books of a session, given the events
  abbrev pub InBooks : List DayEvent → DeskState → Type 0
  InBooks events s = IsKept s.day (allowance e (events_of s.day events)) s

  -- The books of all sessions are kept, each up to the rounding of the exits of its day.
  abbrev pub IsBooked : Desk → Type 0
  IsBooked desk = All (InBooks desk.events) desk.sessions

  pub InBooks-grown :
      (events more : List DayEvent) (rows : List DeskState)
      → All (InBooks events) rows
      → All (InBooks (events ++ more)) rows
  InBooks-grown events more [] h = tt
  InBooks-grown events more (s ∷ rest) h = (
    IsKept-loosened s.day _ _ s (omega (arith, allowance-grown e s.day events more)) h.0,
    InBooks-grown events more rest h.1,
  )

  save_session-All :
      (P : DeskState → Type 0) (s : DeskState) (rows : List DeskState)
      → P s
      → All P rows
      → All P (save_session s rows)
  unfolding save_session
  save_session-All P s [] new h = (new, tt)
  save_session-All P s (x ∷ rest) new h =
      if-intro (All P) (x.day == s.day) _ _ (λ _. (new, h.1))
        (λ _. (h.0, save_session-All P s rest new h.1))

  newer-All :
      (P : DeskState → Type 0) (s : DeskState) (o : Option DeskState)
      → P s
      → ((t : DeskState) → o ≡ some t → P t)
      → P (newer s o)
  unfolding newer
  newer-All P s none h k = h
  newer-All P s (some t) h k = if-intro P (ltb s.day t.day) t s (λ _. k t refl) (λ _. h)

  pub latest-All :
      (P : DeskState → Type 0) (rows : List DeskState) (s : DeskState)
      → All P rows
      → latest rows ≡ some s
      → P s
  unfolding latest
  latest-All P [] s h there = cc
  latest-All P (x ∷ rest) s h there =
      subst P (cc) (newer-All P x (latest rest) h.0 (λ t. latest-All P rest t h.1))

  pub commit-IsBooked :
      (desk : Desk) (r : DeskState × List DeskEvent)
      → IsBooked desk
      → StaysKept e r.0.day (allowance e (events_of r.0.day desk.events)) r
      → IsBooked (commit desk r)
  unfolding commit
  commit-IsBooked desk r h new =
      save_session-All (InBooks (desk.events ++ dated r.0.day r.1)) r.0 desk.sessions
        (IsKept-loosened r.0.day _ _ r.0
          (omega (
            arith,
            allowance-grown e r.0.day desk.events (dated r.0.day r.1),
            ap (allowance e) (events_of-dated r.0.day r.1),
          ))
          new)
        (InBooks-grown desk.events (dated r.0.day r.1) desk.sessions h)
